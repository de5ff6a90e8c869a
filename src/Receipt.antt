-- ===== src/Receipt.antt =====
-- packages/receipt-authority and packages/receipt-lifecycle: service receipts, from the permit that
-- an issuer signs to the state of an operation on the chain.
pub mod Lifecycle
pub mod Payload
pub mod PayloadFields
pub mod Pack
pub mod Permit
pub mod Admission
pub mod Issuance
pub mod Argument
