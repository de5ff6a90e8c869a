-- ===== src/Common/Results.antt =====
-- Fallible code: packages/domain/src/errors.ts, the failure types of packages/domain/src/model.ts,
-- and the failure codes of packages/network and packages/receipt-authority, in one type. An
-- exception is the value `err code`; its message text is not modelled.
use mathlib.Core.Path.{◌≡◌, refl, ap}
use mathlib.Core.Logic.{◌⊎◌, inl, inr}
use mathlib.Core.Bool.{Bool, true, false}
use mathlib.Core.Option.{Option, none, some}
use mathlib.Core.List.{List, [], ◌∷◌}

pub data FailureCode : Type 0 where
  revision_conflict idempotency_payload_mismatch invalid_command_shape : FailureCode
  invalid_service_state disconnected : FailureCode
  -- packages/receipt-authority/src/model.ts, and an `Error` that has no code.
  invalid_receipt_input receipt_authority_rejected uncoded_error : FailureCode
  -- packages/network/src/policy.ts and packages/network/src/signing-policy.ts.
  network_value_missing network_unknown mainnet_forbidden network_profile_mismatch : FailureCode
  localnet_rpc_forbidden localnet_chain_mismatch localnet_indexer_forbidden : FailureCode
  shadownet_rpc_mismatch shadownet_chain_mismatch shadownet_indexer_mismatch : FailureCode
  browser_secret_exposure credential_profile_mismatch : FailureCode
  -- packages/receipt-lifecycle/src/observation.ts, whose errors have no codes: one for each message.
  observation_invalid observation_identity_mismatch observation_sequence_contradiction : FailureCode
  observation_head_contradiction finality_policy_unsupported finality_invalid : FailureCode
  attempt_transition_illegal : FailureCode
  -- packages/persistence/src/errors.ts.
  outbox_claim_lost command_authentication_failed command_bounds_exceeded : FailureCode
  guest_rotation_required idempotency_receipt_expired receipt_integrity_failure : FailureCode
  unsupported_subject guest_progress_not_found invalid_decision_shape invalid_digest : FailureCode
  -- packages/domain/src/claim-protocol.ts.
  invalid_claim_protocol : FailureCode

pub data Result {ℓ} (A : Type ℓ) : Type ℓ where
  err : FailureCode → Result A
  ok : A → Result A

abbrev pub guard : (fits : Bool) (otherwise : FailureCode) → Result (Unit {0})
guard false code = err code
guard true code = ok tt

-- `if (bad) invalid(…)`.
abbrev pub reject : Bool → FailureCode → Result (Unit {0})
reject true e = err e
reject false e = ok tt

abbrev pub from_option {ℓ} : {A : Type ℓ} → Option A → FailureCode → Result A
from_option none e = err e
from_option (some a) e = ok a

infixl 5 ◌>>=◌ ◌>>◌
abbrev pub ◌>>=◌ {ℓ κ} : {A : Type ℓ} {B : Type κ} → Result A → (A → Result B) → Result B
err code >>= next = err code
ok value >>= next = next value

-- A check, then the rest.
abbrev pub ◌>>◌ {ℓ} : {B : Type ℓ} → Result (Unit {0}) → Result B → Result B
check >> rest = check >>= λ _. rest

-- A value that came through a bind: the first part succeeded, and so did the rest on its value.
pub >>=-eq-ok {ℓ κ} :
    {A : Type ℓ} {B : Type κ} (first : Result A) (next : A → Result B) {value : B}
    → (first >>= next) ≡ ok value
    → (a : A) × (first ≡ ok a) × (next a ≡ ok value)
>>=-eq-ok (err code) next h = cc
>>=-eq-ok (ok a) next h = (a, refl, h)

pub >>-eq-ok {ℓ} :
    {B : Type ℓ} (check : Result (Unit {0})) (rest : Result B) {value : B}
    → (check >> rest) ≡ ok value
    → (check ≡ ok tt) × (rest ≡ ok value)
>>-eq-ok (err code) rest h = cc
>>-eq-ok (ok tt) rest h = (refl, h)

pub reject-eq-ok : (b : Bool) (e : FailureCode) → reject b e ≡ ok tt → b ≡ false
reject-eq-ok true e h = cc
reject-eq-ok false e h = refl

pub guard-eq-ok : (b : Bool) (e : FailureCode) → guard b e ≡ ok tt → b ≡ true
guard-eq-ok true e h = refl
guard-eq-ok false e h = cc

-- A result whose only possible value is `x`.
pub only-cases {ℓ} :
    {A : Type ℓ} (m : Result A) (x : A)
    → ((a : A) → m ≡ ok a → a ≡ x)
    → (m ≡ ok x) ⊎ ((e : FailureCode) × (m ≡ err e))
only-cases (ok a) x h = inl (ap ok (h a refl))
only-cases (err e) x h = inr (e, refl)

pub from_option-some {ℓ} :
    {A : Type ℓ} (o : Option A) (e : FailureCode) {a : A} → from_option o e ≡ ok a → o ≡ some a
from_option-some none e h = cc
from_option-some (some a) e h = cc

-- The values of a list of results, or the first failure.
abbrev pub sequence {ℓ} : {A : Type ℓ} → List (Result A) → Result (List A)
sequence [] = ok []
sequence (r ∷ rs) = r >>= λ a. sequence rs >>= λ xs. ok (a ∷ xs)

pub err_not_ok {ℓ} : {A : Type ℓ} {e : FailureCode} {a : A} → Result.err e ≡ ok a → ⊥
err_not_ok h = cc

pub ok_injective {ℓ} : {A : Type ℓ} {a b : A} → Result.ok a ≡ ok b → a ≡ b
ok_injective h = cc
