-- ===== src/Examples.antt =====
-- Runs of the models on concrete inputs, and each property at an input that meets its hypotheses.
pub mod Shift
pub mod Evening
pub mod Parts
pub mod Permit
pub mod Issue
pub mod Display
pub mod Chain
pub mod Delivery
pub mod Commit
pub mod Claims
pub mod Bodies
