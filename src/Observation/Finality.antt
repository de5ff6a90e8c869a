-- ===== src/Observation/Finality.antt =====
-- packages/receipt-lifecycle/src/observation.ts: the finality policy, which wants a contiguous chain of
-- blocks from the inclusion to the head.
use samurai_sushi.Common.{
  ℕ, ◌+◌, ◌-◌, Bool, true, false, ◌&&◌, ◌||◌, String, List, [], ◌∷◌, length, all, leb, ◌==◌, str_eq,
  Result, ok, ◌>>◌, guard, finality_policy_unsupported, finality_invalid,
}
use samurai_sushi.Json.Canonical.{max_safe_integer}
use samurai_sushi.Json.{nat}
use samurai_sushi.Json.Text.{number_text, ◌+++◌}
use samurai_sushi.Commands.Patterns.{codes}
use samurai_sushi.Observation.{ProofBlock, is_null, is_hash, last_block}

abbrev pub receipt_finality_policy : String
receipt_finality_policy = "localnet-two-confirmation-rehearsal-v1"

pub record FinalityEvidence : Type 0 where
  pub included_level : ℕ
  pub included_block_hash : String
  pub head_level : ℕ
  pub head_block_hash : String
  pub proof : List ProofBlock

pub record FinalityDecision : Type 0 where
  pub confirmations : ℕ
  pub confirmed : Bool
  pub finalized : Bool
  pub evidence : String

-- `[1-9A-HJ-NP-Za-km-z]`.
abbrev pub is_base58 : ℕ → Bool
is_base58 c =
    (leb b'1' c && leb c b'9')
    || (leb b'A' c && leb c b'H')
    || (leb b'J' c && leb c b'N')
    || (leb b'P' c && leb c b'Z')
    || (leb b'a' c && leb c b'k')
    || (leb b'm' c && leb c b'z')

unfoldable pub is_block_hash : String → Bool
is_block_hash s = leb 16 (length (codes s)) && leb (length (codes s)) 96 && all is_base58 (codes s)

-- The blocks after `previous` each name it as their predecessor, at the level that the place gives.
abbrev pub descends : ProofBlock → ℕ → List ProofBlock → Bool
descends previous level [] = true
descends previous level (block ∷ rest) =
    block.level == level
    && is_hash block.predecessor_hash previous.block_hash
    && descends block (level + 1) rest

abbrev pub ancestry_holds : FinalityEvidence → List ProofBlock → Bool
ancestry_holds e [] = true
ancestry_holds e (first ∷ rest) =
    first.level == e.included_level
    && str_eq first.block_hash e.included_block_hash
    && is_null first.predecessor_hash
    && descends first (e.included_level + 1) rest

abbrev pub ends_at : String → List ProofBlock → Bool
ends_at head [] = false
ends_at head (first ∷ rest) = str_eq (last_block first rest).block_hash head

abbrev pub evidence_fits : FinalityEvidence → Bool
evidence_fits e =
    leb e.included_level max_safe_integer
    && leb e.head_level max_safe_integer
    && leb e.included_level e.head_level
    && is_block_hash e.included_block_hash
    && is_block_hash e.head_block_hash
    && leb 1 (length e.proof)
    && leb (length e.proof) 64

abbrev pub confirmations_of : FinalityEvidence → ℕ
confirmations_of e = e.head_level - e.included_level + 1

abbrev pub evidence_text : String → FinalityEvidence → String
evidence_text policy_id e =
    policy_id
    +++ ":"
    +++ number_text (nat e.included_level)
    +++ ":"
    +++ e.included_block_hash
    +++ ":"
    +++ number_text (nat e.head_level)
    +++ ":"
    +++ e.head_block_hash

unfoldable pub evaluate_receipt_finality_policy :
    String → FinalityEvidence → Result FinalityDecision
evaluate_receipt_finality_policy policy_id e = do
  guard (str_eq policy_id receipt_finality_policy) finality_policy_unsupported
  guard (evidence_fits e) finality_invalid
  guard (confirmations_of e == length e.proof) finality_invalid
  guard (ancestry_holds e e.proof) finality_invalid
  guard (ends_at e.head_block_hash e.proof) finality_invalid
  ok (record {
    confirmations = confirmations_of e;
    confirmed = leb 2 (confirmations_of e);
    finalized = leb 2 (confirmations_of e);
    evidence = evidence_text policy_id e;
  })
