-- ===== src/Observation/Ancestry.antt =====
-- The chain of blocks that `evaluateReceiptFinalityPolicy` of packages/receipt-lifecycle/src/observation.ts
-- takes for a proof.
use samurai_sushi.Common.{
  ℕ, zero, suc, ◌+◌, ◌-◌, ◌≤◌, ◌≡◌, refl, sym, ap, ◌∙◌, Bool, true, ◌&&◌, and-true, Option, none,
  some, List, [], ◌∷◌, length, get_elem?, leb, leb→le, ◌==◌, ==→eq, str_eq, eq_iff, String, Result,
  ok, >>-eq-ok, guard, guard-eq-ok, arith, true_not_false, finality_policy_unsupported,
  finality_invalid,
}
use samurai_sushi.Observation.{ProofBlock, is_null, is_hash, last_block}
use samurai_sushi.Observation.Finality.{
  FinalityEvidence, FinalityDecision, descends, ancestry_holds, ends_at, evidence_fits,
  confirmations_of, evaluate_receipt_finality_policy, evidence_text, receipt_finality_policy,
}

-- A list of blocks whose levels count up and in which each block names the one before it.
pub record Chain (blocks : List ProofBlock) (base : ℕ) : Type 0 where
  pub levels :
      (i : ℕ) (block : ProofBlock) → get_elem? blocks i ≡ some block → block.level ≡ base + i
  pub ancestry :
      (i : ℕ) (parent child : ProofBlock)
      → get_elem? blocks i ≡ some parent
      → get_elem? blocks (suc i) ≡ some child
      → child.predecessor_hash ≡ some parent.block_hash

is_hash-some : (o : Option String) (s : String) → is_hash o s ≡ true → o ≡ some s
is_hash-some none s h = cc
is_hash-some (some t) s h = ground (arith, eq_iff t s)

is_null-none : (o : Option String) → is_null o ≡ true → o ≡ none
is_null-none none h = refl
is_null-none (some t) h = cc

all_three : (a b c : Bool) → (a && b && c) ≡ true → (a ≡ true) × (b ≡ true) × (c ≡ true)
all_three a b c h = ground arith

-- What a block that descends from `previous` has, and what follows it.
descends-cons :
    (previous b : ProofBlock) (base : ℕ) (rest : List ProofBlock)
    → descends previous base (b ∷ rest) ≡ true
    → (b.level ≡ base)
      × (b.predecessor_hash ≡ some previous.block_hash)
      × (descends b (base + 1) rest ≡ true)
descends-cons previous b base rest h =
    let (level, parent, more) =
      all_three (b.level == base) (is_hash b.predecessor_hash previous.block_hash)
        (descends b (base + 1) rest) h in
    (==→eq b.level base level, is_hash-some b.predecessor_hash previous.block_hash parent, more)

descends-levels :
    (previous : ProofBlock) (base : ℕ) (rest : List ProofBlock) (i : ℕ) (block : ProofBlock)
    → descends previous base rest ≡ true
    → get_elem? rest i ≡ some block
    → block.level ≡ base + i
descends-levels previous base [] i block h e = cc
descends-levels previous base (b ∷ rest) zero block h e =
    let (level, _, _) = descends-cons previous b base rest h in
    let same : b ≡ block = cc in sym (ap (λ x. x.level) same) ∙ level ∙ omega arith
descends-levels previous base (b ∷ rest) (suc i) block h e =
    let (_, _, more) = descends-cons previous b base rest h in
    omega (arith, descends-levels b (base + 1) rest i block more e)

descends-ancestry :
    (previous : ProofBlock) (base : ℕ) (rest : List ProofBlock) (i : ℕ) (parent child : ProofBlock)
    → descends previous base rest ≡ true
    → get_elem? (previous ∷ rest) i ≡ some parent
    → get_elem? rest i ≡ some child
    → child.predecessor_hash ≡ some parent.block_hash
descends-ancestry previous base [] i parent child h p c = cc
descends-ancestry previous base (b ∷ rest) zero parent child h p c =
    let (_, named, _) = descends-cons previous b base rest h in
    let same_parent : previous ≡ parent = cc in
    let same_child : b ≡ child = cc in
    sym (ap (λ x. x.predecessor_hash) same_child) ∙ named ∙ ap (λ x. some x.block_hash) same_parent
descends-ancestry previous base (b ∷ rest) (suc i) parent child h p c =
    let (_, _, more) = descends-cons previous b base rest h in
    descends-ancestry b (base + 1) rest i parent child more p c

first_holds :
    (e : FinalityEvidence) (first : ProofBlock) (rest : List ProofBlock)
    → ancestry_holds e (first ∷ rest) ≡ true
    → (first.level ≡ e.included_level)
      × (first.block_hash ≡ e.included_block_hash)
      × (first.predecessor_hash ≡ none)
      × (descends first (e.included_level + 1) rest ≡ true)
first_holds e first rest h =
    let (start, orphan, more) =
      all_three (first.level == e.included_level && str_eq first.block_hash e.included_block_hash)
        (is_null first.predecessor_hash) (descends first (e.included_level + 1) rest) h in
    let (level, hash) =
      and-true (first.level == e.included_level) (str_eq first.block_hash e.included_block_hash)
        start in
    (
      ==→eq first.level e.included_level level,
      ground (arith, eq_iff first.block_hash e.included_block_hash),
      is_null-none first.predecessor_hash orphan,
      more,
    )

chain_levels :
    (e : FinalityEvidence) (blocks : List ProofBlock) (i : ℕ) (block : ProofBlock)
    → ancestry_holds e blocks ≡ true
    → get_elem? blocks i ≡ some block
    → block.level ≡ e.included_level + i
chain_levels e [] i block h g = cc
chain_levels e (first ∷ rest) zero block h g =
    let (level, _, _, _) = first_holds e first rest h in
    let same : first ≡ block = cc in sym (ap (λ x. x.level) same) ∙ level ∙ omega arith
chain_levels e (first ∷ rest) (suc i) block h g =
    let (_, _, _, more) = first_holds e first rest h in
    omega (arith, descends-levels first (e.included_level + 1) rest i block more g)

chain_ancestry :
    (e : FinalityEvidence) (blocks : List ProofBlock) (i : ℕ) (parent child : ProofBlock)
    → ancestry_holds e blocks ≡ true
    → get_elem? blocks i ≡ some parent
    → get_elem? blocks (suc i) ≡ some child
    → child.predecessor_hash ≡ some parent.block_hash
chain_ancestry e [] i parent child h p c = cc
chain_ancestry e (first ∷ rest) i parent child h p c =
    let (_, _, _, more) = first_holds e first rest h in
    descends-ancestry first (e.included_level + 1) rest i parent child more p c

last_at :
    (first : ProofBlock) (rest : List ProofBlock)
    → get_elem? (first ∷ rest) (length rest) ≡ some (last_block first rest)
last_at first [] = refl
last_at first (b ∷ rest) = last_at b rest

-- The block of the inclusion is the first of the proof, and the head's the last.
pub record Spans (e : FinalityEvidence) : Type 0 where
  pub chain : Chain e.proof e.included_level
  pub first :
      (block : ProofBlock) × (get_elem? e.proof 0 ≡ some block)
      × (block.block_hash ≡ e.included_block_hash)
  pub last :
      (block : ProofBlock) × (get_elem? e.proof (e.head_level - e.included_level) ≡ some block)
      × (block.block_hash ≡ e.head_block_hash)

ends :
    (e : FinalityEvidence) (blocks : List ProofBlock)
    → ancestry_holds e blocks ≡ true
    → ends_at e.head_block_hash blocks ≡ true
    → ((block : ProofBlock) × (get_elem? blocks 0 ≡ some block)
        × (block.block_hash ≡ e.included_block_hash))
      × ((block : ProofBlock) × (get_elem? blocks (length blocks - 1) ≡ some block)
          × (block.block_hash ≡ e.head_block_hash))
ends e [] h last = absurd (true_not_false (sym last))
ends e (first ∷ rest) h last =
    let (_, hash, _, _) = first_holds e first rest h in
    (
      (first, refl, hash),
      (
        last_block first rest,
        ap (get_elem? (first ∷ rest)) (omega arith) ∙ last_at first rest,
        ground (arith, eq_iff (last_block first rest).block_hash e.head_block_hash),
      ),
    )

-- The confirmations of a decision, and when it is final.
abbrev pub Counts : FinalityEvidence → FinalityDecision → Type 0
Counts e d =
    (d.confirmations ≡ length e.proof)
    × (d.confirmations ≤ 64)
    × (d.finalized ≡ leb 2 (length e.proof))

decided :
    (n m : ℕ) (text : String) {d : FinalityDecision}
    → Result.ok
        (record { confirmations = n; confirmed = leb 2 n; finalized = leb 2 n; evidence = text })
      ≡ ok d
    → n ≡ m
    → m ≤ 64
    → (d.confirmations ≡ m) × (d.confirmations ≤ 64) × (d.finalized ≡ leb 2 m)
decided n m text {d} h same short =
    let count : n ≡ d.confirmations = cc in
    let final : leb 2 n ≡ d.finalized = cc in
    (sym count ∙ same, omega arith, sym final ∙ ap (leb 2) same)

-- Evidence that the policy evaluates spans the chain from the inclusion to the head without a gap, its
-- confirmations are the blocks of that chain, at most 64, and the decision is final exactly from two
-- confirmations on.
pub evaluate_receipt_finality_policy-Spans :
    (policy_id : String) (e : FinalityEvidence) {d : FinalityDecision}
    → evaluate_receipt_finality_policy policy_id e ≡ ok d
    → Spans e × Counts e d
unfolding evaluate_receipt_finality_policy
evaluate_receipt_finality_policy-Spans policy_id e h =
    let (_, h1) =
      >>-eq-ok (guard (str_eq policy_id receipt_finality_policy) finality_policy_unsupported) _ h in
    let (fits, h2) = >>-eq-ok (guard (evidence_fits e) finality_invalid) _ h1 in
    let (counted, h3) =
      >>-eq-ok (guard (confirmations_of e == length e.proof) finality_invalid) _ h2 in
    let (holds, h4) = >>-eq-ok (guard (ancestry_holds e e.proof) finality_invalid) _ h3 in
    let (last, h5) = >>-eq-ok (guard (ends_at e.head_block_hash e.proof) finality_invalid) _ h4 in
    let ancestry = guard-eq-ok (ancestry_holds e e.proof) _ holds in
    let count = ==→eq (confirmations_of e) (length e.proof) (guard-eq-ok _ _ counted) in
    let (_, short) = and-true _ (leb (length e.proof) 64) (guard-eq-ok (evidence_fits e) _ fits) in
    let bound = leb→le (length e.proof) 64 short in
    let (start, (block, place, hash)) = ends e e.proof ancestry (guard-eq-ok _ _ last) in
    (
      record {
        chain = record {
          levels = λ i block. chain_levels e e.proof i block ancestry;
          ancestry = λ i parent child. chain_ancestry e e.proof i parent child ancestry;
        };
        first = start;
        last = (block, sym (ap (get_elem? e.proof) (omega arith)) ∙ place, hash);
      },
      decided (confirmations_of e) (length e.proof) (evidence_text policy_id e) h5 count bound,
    )
