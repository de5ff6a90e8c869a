-- ===== src/Executor/Opened.antt =====
-- packages/persistence/src/command-executor.ts: the session that a secret opens, and what its use rests on.
use mathlib.Core.List.{Memᴰ}
use samurai_sushi.Common.{
  ℕ, ◌<◌, ◌≡◌, refl, sym, ap, ◌∙◌, ◌⊎◌, inl, inr, Bool, true, false, not, ◌&&◌, ◌||◌, and-true,
  Bool-cases, String, Option, Option-cases, none, some, List, [], ◌∷◌, leb, ◌==◌, ==→eq, str_eq,
  eq_iff, if_true, if_false, arith, if_true,
}
use samurai_sushi.Executor.{Slot, current, predecessor, VersionedDigest, DigestRow, SessionRow}
use samurai_sushi.Executor.Session.{
  Authority, ResumeMatch, same_key, matches_candidate, session_of, join_session, find_match,
  candidate_for, holds_digest, is_authenticated, is_predecessor, is_over, is_expired,
  needs_rotation,
}
use samurai_sushi.Executor.Answered.{Holds, same_digest-eq}

some_eq : {A : Type 0} {a b : A} → some a ≡ some b → a ≡ b
some_eq h = cc

-- The row and the session of a match are the store's.
pub record Found (sessions : List SessionRow) (digests : List DigestRow) (found : ResumeMatch)
    : Type 0 where
  pub row_stored : Memᴰ found.row digests
  pub session_stored : Memᴰ found.session sessions
  pub joined : found.row.guest_session_id ≡ found.session.id

session_of-Mem :
    (id : String) (sessions : List SessionRow) {s : SessionRow}
    → session_of id sessions ≡ some s
    → Memᴰ s sessions × (s.id ≡ id)
session_of-Mem id [] h = cc
session_of-Mem id (x ∷ xs) {s} h = elim (Bool-cases (str_eq x.id id)) [
  | inl e ↦
      (let same : x ≡ s = some_eq (if_true _ _ e h) in
        let named : x.id ≡ id = ground (arith, eq_iff x.id id) in
        (Memᴰ.head (sym same), ap (λ y. y.id) (sym same) ∙ named))
  | inr e ↦ (let (m, named) = session_of-Mem id xs (if_false _ _ e h) in (Memᴰ.tail m, named))
]

joined_row :
    (row : DigestRow) (rows : List DigestRow) (sessions : List SessionRow) (s : SessionRow)
    {found : ResumeMatch}
    → session_of row.guest_session_id sessions ≡ some s
    → record { session = s; row = row } ≡ found
    → Found sessions (row ∷ rows) found
joined_row row rows sessions s {found} there same =
    let (place, named) = session_of-Mem row.guest_session_id sessions there in
    subst_found same
      (record { row_stored = Memᴰ.head refl; session_stored = place; joined = sym named })
  where
    subst_found :
        {a b : ResumeMatch} → a ≡ b → Found sessions (row ∷ rows) a → Found sessions (row ∷ rows) b
    subst_found e h = rw (sym e) h

later_row :
    (row : DigestRow) (rows : List DigestRow) (sessions : List SessionRow) {found : ResumeMatch}
    → Found sessions rows found
    → Found sessions (row ∷ rows) found
later_row row rows sessions h = record {
  row_stored = Memᴰ.tail h.row_stored;
  session_stored = h.session_stored;
  joined = h.joined;
}

pub find_match-Found :
    (candidates : List VersionedDigest) (sessions : List SessionRow) (digests : List DigestRow)
    {found : ResumeMatch}
    → find_match candidates sessions digests ≡ some found
    → Found sessions digests found
find_match-Found candidates sessions [] h = cc
find_match-Found candidates sessions (row ∷ rows) {found} h =
    elim (Bool-cases (matches_candidate candidates row)) [
      | inr e ↦
          later_row row rows sessions (find_match-Found candidates sessions rows (if_false _ _ e h))
      | inl e ↦ elim (Option-cases (session_of row.guest_session_id sessions)) [
        | inl missing ↦ later_row row rows sessions (
            find_match-Found candidates sessions rows
              (sym (ap (λ o. first_match o) missing) ∙ if_true _ _ e h))
        | inr (s, there) ↦
            joined_row row rows sessions s there
              (some_eq (sym (ap (λ o. first_match o) there) ∙ if_true _ _ e h))
      ]
    ]
  where
    first_match : Option SessionRow → Option ResumeMatch
    first_match o = elim (join_session row o) [
      | none ↦ find_match candidates sessions rows
      | some found ↦ some found
    ]

candidate_for-Mem :
    (candidates : List VersionedDigest) (row : DigestRow) {c : VersionedDigest}
    → candidate_for candidates row ≡ some c
    → Memᴰ c candidates × (same_key c row ≡ true)
candidate_for-Mem [] row h = cc
candidate_for-Mem (x ∷ xs) row {c} h = elim (Bool-cases (same_key x row)) [
  | inl e ↦
      (let same : x ≡ c = some_eq (if_true _ _ e h) in
        (Memᴰ.head (sym same), sym (ap (λ y. same_key y row) same) ∙ e))
  | inr e ↦ (let (m, named) = candidate_for-Mem xs row (if_false _ _ e h) in (Memᴰ.tail m, named))
]

pub is_authenticated-Holds :
    (candidates : List VersionedDigest) (found : ResumeMatch)
    → is_authenticated candidates found ≡ true
    → Holds candidates found.row
unfolding is_authenticated
is_authenticated-Holds candidates found h =
    elim (Option-cases (candidate_for candidates found.row)) [
      | inl missing ↦ absurd (false_true (sym (ap (holds_digest found.row) missing) ∙ h))
      | inr (c, there) ↦
          (let (place, keyed) = candidate_for-Mem candidates found.row there in
            let (version, identity) =
              and-true (c.key_version == found.row.key_version)
                (str_eq c.key_identity found.row.key_identity) keyed in
            record {
              candidate = c;
              listed = place;
              version = ==→eq c.key_version found.row.key_version version;
              identity = text_eq c.key_identity found.row.key_identity identity;
              digest =
                  same_digest-eq c.digest found.row.digest
                    (sym (ap (holds_digest found.row) there) ∙ h);
            })
    ]
  where
    false_true : false ≡ true → ⊥
    false_true e = cc

    text_eq : (s t : String) → str_eq s t ≡ true → s ≡ t
    text_eq s t e = ground (arith, eq_iff s t)

not_over :
    (until : Option ℕ) (now : ℕ)
    → is_over until now ≡ false
    → (t : ℕ) × (until ≡ some t) × (now < t)
not_over none now h = cc
not_over (some t) now h = (t, refl, ground arith)

pub live_session :
    (found : ResumeMatch) (now : ℕ)
    → is_expired found now ≡ false
    → (now < found.session.expires_at)
      × ((found.row.slot ≡ current)
          ⊎ ((until : ℕ) × (found.row.valid_until ≡ some until) × (now < until)))
live_session found now h =
    live_at found.session.expires_at found.row.slot found.row.valid_until now h
  where
    live_at :
        (expires : ℕ) (slot : Slot) (until : Option ℕ) (now : ℕ)
        → (leb expires now || (is_predecessor slot && is_over until now)) ≡ false
        → (now < expires) × ((slot ≡ current) ⊎ ((t : ℕ) × (until ≡ some t) × (now < t)))
    live_at expires current until now h = (ground arith, inl refl)
    live_at expires predecessor until now h = (
      ground arith,
      inr (not_over until now (either_false (leb expires now) (is_over until now) h)),
    )
      where
        either_false : (a b : Bool) → (a || (true && b)) ≡ false → b ≡ false
        either_false a b h = ground arith

pub no_rotation :
    (authority : Authority) (found : ResumeMatch) (now : ℕ)
    → needs_rotation authority found now ≡ false
    → (now < found.session.rotate_after)
      × ((found.row.slot ≡ predecessor) ⊎ (found.row.key_version ≡ authority.active_version))
no_rotation authority found now h =
    settled_at found.session.rotate_after found.row.slot found.row.key_version
      authority.active_version h
  where
    settled_at :
        (rotate : ℕ) (slot : Slot) (version active : ℕ)
        → (leb rotate now || (not (is_predecessor slot) && not (version == active))) ≡ false
        → (now < rotate) × ((slot ≡ predecessor) ⊎ (version ≡ active))
    settled_at rotate predecessor version active h = (ground arith, inl refl)
    settled_at rotate current version active h = (ground arith, inr (ground arith))
