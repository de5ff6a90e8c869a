-- ===== src/Service/Project/Laws.antt =====
-- What a projection shows.
use mathlib.Core.Path.{subst}
use samurai_sushi.Common.{
  ◌≡◌, refl, ◌↔◌, Bool, true, none, List, ◌∷◌, ◌++◌, all, includes, String, FailureCode, ok, ◌>>◌,
  guard, >>=-eq-ok, and-true, Bool-cases, inl, inr, [], invalid_service_state, arith,
}
use samurai_sushi.Json.{Json}
use samurai_sushi.Service.{settled, Checkpoint, Projection}
use samurai_sushi.Service.Decode.{decode_checkpoint}
use samurai_sushi.Service.Reduce.{dedup_from}
use samurai_sushi.Service.Project.{
  Manifest, Context, display_refs, cue_refs, assert_projection_manifest, project_evening_service,
}
use samurai_sushi.Service.Project.View.{view}

all-front : (f : String → Bool) (xs ys : List String) → all f (xs ++ ys) ≡ true → all f xs ≡ true
all-front f [] ys h = refl
all-front f (x ∷ xs) ys h =
    let (first, rest) = and-true (f x) (all f (xs ++ ys)) h in rw (first, all-front f xs ys rest)

all-dedup_from :
    (f : String → Bool) (seen xs : List String)
    → all f xs ≡ true
    → all f (dedup_from seen xs) ≡ true
all-dedup_from f seen [] h = refl
all-dedup_from f seen (x ∷ xs) h =
    let (first, rest) = and-true (f x) (all f xs) h in
    let fresh = all-dedup_from f (x ∷ seen) xs rest in
    let old = all-dedup_from f seen xs rest in
    elim (Bool-cases (includes seen x)) [
      | inl found ↦ rw found old
      | inr new ↦ rw (new, first) fresh
    ]

view_command : (c : Checkpoint) → ((view c).command ≡ none) ↔ (c.phase ≡ settled)
unfolding view
view_command c = ground arith

past_refs :
    {A : Type 0} (b : Bool) (e : FailureCode) {x y : A}
    → (guard b e >> ok x) ≡ ok y
    → (b ≡ true) × (x ≡ y)
past_refs b e h = ground arith

-- A projection is of a checkpoint that decodes; its prompt and the references that it displays are
-- references of the manifest, and it offers no command exactly when the service is settled.
pub project_evening_service-shows :
    (input : Json) (m : Manifest) (context : Context) {p : Projection}
    → project_evening_service input m context ≡ ok p
    → (c : Checkpoint) × (decode_checkpoint input ≡ ok c)
      × (includes m.content_refs p.current_prompt_id ≡ true)
      × (all (includes m.content_refs) p.display_refs ≡ true)
      × ((p.primary_command ≡ none) ↔ (c.phase ≡ settled))
unfolding project_evening_service
project_evening_service-shows input m context h =
    let (c, decoded, h1) = >>=-eq-ok (decode_checkpoint input) _ h in
    let (_, _, h2) = >>=-eq-ok (assert_projection_manifest m) _ h1 in
    let refs = (view c).prompt ∷ display_refs c ++ cue_refs context.corrective_cue_id in
    let (listed, same) = past_refs (all (includes m.content_refs) refs) invalid_service_state h2 in
    let (prompt, others) =
      and-true (includes m.content_refs (view c).prompt)
        (all (includes m.content_refs) (display_refs c ++ cue_refs context.corrective_cue_id))
        listed in
    let shown = all-dedup_from (includes m.content_refs) [] (display_refs c) (
      all-front (includes m.content_refs) (display_refs c) (cue_refs context.corrective_cue_id)
        others) in
    subst
      (λ (q : Projection).
        (a : Checkpoint) × (decode_checkpoint input ≡ ok a)
        × (includes m.content_refs q.current_prompt_id ≡ true)
        × (all (includes m.content_refs) q.display_refs ≡ true)
        × ((q.primary_command ≡ none) ↔ (a.phase ≡ settled)))
      same (c, decoded, prompt, shown, view_command c)
