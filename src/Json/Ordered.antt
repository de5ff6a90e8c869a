-- ===== src/Json/Ordered.antt =====
-- packages/domain/src/canonical-json.ts: the canonical copy of a value has its keys in order, so that copying
-- it again changes nothing.
use samurai_sushi.Common.{
  ℕ, ◌≡◌, refl, sym, ap, ◌∙◌, inl, inr, Bool, true, false, ◌&&◌, and-true, Bool-cases, String, List,
  [], ◌∷◌, ok, ◌>>=◌, guard, >>=-eq-ok, >>-eq-ok, ok_injective, invalid_command_shape, arith,
}
use samurai_sushi.Json.{Json, null, bool, num, str, arr, obj, Items, nil, cons, Fields, end, field}
use samurai_sushi.Json.Unicode.{utf16, assert_valid_unicode, units_le, text_le}
use samurai_sushi.Json.Canonical.{
  canonicalize, canonicalize_items, canonicalize_fields, insert_field, canonical_number,
}
use samurai_sushi.Json.Sorted.{before, sorted, sorted_items, sorted_fields}

units_total : (s t : List ℕ) → units_le s t ≡ false → units_le t s ≡ true
units_total [] t h = cc
units_total (a ∷ as') [] h = refl
units_total (a ∷ as') (b ∷ bs) h = let ih = units_total as' bs in ground arith

text_total : (s t : String) → text_le s t ≡ false → text_le t s ≡ true
text_total s t h = units_total (utf16 s) (utf16 t) h

both_true : (a b : Bool) → a ≡ true → b ≡ true → (a && b) ≡ true
both_true a b h k = ground arith

insert_before :
    (k' k : String) (v : Json) (fs : Fields)
    → before k' fs ≡ true
    → text_le k' k ≡ true
    → before k' (insert_field k v fs) ≡ true
insert_before k' k v end h le = le
insert_before k' k v (field k2 v2 fs) h le = elim (Bool-cases (text_le k k2)) [
  | inl e ↦ rw e le
  | inr e ↦ rw e h
]

insert_sorted :
    (k : String) (v : Json) (fs : Fields)
    → sorted v ≡ true
    → sorted_fields fs ≡ true
    → sorted_fields (insert_field k v fs) ≡ true
unfolding sorted
insert_sorted k v end hv h = rw hv refl
insert_sorted k v (field k' v' fs) hv h = elim (Bool-cases (text_le k k')) [
  | inl e ↦ rw e (both_true (before k (field k' v' fs)) _ e (both_true (sorted v) _ hv h))
  | inr e ↦
      (let (first, rest) = and-true (before k' fs) (sorted v' && sorted_fields fs) h in
        let (here, more) = and-true (sorted v') (sorted_fields fs) rest in
        rw e (
          both_true (before k' (insert_field k v fs))
            (sorted v' && sorted_fields (insert_field k v fs))
            (insert_before k' k v fs first (text_total k k' e))
            (both_true (sorted v') (sorted_fields (insert_field k v fs)) here
              (insert_sorted k v fs hv more))))
]

mutual
  unfolding canonicalize sorted

  sorted-canonicalize_aux : (j : Json) {v : Json} → canonicalize j ≡ ok v → sorted v ≡ true
  sorted-canonicalize_aux null e = ap sorted (sym (ok_injective e))
  sorted-canonicalize_aux (bool b) e = ap sorted (sym (ok_injective e))
  sorted-canonicalize_aux (num n) e =
      let (_, e') = >>-eq-ok (guard (canonical_number n) invalid_command_shape) (ok (num n)) e in
      ap sorted (sym (ok_injective e'))
  sorted-canonicalize_aux (str s) e =
      let (_, e') = >>-eq-ok (assert_valid_unicode (utf16 s)) (ok (str s)) e in
      ap sorted (sym (ok_injective e'))
  sorted-canonicalize_aux (arr js) e =
      let (js', q, e') = >>=-eq-ok (canonicalize_items js) (λ js'. ok (arr js')) e in
      ap sorted (sym (ok_injective e')) ∙ sorted-canonicalize_items js q
  sorted-canonicalize_aux (obj fs) e =
      let (fs', q, e') = >>=-eq-ok (canonicalize_fields fs) (λ fs'. ok (obj fs')) e in
      ap sorted (sym (ok_injective e')) ∙ sorted-canonicalize_fields fs q

  sorted-canonicalize_items :
      (js : Items) {v : Items} → canonicalize_items js ≡ ok v → sorted_items v ≡ true
  sorted-canonicalize_items nil e = ap sorted_items (sym (ok_injective e))
  sorted-canonicalize_items (cons j js) e =
      let (j', p, e') =
        >>=-eq-ok (canonicalize j) (λ j'. canonicalize_items js >>= λ js'. ok (cons j' js')) e in
      let (js', q, e'') = >>=-eq-ok (canonicalize_items js) (λ js'. ok (cons j' js')) e' in
      ap sorted_items (sym (ok_injective e''))
      ∙ both_true (sorted j') (sorted_items js') (sorted-canonicalize_aux j p)
          (sorted-canonicalize_items js q)

  sorted-canonicalize_fields :
      (fs : Fields) {v : Fields} → canonicalize_fields fs ≡ ok v → sorted_fields v ≡ true
  sorted-canonicalize_fields end e = ap sorted_fields (sym (ok_injective e))
  sorted-canonicalize_fields (field k j fs) e =
      let rest = λ (j' : Json). canonicalize_fields fs >>= λ fs'. ok (insert_field k j' fs') in
      let (_, d) = >>-eq-ok (assert_valid_unicode (utf16 k)) (canonicalize j >>= rest) e in
      let (j', p, e') = >>=-eq-ok (canonicalize j) rest d in
      let (fs', q, e'') =
        >>=-eq-ok (canonicalize_fields fs) (λ fs'. ok (insert_field k j' fs')) e' in
      ap sorted_fields (sym (ok_injective e''))
      ∙ insert_sorted k j' fs' (sorted-canonicalize_aux j p) (sorted-canonicalize_fields fs q)

-- A canonical copy has the keys of every object in order.
pub sorted-canonicalize : (j : Json) {v : Json} → canonicalize j ≡ ok v → sorted v ≡ true
sorted-canonicalize j e = sorted-canonicalize_aux j e
