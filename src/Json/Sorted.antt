-- ===== src/Json/Sorted.antt =====
-- Canonical values: what `canonicalize` leaves as it is.
use samurai_sushi.Common.{
  ◌≡◌, refl, Bool, true, ◌&&◌, String, ok, ◌>>=◌, guard, >>=-eq-ok, >>-eq-ok, and-true,
  invalid_command_shape,
}
use samurai_sushi.Json.{Json, null, bool, num, str, arr, obj, Items, nil, cons, Fields, end, field}
use samurai_sushi.Json.Unicode.{utf16, assert_valid_unicode, text_le}
use samurai_sushi.Json.Canonical.{
  canonicalize, canonicalize_items, canonicalize_fields, insert_field, canonical_number,
}

abbrev pub before : String → Fields → Bool
before k end = true
before k (field k' v fs) = text_le k k'

-- The keys of every object stand in order.
unfoldable mutual
  pub sorted : Json → Bool
  sorted (arr js) = sorted_items js
  sorted (obj fs) = sorted_fields fs
  sorted null = true
  sorted (bool b) = true
  sorted (num n) = true
  sorted (str s) = true

  pub sorted_items : Items → Bool
  sorted_items nil = true
  sorted_items (cons j js) = sorted j && sorted_items js

  pub sorted_fields : Fields → Bool
  sorted_fields end = true
  sorted_fields (field k j fs) = before k fs && (sorted j && sorted_fields fs)

insert_field-before :
    (k : String) (v : Json) (fs : Fields) → before k fs ≡ true → insert_field k v fs ≡ field k v fs
insert_field-before k v end h = refl
insert_field-before k v (field k' v' fs) h = rw h

mutual
  unfolding canonicalize sorted

  canonicalize-sorted_aux : (j : Json) {v : Json} → sorted j ≡ true → canonicalize j ≡ ok v → v ≡ j
  canonicalize-sorted_aux null h e = cc
  canonicalize-sorted_aux (bool b) h e = cc
  canonicalize-sorted_aux (num n) h e =
      let (_, e') = >>-eq-ok (guard (canonical_number n) invalid_command_shape) (ok (num n)) e in cc
  canonicalize-sorted_aux (str s) h e =
      let (_, e') = >>-eq-ok (assert_valid_unicode (utf16 s)) (ok (str s)) e in cc
  canonicalize-sorted_aux (arr js) h e =
      let (js', q, e') = >>=-eq-ok (canonicalize_items js) (λ js'. ok (arr js')) e in
      let same = canonicalize_items-sorted js h q in cc
  canonicalize-sorted_aux (obj fs) h e =
      let (fs', q, e') = >>=-eq-ok (canonicalize_fields fs) (λ fs'. ok (obj fs')) e in
      let same = canonicalize_fields-sorted fs h q in cc

  canonicalize_items-sorted :
      (js : Items) {v : Items} → sorted_items js ≡ true → canonicalize_items js ≡ ok v → v ≡ js
  canonicalize_items-sorted nil h e = cc
  canonicalize_items-sorted (cons j js) h e =
      let (hj, hjs) = and-true (sorted j) (sorted_items js) h in
      let (j', p, e') =
        >>=-eq-ok (canonicalize j) (λ j'. canonicalize_items js >>= λ js'. ok (cons j' js')) e in
      let (js', q, e'') = >>=-eq-ok (canonicalize_items js) (λ js'. ok (cons j' js')) e' in
      let same_j = canonicalize-sorted_aux j hj p in
      let same_js = canonicalize_items-sorted js hjs q in cc

  canonicalize_fields-sorted :
      (fs : Fields) {v : Fields} → sorted_fields fs ≡ true → canonicalize_fields fs ≡ ok v → v ≡ fs
  canonicalize_fields-sorted end h e = cc
  canonicalize_fields-sorted (field k j fs) h e =
      let (hb, hr) = and-true (before k fs) (sorted j && sorted_fields fs) h in
      let (hj, hfs) = and-true (sorted j) (sorted_fields fs) hr in
      let rest = λ (j' : Json). canonicalize_fields fs >>= λ fs'. ok (insert_field k j' fs') in
      let (_, d) = >>-eq-ok (assert_valid_unicode (utf16 k)) (canonicalize j >>= rest) e in
      let (j', p, e') = >>=-eq-ok (canonicalize j) rest d in
      let (fs', q, e'') =
        >>=-eq-ok (canonicalize_fields fs) (λ fs'. ok (insert_field k j' fs')) e' in
      let same_j = canonicalize-sorted_aux j hj p in
      let same_fs = canonicalize_fields-sorted fs hfs q in
      let put = insert_field-before k j fs hb in cc

-- A value with sorted keys that is accepted is copied unchanged.
pub canonicalize-sorted : (j : Json) {v : Json} → sorted j ≡ true → canonicalize j ≡ ok v → v ≡ j
canonicalize-sorted j h e = canonicalize-sorted_aux j h e
