-- ===== src/Json/Canonical.antt =====
-- packages/domain/src/canonical-json.ts: a value is copied with the keys of its objects sorted, and
-- what has no canonical text is refused.
use samurai_sushi.Common.{
  ℕ, suc, Bool, true, false, String, Result, ok, ◌>>=◌, ◌>>◌, guard, leb, if◌then◌else◌,
  invalid_command_shape,
}
use samurai_sushi.Json.{
  JsNumber, nat, neg, neg_zero, fraction, infinite, Json, null, bool, num, str, arr, obj, Items,
  nil, cons, Fields, end, field,
}
use samurai_sushi.Json.Unicode.{utf16, assert_valid_unicode, text_le}

-- `Number.MAX_SAFE_INTEGER`.
abbrev pub max_safe_integer : ℕ
max_safe_integer = 9007199254740991

abbrev pub canonical_number : JsNumber → Bool
canonical_number (nat n) = leb n max_safe_integer
canonical_number (neg n) = leb (suc n) max_safe_integer
canonical_number neg_zero = false
canonical_number (fraction s) = true
canonical_number infinite = false

-- `Object.keys(…).sort()`, one key at a time.
abbrev pub insert_field : String → Json → Fields → Fields
insert_field k v end = field k v end
insert_field k v (field k' v' fs) =
    if text_le k k' then field k v (field k' v' fs) else field k' v' (insert_field k v fs)

unfoldable mutual
  pub canonicalize : Json → Result Json
  canonicalize null = ok null
  canonicalize (bool b) = ok (bool b)
  canonicalize (str s) = assert_valid_unicode (utf16 s) >> ok (str s)
  canonicalize (num n) = guard (canonical_number n) invalid_command_shape >> ok (num n)
  canonicalize (arr js) = canonicalize_items js >>= λ js'. ok (arr js')
  canonicalize (obj fs) = canonicalize_fields fs >>= λ fs'. ok (obj fs')

  pub canonicalize_items : Items → Result Items
  canonicalize_items nil = ok nil
  canonicalize_items (cons j js) =
      canonicalize j >>= λ j'. canonicalize_items js >>= λ js'. ok (cons j' js')

  pub canonicalize_fields : Fields → Result Fields
  canonicalize_fields end = ok end
  canonicalize_fields (field k j fs) =
      assert_valid_unicode (utf16 k)
      >> (canonicalize j >>= λ j'. canonicalize_fields fs >>= λ fs'. ok (insert_field k j' fs'))
