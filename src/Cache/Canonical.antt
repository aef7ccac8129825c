-- ===== src/Cache/Canonical.antt =====
-- `CanonicalValue`: deterministic JSON for cache keys.
pub mod Order
pub mod MapOrder
use ajq.Prelude.{
  ℕ, zero, suc, ◌+◌, ◌%◌, ◌/◌, ◌^◌, String, Bool, true, false, List, [], ◌∷◌, ◌++◌, Option, none,
  some, Bytes, ◌==◌, if◌then◌else◌,
}
use ajq.Result.{Result, ok, err, ◌>>=◌}
use ajq.Value.{
  Value, null, bool, str, integer, float32, float64, number, big, arr, obj, other, Items, nil, cons,
  Fields, end, field, ℤ,
}
use ajq.Cache.Number.{format_ℤ, normalize_json_number}
use ajq.Cache.Canonical.Order.{insert_by_key, sort_by_key}

-- encoding/json and strconv, as far as keys need them; `none` is an error.
pub record Json : Type 0 where
  pub marshal_string : String → Option Bytes
  pub format_float32 : ℕ → Bytes
  pub format_float64 : ℕ → Bytes
  pub marshal_parts : String → List String → String → Bytes → Option String

pub data KeyError : Type 0 where
  encode_failed non_finite invalid_number unsupported_type : KeyError

abbrev or_fail : KeyError → Option Bytes → Result KeyError Bytes
or_fail e none = err e
or_fail e (some b) = ok b

abbrev ascii_null : Bytes
ascii_null = b'n' ∷ b'u' ∷ b'l' ∷ b'l' ∷ []

abbrev ascii_true : Bytes
ascii_true = b't' ∷ b'r' ∷ b'u' ∷ b'e' ∷ []

abbrev ascii_false : Bytes
ascii_false = b'f' ∷ b'a' ∷ b'l' ∷ b's' ∷ b'e' ∷ []

-- `writeFloat`: the exponent field is all ones for an infinity or a NaN, and the pattern without
-- its sign is 0 for a zero.
write_float : ℕ → ℕ → (ℕ → Bytes) → ℕ → Result KeyError Bytes
write_float exponent_bits fraction_bits format bits =
    if bits / 2 ^ fraction_bits % 2 ^ exponent_bits + 1 == 2 ^ exponent_bits
    then err non_finite
    else if bits % 2 ^ (exponent_bits + fraction_bits) == 0
    then ok (b'0' ∷ [])
    else ok (format bits)

abbrev write_big : Option ℤ → Bytes
write_big none = ascii_null
write_big (some n) = format_ℤ n

module _ (json : Json) where
  -- The loop over the sorted keys, behind the first entry.
  write_rest : List (String × Result KeyError Bytes) → Result KeyError Bytes
  write_rest [] = ok (b'}' ∷ [])
  write_rest ((k, v) ∷ es) = do
    key ← or_fail encode_failed (json.marshal_string k)
    text ← v
    rest ← write_rest es
    ok (b',' ∷ (key ++ (b':' ∷ (text ++ rest))))

  unfoldable pub write_entries : List (String × Result KeyError Bytes) → Result KeyError Bytes
  unfolding write_rest
  write_entries [] = ok (b'{' ∷ b'}' ∷ [])
  write_entries ((k, v) ∷ es) = do
    key ← or_fail encode_failed (json.marshal_string k)
    text ← v
    rest ← write_rest es
    ok (b'{' ∷ (key ++ (b':' ∷ (text ++ rest))))

  -- The values of an object are rendered in map order; an error in one counts when the loop over
  -- the sorted keys comes to it.
  unfoldable mutual
    unfolding write_float

    pub write_canonical : Value → Result KeyError Bytes
    write_canonical null = ok ascii_null
    write_canonical (bool true) = ok ascii_true
    write_canonical (bool false) = ok ascii_false
    write_canonical (str s) = or_fail encode_failed (json.marshal_string s)
    write_canonical (integer k n) = ok (format_ℤ n)
    write_canonical (float32 b) = write_float 8 23 json.format_float32 b
    write_canonical (float64 b) = write_float 11 52 json.format_float64 b
    write_canonical (number t) = or_fail invalid_number (normalize_json_number t)
    write_canonical (big n) = ok (write_big n)
    write_canonical (arr xs) = do body ← write_items xs; ok (b'[' ∷ body)
    write_canonical (obj fs) = write_entries (sort_by_key (write_fields fs))
    write_canonical other = err unsupported_type

    write_items : Items → Result KeyError Bytes
    write_items nil = ok (b']' ∷ [])
    write_items (cons x xs) = do first ← write_canonical x; rest ← write_more xs; ok (first ++ rest)

    write_more : Items → Result KeyError Bytes
    write_more nil = ok (b']' ∷ [])
    write_more (cons x xs) = do
      next ← write_canonical x
      rest ← write_more xs
      ok (b',' ∷ (next ++ rest))

    pub write_fields : Fields → List (String × Result KeyError Bytes)
    write_fields end = []
    write_fields (field k v fs) = (k, write_canonical v) ∷ write_fields fs
