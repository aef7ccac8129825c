-- ===== src/Cache/Canonical/Order.antt =====
-- sort.Strings on the keys of a map: byte order, which for UTF-8 is the order of code points.
pub mod Laws
use Prim.Native.Char.{code}
use ajq.Prelude.{String, Bool, true, false, ◌&&◌, ◌||◌, List, [], ◌∷◌, ltb, ◌==◌, if◌then◌else◌}

-- s < t
unfoldable pub str_lt : String → String → Bool
str_lt String.[] String.[] = false
str_lt String.[] (String.◌∷◌ d t) = true
str_lt (String.◌∷◌ c s) String.[] = false
str_lt (String.◌∷◌ c s) (String.◌∷◌ d t) =
    let rest = str_lt s t in ltb (code c) (code d) || (code c == code d && rest)

module _ {ℓ} {A : Type ℓ} where
  unfoldable pub insert_by_key : String → A → List (String × A) → List (String × A)
  insert_by_key k a [] = (k, a) ∷ []
  insert_by_key k a ((j, b) ∷ l) =
      if str_lt j k then (j, b) ∷ insert_by_key k a l else (k, a) ∷ (j, b) ∷ l

  unfoldable pub sort_by_key : List (String × A) → List (String × A)
  sort_by_key [] = []
  sort_by_key ((k, a) ∷ l) = insert_by_key k a (sort_by_key l)
