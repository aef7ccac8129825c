-- ===== src/Cache/Number.antt =====
-- `normalizeJSONNumber` and `allDigits`, with the big.Int and strconv functions that they and
-- `writeCanonical` use, on bytes.
use mathlib.Core.List.{reverse}
use ajq.Prelude.{
  ℕ, zero, suc, ◌+◌, ◌-◌, ◌*◌, ◌/◌, ◌%◌, Bool, true, false, ◌&&◌, ◌||◌, not, [], ◌∷◌, ◌++◌, Option,
  none, some, Bytes, leb, ◌==◌, if◌then◌else◌, length,
}
use ajq.Value.{ℤ, pos, negsuc, sub_ℕ}

abbrev pub is_digit : ℕ → Bool
is_digit c = leb b'0' c && leb c b'9'

pub all_of_digits : Bytes → Bool
all_of_digits [] = true
all_of_digits (c ∷ cs) = is_digit c && all_of_digits cs

-- `allDigits`
unfoldable pub all_digits : Bytes → Bool
unfolding all_of_digits
all_digits [] = false
all_digits (c ∷ cs) = all_of_digits (c ∷ cs)

-- The bytes before the first byte that passes, and those behind it if there is one.
pub cut : (ℕ → Bool) → Bytes → Bytes × Option Bytes
cut p [] = ([], none)
cut p (c ∷ cs) =
    let (before, behind) = cut p cs in if p c then ([], some cs) else (c ∷ before, behind)

abbrev pub is_exponent_mark : ℕ → Bool
is_exponent_mark c = c == b'e' || c == b'E'

abbrev pub is_point : ℕ → Bool
is_point c = c == b'.'

-- strconv.FormatUint, base ten, on fuel: `n + 1` rounds are more than there are digits.
digits : ℕ → ℕ → Bytes → Bytes
digits zero n out = out
digits (suc f) n out =
    let d = b'0' + n % 10 in
    let rest = digits f (n / 10) (d ∷ out) in if leb n 9 then d ∷ out else rest

unfoldable pub format_ℕ : ℕ → Bytes
unfolding digits
format_ℕ n = digits (suc n) n []

-- strconv.FormatInt and (*big.Int).String
unfoldable pub format_ℤ : ℤ → Bytes
unfolding format_ℕ
format_ℤ (pos n) = format_ℕ n
format_ℤ (negsuc n) = b'-' ∷ format_ℕ (suc n)

pub to_ℕ : ℕ → Bytes → ℕ
to_ℕ acc [] = acc
to_ℕ acc (c ∷ cs) = to_ℕ (acc * 10 + (c - b'0')) cs

abbrev negate : ℕ → ℤ
negate zero = pos 0
negate (suc n) = negsuc n

-- (*big.Int).SetString(s, 10): an optional sign and one or more digits.
unfoldable pub set_string : Bytes → Option ℤ
unfolding all_digits to_ℕ
set_string [] = none
set_string (c ∷ cs) =
    if c == b'-'
    then (if all_digits cs then some (negate (to_ℕ 0 cs)) else none)
    else if c == b'+'
    then (if all_digits cs then some (pos (to_ℕ 0 cs)) else none)
    else if all_digits (c ∷ cs)
    then some (pos (to_ℕ 0 (c ∷ cs)))
    else none

-- strings.TrimLeft(s, "0")
pub trim_left_zeros : Bytes → Bytes
trim_left_zeros [] = []
trim_left_zeros (c ∷ cs) = if c == b'0' then trim_left_zeros cs else c ∷ cs

-- The loop that strips final zeros and counts them, on the digits read backwards.
pub strip_zeros : Bytes → ℕ → Bytes × ℕ
strip_zeros [] n = ([], n)
strip_zeros (c ∷ cs) n = if c == b'0' then strip_zeros cs (n + 1) else (c ∷ cs, n)

-- exponent - fraction digits + stripped zeros
pub shift_exponent : ℤ → ℕ → ℕ → ℤ
shift_exponent (pos n) minus plus = sub_ℕ (n + plus) minus
shift_exponent (negsuc n) minus plus = sub_ℕ plus (suc n + minus)

-- The part behind the split into sign, digits and exponent.
render : Bytes → Bytes → ℤ → ℕ → Bytes
render sign [] exponent fraction = b'0' ∷ []
render sign (d ∷ ds) exponent fraction =
    let (kept, zeros) = strip_zeros (reverse (d ∷ ds)) 0 in
    let decimal_exp = shift_exponent exponent fraction zeros in
    elim decimal_exp [
      | pos n ↦
          if n == 0 then sign ++ reverse kept else sign ++ (reverse kept ++ (b'e' ∷ format_ℕ n))
      | negsuc n ↦ sign ++ (reverse kept ++ (b'e' ∷ (b'-' ∷ format_ℕ (suc n))))
    ]

abbrev fraction_of : Option Bytes → Bytes
fraction_of none = []
fraction_of (some f) = f

-- `none` stands for "invalid json number".
mantissa : Bytes → Bytes × Option Bytes → ℤ → Option Bytes
mantissa sign (whole, rest) exponent =
    let fraction = fraction_of rest in
    if not (all_digits whole) || (not (length fraction == 0) && not (all_digits fraction))
    then none
    else some (render sign (trim_left_zeros (whole ++ fraction)) exponent (length fraction))

scale : Bytes → Bytes × Option Bytes → Option Bytes
scale sign (text, none) = mantissa sign (cut is_point text) (pos 0)
scale sign (text, some digits) = elim (set_string digits) [
  | none ↦ none
  | some e ↦ mantissa sign (cut is_point text) e
]

unfoldable pub normalize_json_number : Bytes → Option Bytes
unfolding cut scale mantissa render strip_zeros trim_left_zeros shift_exponent format_ℕ all_digits
normalize_json_number [] = none
normalize_json_number (c ∷ cs) =
    if c == b'-'
    then scale (b'-' ∷ []) (cut is_exponent_mark cs)
    else if c == b'+'
    then none
    else scale [] (cut is_exponent_mark (c ∷ cs))
