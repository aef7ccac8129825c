-- ===== src/Input/Raw/Spans.antt =====
-- The lines of the raw framer.
use ajq.Prelude.{
  ℕ, ◌+◌, String, List, [], ◌∷◌, ◌++◌, Option, none, some, Bytes, false, ◌==◌, ==_iff, length, ◌≡◌,
  ◌≢◌, ◌⊎◌, inl, inr, refl, sym, ap, ◌∙◌, arith, All, Bool-cases,
}
use ajq.Value.{Value, pos}
use ajq.Input.{Reply, got, eof, failed}
use ajq.Input.Raw.{Read, byte, broken, RawFramer, read_line, trim_suffix, raw_line, raw_next}

abbrev pub bytes_read : Bytes → List Read
bytes_read [] = []
bytes_read (c ∷ cs) = byte c ∷ bytes_read cs

-- A line, with what is behind it: a newline ends it and stands nowhere else in it, or the input
-- ends with it.
abbrev pub IsLine : Bytes → List Read → Type 0
IsLine [] behind = ⊥
IsLine (c ∷ []) behind = (c ≡ b'\n') ⊎ ((c ≢ b'\n') × (behind ≡ []))
IsLine (c ∷ d ∷ cs) behind = (c ≢ b'\n') × IsLine (d ∷ cs) behind

-- What one call makes of the framer.
abbrev pub Spans : (Bytes → Value) → RawFramer → Reply × RawFramer → Type 0
Spans text f (eof, f') = (f.reader ≡ []) × (f' ≡ f)
Spans text f (failed e, f') =
    (line : Bytes) × (f.reader ≡ bytes_read line ++ (broken e ∷ f'.reader))
    × All (λ c. c ≢ b'\n') line
    × (f'.offset ≡ f.offset)
    × (f'.index ≡ f.index)
Spans text f (got fr, f') =
    (line : Bytes) × (f.reader ≡ bytes_read line ++ f'.reader)
    × IsLine line f'.reader
    × (fr.value ≡ text (trim_suffix b'\r' (trim_suffix b'\n' line)))
    × (fr.offset ≡ f.offset)
    × (fr.bytes ≡ pos (length line))
    × (f'.offset ≡ f.offset + length line)
    × (fr.index ≡ f.index)
    × (f'.index ≡ f.index + 1)

differs : {a b : ℕ} → (a == b) ≡ false → a ≢ b
differs e = ground arith

longer-IsLine :
    (c : ℕ) (line : Bytes) (behind : List Read)
    → c ≢ b'\n'
    → IsLine line behind
    → IsLine (c ∷ line) behind
longer-IsLine c [] behind not_nl is_line = elim is_line [ ]
longer-IsLine c (d ∷ line) behind not_nl is_line = (not_nl, is_line)

-- What is read off some input.
abbrev Splits : List Read → Bytes → Option String → List Read → Type 0
Splits rs line (some e) behind =
    (rs ≡ bytes_read line ++ (broken e ∷ behind)) × All (λ c. c ≢ b'\n') line
Splits rs [] none behind = (rs ≡ []) × (behind ≡ [])
Splits rs (c ∷ line) none behind = (rs ≡ bytes_read (c ∷ line) ++ behind) × IsLine (c ∷ line) behind

longer-Splits :
    (c : ℕ) (rs : List Read) (line : Bytes) (o : Option String) (behind : List Read)
    → c ≢ b'\n'
    → Splits rs line o behind
    → Splits (byte c ∷ rs) (c ∷ line) o behind
longer-Splits c rs line (some e) behind not_nl (same, plain) =
    (ap (λ l. byte c ∷ l) same, (not_nl, plain))
longer-Splits c rs [] none behind not_nl (same, ends) = (rw (same, ends) refl, inr (not_nl, ends))
longer-Splits c rs (d ∷ line) none behind not_nl (same, is_line) =
    (ap (λ l. byte c ∷ l) same, longer-IsLine c (d ∷ line) behind not_nl is_line)

read_line-Splits :
    (rs : List Read) → Splits rs (read_line rs).bytes (read_line rs).error (read_line rs).behind
unfolding read_line
read_line-Splits [] = (refl, refl)
read_line-Splits (broken e ∷ rs) = (refl, tt)
read_line-Splits (byte c ∷ rs) = elim (Bool-cases (c == b'\n')) [
  | inl nl ↦ rw nl (refl, inl ((==_iff c b'\n').0 nl))
  | inr other ↦ rw other (longer-Splits c rs _ _ _ (differs other) (read_line-Splits rs))
]

module _ (text : Bytes → Value) where
  raw_line-Spans :
      (f : RawFramer) (line : Bytes) (o : Option String) (behind : List Read)
      → Splits f.reader line o behind
      → Spans text f (raw_line text f line o behind)
  unfolding raw_line
  raw_line-Spans f line (some e) behind (same, plain) = (line, same, plain, refl, refl)
  raw_line-Spans f [] none behind (same, ends) =
      (same, ap (λ r. record f { reader = r }) (ends ∙ sym same))
  raw_line-Spans f (c ∷ line) none behind (same, is_line) =
      (c ∷ line, same, is_line, refl, refl, refl, refl, refl, refl)

  -- A call that gives a frame takes one line off the front of the input, with its newline if it has
  -- one: the frame has the text of that line without its line ending, starts at the framer's offset,
  -- counts every byte of the line, and has the framer's index, and the next frame starts behind it.
  -- The end is reported where nothing is left to read, and only there. A call that fails does so with
  -- the reader's error, which comes before any newline; it moves neither the index nor the offset,
  -- and the bytes that were read before the error are lost.
  pub raw_next-Spans : (f : RawFramer) → Spans text f (raw_next text f)
  unfolding raw_next
  raw_next-Spans f =
      raw_line-Spans f (read_line f.reader).bytes (read_line f.reader).error
        (read_line f.reader).behind (read_line-Splits f.reader)
