-- ===== src/Input/Raw.antt =====
-- `rawFramer` (internal/input/framer.go): one frame a line. The text of a line is a parameter: a
-- value made of its bytes.
pub mod Spans
use ajq.Prelude.{
  ℕ, ◌+◌, String, List, [], ◌∷◌, Option, none, some, Bytes, Bool, true, false, ◌==◌, if◌then◌else◌,
  length,
}
use ajq.Value.{Value, pos}
use ajq.Input.{Frame, Reply, got, eof, failed}

-- What the reader will give: a byte, or an error that is not io.EOF, behind which there may be more.
-- At the end of all of it is io.EOF.
pub data Read : Type 0 where
  byte : ℕ → Read
  broken : String → Read

pub record RawFramer : Type 0 where
  pub reader : List Read
  pub index : ℕ
  pub offset : ℕ

-- The bytes read, the error, and what is behind.
pub record Line : Type 0 where
  pub bytes : Bytes
  pub error : Option String
  pub behind : List Read

abbrev with_byte : ℕ → Line → Line
with_byte c l = record l { bytes = c ∷ l.bytes }

-- (*bufio.Reader).ReadBytes('\n'): the bytes up to the first newline, with it, or up to an error.
pub read_line : List Read → Line
read_line [] = record { bytes = []; error = none; behind = [] }
read_line (broken e ∷ rs) = record { bytes = []; error = some e; behind = rs }
read_line (byte c ∷ rs) =
    let rest = read_line rs in
    if c == b'\n' then record { bytes = c ∷ []; error = none; behind = rs } else with_byte c rest

-- bytes.TrimSuffix by one byte.
pub trim_suffix : ℕ → Bytes → Bytes
trim_suffix b [] = []
trim_suffix b (c ∷ []) = if c == b then [] else c ∷ []
trim_suffix b (c ∷ d ∷ cs) = c ∷ trim_suffix b (d ∷ cs)

module _ (text : Bytes → Value) where
  -- The line that was read, its error, and what is behind. An error loses the bytes before it and
  -- moves neither counter.
  raw_line : RawFramer → Bytes → Option String → List Read → Reply × RawFramer
  raw_line f line (some e) behind = (failed e, record f { reader = behind })
  raw_line f [] none behind = (eof, record f { reader = behind })
  raw_line f (c ∷ line) none behind = (
    got (record {
      index = f.index;
      value = text (trim_suffix b'\r' (trim_suffix b'\n' (c ∷ line)));
      offset = f.offset;
      bytes = pos (length (c ∷ line));
    }),
    record { reader = behind; index = f.index + 1; offset = f.offset + length (c ∷ line) },
  )

  -- `Next`; of an error, the message that names the line and the byte is left out.
  unfoldable pub raw_next : RawFramer → Reply × RawFramer
  unfolding raw_line read_line
  raw_next f = let line = read_line f.reader in raw_line f line.bytes line.error line.behind
