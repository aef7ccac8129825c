-- ===== src/Input.antt =====
-- internal/input: frames, and the framers that need no JSON decoder. An int64 counter is a natural
-- number: inputs of 2^63 bytes are out of scope.
pub mod Raw
pub mod Window
use ajq.Prelude.{ℕ, Bool, true, false, String}
use ajq.Value.{Value, null, ℤ, pos, negsuc}

pub record Frame : Type 0 where
  pub index : ℕ
  pub value : Value
  pub offset : ℕ
  pub bytes : ℤ

-- What `Next` of a framer gives: a frame, io.EOF, or another error.
pub data Reply : Type 0 where
  got : Frame → Reply
  eof : Reply
  failed : String → Reply

-- `nullFramer`; its state is `done`.
unfoldable pub null_next : Bool → Reply × Bool
null_next true = (eof, true)
null_next false = (got (record { index = 0; value = null; offset = 0; bytes = pos 0 }), true)
