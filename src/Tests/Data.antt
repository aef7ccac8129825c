-- ===== src/Tests/Data.antt =====
-- The cache, the output contracts and the input windows at concrete data.
use ajq.Prelude.{
  ℕ, String, false, str_eq_iff, ◌≢◌, [], ◌∷◌, ◌++◌, Option, none, some, ◌≡◌, ◌⊎◌, ◌↔◌, refl, Bytes,
}
use ajq.Result.{ok, err}
use ajq.Value.{Value, null, obj, field, end, str, pos}
use ajq.Semantics
use ajq.Schema.{Constraint, SchemaError, build, validate}
use ajq.Schema.Sound.{made, IsContract, Conforms, build_cases, validate_iff}
use ajq.Cache.{Store, get, set}
use ajq.Cache.Laws.{get-get, get-set_self}
use ajq.Cache.Canonical.{write_canonical}
use ajq.Cache.Canonical.MapOrder.{swap, write_canonical_reordered}
use ajq.Input.{Frame, failed}
use ajq.Input.Raw.{byte, broken, RawFramer, raw_next}
use ajq.Input.Raw.Spans.{bytes_read, Spans, raw_next-Spans}
use ajq.Input.Window.{Iterator, frame, fault, next, next_frame, new_window_iterator, window}
use ajq.Input.Window.Stream.{Good, stream, next_accounts}
use ajq.Input.Window.Bounds.{Kept, next_bounded}
use ajq.Tests.Fixtures.{entries, encoder, yes, not_true}

-- A store whose disk store knows a key.
abbrev warm : Store entries
warm = record { results = []; backing = some (("urgent", yes) ∷ []) }

get-get_example :
    (get entries (get entries warm "urgent").1 "polite").0 ≡ (get entries warm "polite").0
get-get_example = get-get entries warm "urgent" "polite"

get-set_self_example : (get entries (set entries warm "polite" yes) "polite").0 ≡ some yes
get-set_self_example = get-set_self entries warm "polite" yes

abbrev spam_or_ham : Constraint
spam_or_ham = record { op = "sem_classify"; type_of = Semantics.string; enum = "spam" ∷ "ham" ∷ [] }

validate_iff_example :
    (validate spam_or_ham (str "ham") ≡ none)
    ↔ Conforms Semantics.string ("spam" ∷ "ham" ∷ []) (str "ham")
validate_iff_example = validate_iff spam_or_ham (str "ham")

build_cases_example :
    ((build "sem_classify" Semantics.string ("spam" ∷ "spam" ∷ [])
        ≡ made "sem_classify" Semantics.string ("spam" ∷ "spam" ∷ []))
      × IsContract "sem_classify" Semantics.string ("spam" ∷ "spam" ∷ []))
    ⊎ (((e : SchemaError) × (build "sem_classify" Semantics.string ("spam" ∷ "spam" ∷ []) ≡ err e))
        × ¬ IsContract "sem_classify" Semantics.string ("spam" ∷ "spam" ∷ []))
build_cases_example = build_cases "sem_classify" Semantics.string ("spam" ∷ "spam" ∷ [])

abbrev text_frame : ℕ → ℕ → Frame
text_frame i n = record { index = i; value = str "x"; offset = 0; bytes = pos n }

-- Three frames that do not fit one window, and an error behind them.
abbrev small_windows : Iterator
small_windows = record {
  framer =
      frame (text_frame 0 3) ∷ frame (text_frame 1 4) ∷ frame (text_frame 2 9) ∷ fault "bad" ∷ [];
  polls = [];
  budget = 6;
  pending = none;
  deferred = none;
  done = false;
}

new_window_iterator_run : new_window_iterator small_windows.framer [] (pos 6) ≡ ok small_windows
unfolding new_window_iterator
new_window_iterator_run = refl

abbrev counting : Frame → ℕ → Option String × ℕ
counting f n = (none, n)

-- The first frame alone, since the second does not fit beside it.
first_window :
    (next counting small_windows 0).0
    ≡ window (record { frames = text_frame 0 3 ∷ []; bytes = 3; oversized = false })
unfolding next next_frame
first_window = refl

next_accounts_example : Good (stream small_windows) (next counting small_windows 0)
next_accounts_example = next_accounts counting small_windows 0 (tt, tt)

next_bounded_example : Kept 6 (next counting small_windows 0)
next_bounded_example = next_bounded counting small_windows 0

abbrev two_lines : RawFramer
two_lines = record {
  reader = bytes_read (b'a' ∷ b'\r' ∷ b'\n' ∷ b'b' ∷ []) ++ (broken "timeout" ∷ byte b'c' ∷ []);
  index = 0;
  offset = 0;
}

abbrev opaque_text : Bytes → Value
opaque_text bytes = str "text"

raw_next-Spans_example : Spans opaque_text two_lines (raw_next opaque_text two_lines)
raw_next-Spans_example = raw_next-Spans opaque_text two_lines

-- The error behind the first line loses what was read of the second.
unread_byte :
    ((raw_next opaque_text (raw_next opaque_text two_lines).1).0 ≡ failed "timeout")
    × ((raw_next opaque_text (raw_next opaque_text two_lines).1).1.reader ≡ byte b'c' ∷ [])
unfolding raw_next
unread_byte = (refl, refl)

b-ne-a : ◌≢◌ {A = String} "b" "a"
b-ne-a same = not_true ((str_eq_iff "b" "a").1 same)

-- A map walked in two orders.
write_canonical_reordered_example :
    write_canonical encoder (obj (field "b" null (field "a" null end)))
    ≡ write_canonical encoder (obj (field "a" null (field "b" null end)))
write_canonical_reordered_example =
    write_canonical_reordered encoder (field "b" null (field "a" null end))
      (field "a" null (field "b" null end)) (swap "b" "a" null null end b-ne-a)
