-- ===== src/Tests/Calls.antt =====
-- Interleaved runs and the disk store at concrete data.
use ajq.Prelude.{
  String, true, false, List, [], ◌∷◌, Option, none, some, ◌≡◌, ◌≢◌, refl, arith, Bytes, str_eq,
  str_eq_iff, ◌==◌, if◌then◌else◌,
}
use ajq.Value.{pos, str, bool}
use ajq.Cache.{get, set, find}
use ajq.Cache.Canonical.{write_canonical}
use ajq.Cache.Key.{key_for_judgement}
use ajq.Cache.Disk.{
  entry_of, parse_canonical_key, path_for, read_file, matches, Env, DiskEntry, DiskStore, Payload,
  disk_get, disk_set, disk_store,
}
use ajq.Cache.Disk.Collision.{ReadsBack, disk_get-disk_set_other}
use ajq.Cache.Disk.Restart.{IsWritten, fresh, set_restart_get}
use ajq.Engine.{check_max_calls}
use ajq.Engine.Callback.{yields}
use ajq.Schema.{for_judgement, build, validate}
use ajq.Engine.Resolve.{check_result, validate_result}
use ajq.Engine.Resolve.Budget.{Accounts}
use ajq.Engine.Interleaved.{Interleaved, resolve_one, Call, named, after_calls}
use ajq.Engine.Interleaved.Again.{resolve_one_again}
use ajq.Engine.Interleaved.Cap.{after_calls-Accounts}
use ajq.Tests.Fixtures.{not_true, entries, encoder, matching, agreeing, no_calls, yes}

abbrev one_call : Interleaved entries
one_call = record {
  model_id = "m";
  cache = record { results = []; backing = some [] };
  planned = [];
  stats = some no_calls;
  max_calls = pos 1;
  max_calls_default_paid = true;
  sent = [];
}

urgent_yields :
    (resolve_one entries encoder agreeing one_call (matching "urgent")).0 ≡ yields (bool true)
unfolding resolve_one key_for_judgement write_canonical get find check_max_calls check_result
    validate_result for_judgement build validate
urgent_yields = refl

resolve_one_again_example :
    ((resolve_one entries encoder agreeing
        (resolve_one entries encoder agreeing one_call (matching "urgent")).1
        (matching "urgent")).0
      ≡ yields (bool true))
    × ((resolve_one entries encoder agreeing
          (resolve_one entries encoder agreeing one_call (matching "urgent")).1
          (matching "urgent")).1.sent
        ≡ (resolve_one entries encoder agreeing one_call (matching "urgent")).1.sent)
resolve_one_again_example =
    resolve_one_again entries encoder agreeing one_call (matching "urgent") (bool true)
      urgent_yields

abbrev two_calls : List Call
two_calls =
    named "sem_match" (str "a") (str "urgent" ∷ [])
    ∷ named "sem_match" (str "a") (str "polite" ∷ [])
    ∷ []

after_calls-Accounts_example :
    Accounts 1 0 0
      (after_calls entries encoder agreeing one_call two_calls).stats
      (after_calls entries encoder agreeing one_call two_calls).sent
after_calls-Accounts_example =
    after_calls-Accounts entries encoder agreeing 1 (omega arith) two_calls one_call 0 refl refl
      (omega arith)

-- A codec of two entries.
abbrev urgent_payload : Payload
urgent_payload = record { op = "sem_match"; specs = "urgent" ∷ []; model_id = "m"; value = 7 ∷ [] }

abbrev payload_of : String → Option Payload
payload_of k =
    if str_eq k "urgent"
    then some urgent_payload
    else if str_eq k "polite"
    then some (record urgent_payload { specs = "polite" ∷ [] })
    else none

-- The entry as it is read back, with its values laid out anew.
abbrev urgent_entry : DiskEntry
urgent_entry = record (entry_of urgent_payload (32 ∷ 1 ∷ [])) { key_value = 32 ∷ 7 ∷ 10 ∷ [] }

-- Two keys in files of their own.
abbrev polite_entry : DiskEntry
polite_entry = entry_of (record urgent_payload { specs = "polite" ∷ [] }) (1 ∷ [])

abbrev entry_at : Bytes → Option DiskEntry
entry_at [] = none
entry_at (c ∷ bs) = if c == 5 then some urgent_entry else some polite_entry

-- What tells the two entries apart.
abbrev entry_byte : List String → Bytes
entry_byte [] = []
entry_byte (s ∷ specs) = if str_eq s "urgent" then 5 ∷ [] else 9 ∷ []

abbrev separate : Env
separate = record {
  decode_entry = entry_at;
  encode_entry = λ e. some (entry_byte e.specs);
  decode_payload = payload_of;
  decode_value = λ b. some (bool true);
  marshal_value = λ v. some (1 ∷ []);
  hash_key = λ k. k;
  join = λ root shard hash. hash;
  write_fails = λ path b. false;
}

abbrev no_files : DiskStore
no_files = record { root = "/cache"; files = [] }

separate_urgent : parse_canonical_key encoder separate "urgent" ≡ some urgent_payload
unfolding parse_canonical_key
separate_urgent = refl

urgent_IsWritten : IsWritten encoder separate no_files "urgent" yes (bool true)
urgent_IsWritten = record {
  payload = urgent_payload;
  parsed = separate_urgent;
  text = 1 ∷ [];
  marshalled = refl;
  filled = refl;
  unmarshalled = refl;
  encoded = 5 ∷ [];
  encodes = refl;
  read_back = urgent_entry;
  decodes = refl;
  laid_out = record {
    same_version = refl;
    same_key = refl;
    same_filled = refl;
    same_result = refl;
  };
  works = refl;
}

set_restart_get_example :
    (d : DiskStore) × ((set
        (disk_store encoder separate)
        (record { results = []; backing = some no_files })
        "urgent"
        yes).backing
      ≡ some d)
    × ((get (disk_store encoder separate) (fresh encoder separate d) "urgent").0
        ≡ some (record { value = bool true; error = "" }))
set_restart_get_example =
    set_restart_get encoder separate [] no_files "urgent" yes (bool true) refl urgent_IsWritten

abbrev polite_file : DiskStore
polite_file = record { root = "/cache"; files = ("polite", 9 ∷ []) ∷ [] }

different : ◌≢◌ {A = String} "urgent" "polite"
different same = not_true ((str_eq_iff "urgent" "polite").1 same)

polite_answered :
    disk_get encoder separate (disk_set encoder separate polite_file "urgent" yes) "polite"
    ≡ some yes
unfolding disk_get disk_set parse_canonical_key path_for read_file matches
polite_answered = refl

separate_codec :
    (p : Payload) (rv c : Bytes)
    → parse_canonical_key encoder separate "urgent" ≡ some p
    → some (1 ∷ []) ≡ some rv
    → some (entry_byte p.specs) ≡ some c
    → ReadsBack encoder separate p rv c
separate_codec p rv c parsed marshalled encoded =
    let same : urgent_payload ≡ p = cc (parsed, separate_urgent) in
    let text : 1 ∷ [] ≡ rv = cc marshalled in
    let file : 5 ∷ [] ≡ c = cc (rw (← same) at encoded) in
    rw (← same, ← text, ← file)
      (
        urgent_entry,
        refl,
        record { same_version = refl; same_key = refl; same_filled = refl; same_result = refl },
      )

disk_get-disk_set_other_example : disk_get encoder separate polite_file "polite" ≡ some yes
disk_get-disk_set_other_example =
    disk_get-disk_set_other encoder separate polite_file "urgent" "polite" yes yes different
      separate_codec polite_answered
