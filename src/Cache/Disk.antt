-- ===== src/Cache/Disk.antt =====
-- internal/cache/disk.go: `diskStore`. A file system is a list of files, the first entry of a path
-- counting; its directories, temporary files and the entries' time of creation are left out. `Status`
-- and `Clear`, which walk and remove the directory, are not modelled.
pub mod Collision
pub mod Layout
pub mod Restart
use ajq.Prelude.{
  ℕ, String, Bool, true, false, not, ◌||◌, List, [], ◌∷◌, Option, none, some, Bytes, str_eq, ◌==◌,
  if◌then◌else◌, length,
}
use ajq.Value.{Value}
use ajq.Backend.{Answer}
use ajq.Cache.{DiskOps}
use ajq.Cache.Canonical.{Json}

abbrev pub disk_cache_version : ℕ
disk_cache_version = 1

-- `canonicalKeyPayload`
pub record Payload : Type 0 where
  pub op : String
  pub specs : List String
  pub model_id : String
  pub value : Bytes

-- `diskEntry`
pub record DiskEntry : Type 0 where
  pub version : ℕ
  pub op : String
  pub specs : List String
  pub model_id : String
  pub key_value : Bytes
  pub result_value : Bytes

-- encoding/json, SHA-256 and file names as far as the store needs them. `none` is an error; a
-- decoder of a whole text also fails on data behind the value. `write_fails` says whether the
-- directory, the temporary file or the renaming fails.
pub record Env : Type 0 where
  pub decode_entry : Bytes → Option DiskEntry
  pub encode_entry : DiskEntry → Option Bytes
  pub decode_payload : String → Option Payload
  pub decode_value : Bytes → Option Value
  pub marshal_value : Value → Option Bytes
  pub hash_key : String → String
  pub join : String → String → String → String
  pub write_fails : String → Bytes → Bool

-- `root`, and what is below it.
pub record DiskStore : Type 0 where
  pub root : String
  pub files : List (String × Bytes)

-- os.ReadFile
unfoldable pub read_file : String → List (String × Bytes) → Option Bytes
read_file p [] = none
read_file p ((q, b) ∷ fs) = if str_eq q p then some b else read_file p fs

-- hash[:2]
shard : String → String
shard (String.◌∷◌ a (String.◌∷◌ b s)) = String.◌∷◌ a (String.◌∷◌ b String.[])
shard s = s

abbrev pub equals : String → Option String → Bool
equals key none = false
equals key (some encoded) = str_eq encoded key

abbrev pub answer_of : Option Value → Option Answer
answer_of none = none
answer_of (some v) = some (record { value = v; error = "" })

abbrev pub entry_of : Payload → Bytes → DiskEntry
entry_of p result_value = record {
  version = disk_cache_version;
  op = p.op;
  specs = p.specs;
  model_id = p.model_id;
  key_value = p.value;
  result_value = result_value;
}

module _ (json : Json) (env : Env) where
  unfoldable pub path_for : DiskStore → String → String
  unfolding shard
  path_for d key = let hash = env.hash_key key in env.join d.root (shard hash) hash

  unfoldable pub matches : DiskEntry → String → Bool
  matches e key = equals key (json.marshal_parts e.op e.specs e.model_id e.key_value)

  abbrev pub is_whole : Payload → String → Bool
  is_whole p key =
      if str_eq p.op "" || str_eq p.model_id "" || length p.value == 0
      then false
      else equals key (json.marshal_parts p.op p.specs p.model_id p.value)

  abbrev checked_payload : String → Option Payload → Option Payload
  checked_payload key none = none
  checked_payload key (some p) = if is_whole p key then some p else none

  unfoldable pub parse_canonical_key : String → Option Payload
  parse_canonical_key key = checked_payload key (env.decode_payload key)

  pub accept : String → DiskEntry → Option Answer
  accept key e =
      if not (e.version == disk_cache_version) || length e.result_value == 0
      then none
      else if not (matches e key)
      then none
      else answer_of (env.decode_value e.result_value)

  pub accept_decoded : String → Option DiskEntry → Option Answer
  accept_decoded key none = none
  accept_decoded key (some e) = accept key e

  pub decode_file : String → Option Bytes → Option Answer
  decode_file key none = none
  decode_file key (some bytes) = accept_decoded key (env.decode_entry bytes)

  unfoldable pub disk_get : DiskStore → String → Option Answer
  unfolding decode_file accept_decoded accept
  disk_get d key = decode_file key (read_file (path_for d key) d.files)

  -- Creating, writing and renaming the temporary file.
  pub write : DiskStore → String → Option Bytes → DiskStore
  write d path none = d
  write d path (some encoded) =
      if env.write_fails path encoded then d else record d { files = (path, encoded) ∷ d.files }

  pub write_entry : DiskStore → String → Payload → Option Bytes → DiskStore
  write_entry d key p none = d
  write_entry d key p (some result_value) =
      write d (path_for d key) (env.encode_entry (entry_of p result_value))

  pub set_payload : DiskStore → String → Answer → Option Payload → DiskStore
  set_payload d key r none = d
  set_payload d key r (some p) = write_entry d key p (env.marshal_value r.value)

  unfoldable pub disk_set : DiskStore → String → Answer → DiskStore
  unfolding write write_entry set_payload
  disk_set d key r = set_payload d key r (parse_canonical_key key)

  -- What the memory store is given.
  abbrev pub disk_store : DiskOps
  disk_store = record { D = DiskStore; get = disk_get; set = disk_set }
