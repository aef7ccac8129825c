-- ===== src/Cache/Disk/Restart.antt =====
-- What one process has stored, another one finds.
use ajq.Prelude.{String, false, List, [], some, Bytes, ◌≡◌, str_eq_iff, str_eq_refl, ◌==◌, length}
use ajq.Value.{Value}
use ajq.Backend.{Answer}
use ajq.Cache.{Store, get, set, ask_disk, from_disk, find, persist}
use ajq.Cache.Canonical.{Json}
use ajq.Cache.Disk.Layout.{IsLaidOut, accept-IsLaidOut}
use ajq.Cache.Disk.{
  Env, Payload, DiskEntry, DiskStore, read_file, path_for, matches, parse_canonical_key, accept,
  accept_decoded, decode_file, disk_get, entry_of, write, write_entry, set_payload, disk_set,
  disk_store,
}
use ajq.Cache.Disk.Collision.{parse_canonical_key-marshals}

module _ (json : Json) (env : Env) where
  -- A store with no memory in front of a disk store.
  abbrev pub fresh : DiskStore → Store (disk_store json env)
  fresh d = record { results = []; backing = some d }

  -- The entry of a key is written and read back, up to its layout, and its result is read as `v`.
  pub record IsWritten (d : DiskStore) (k : String) (r : Answer) (v : Value) : Type 0 where
    pub payload : Payload
    pub parsed : parse_canonical_key json env k ≡ some payload
    pub text : Bytes
    pub marshalled : env.marshal_value r.value ≡ some text
    pub filled : (length text == 0) ≡ false
    pub unmarshalled : env.decode_value text ≡ some v
    pub encoded : Bytes
    pub encodes : env.encode_entry (entry_of payload text) ≡ some encoded
    pub read_back : DiskEntry
    pub decodes : env.decode_entry encoded ≡ some read_back
    pub laid_out : IsLaidOut json env (entry_of payload text) read_back
    pub works : env.write_fails (path_for json env d k) encoded ≡ false

  accept_own :
      (k : String) (p : Payload) (text : Bytes) (v : Value)
      → json.marshal_parts p.op p.specs p.model_id p.value ≡ some k
      → (length text == 0) ≡ false
      → env.decode_value text ≡ some v
      → accept json env k (entry_of p text) ≡ some (record { value = v; error = "" })
  unfolding accept matches
  accept_own k p text v same filled unmarshalled = rw (filled, same, str_eq_refl k, unmarshalled)

  written_reads :
      (k : String) (d : DiskStore) (b : Bytes)
      → env.write_fails (path_for json env d k) b ≡ false
      → disk_get json env (write json env d (path_for json env d k) (some b)) k
        ≡ accept_decoded json env k (env.decode_entry b)
  unfolding write disk_get read_file decode_file path_for
  written_reads k d b works = rw (works, str_eq_refl (path_for json env d k))

  disk_get-disk_set :
      (d : DiskStore) (k : String) (r : Answer) (v : Value)
      → IsWritten d k r v
      → disk_get json env (disk_set json env d k r) k ≡ some (record { value = v; error = "" })
  unfolding disk_set set_payload write_entry accept_decoded
  disk_get-disk_set d k r v w =
      rw
        (
          w.parsed,
          w.marshalled,
          w.encodes,
          written_reads k d w.encoded w.works,
          w.decodes,
          accept-IsLaidOut json env k (entry_of w.payload w.text) w.read_back w.laid_out,
        )
        (accept_own k w.payload w.text v
          (parse_canonical_key-marshals json env k w.payload w.parsed) w.filled w.unmarshalled)

  fresh_get :
      (d : DiskStore) (k : String) (r : Answer)
      → disk_get json env d k ≡ some r
      → (get (disk_store json env) (fresh d) k).0 ≡ some r
  unfolding get ask_disk from_disk find
  fresh_get d k r h = rw h

  set_backing :
      (m : List (String × Answer)) (d : DiskStore) (k : String) (r : Answer)
      → r.error ≡ ""
      → (set (disk_store json env) (record { results = m; backing = some d }) k r).backing
        ≡ some (disk_set json env d k r)
  unfolding set persist
  set_backing m d k r blank = rw ((str_eq_iff r.error "").1 blank)

  -- A result without an error that a persistent store sets is answered, as its encoding reads back,
  -- by a store that starts with an empty memory on the disk store left behind. The conditions are
  -- that the key is canonical, that the result is encoded to a text that is not empty and is decoded,
  -- that its entry is encoded and read back with the same version, canonical key and result, however
  -- the texts of its values are laid out, and that the file is written.
  pub set_restart_get :
      (m : List (String × Answer)) (d : DiskStore) (k : String) (r : Answer) (v : Value)
      → r.error ≡ ""
      → IsWritten d k r v
      → (d' : DiskStore) × ((set
            (disk_store json env)
            (record { results = m; backing = some d })
            k
            r).backing
          ≡ some d')
        × ((get (disk_store json env) (fresh d') k).0 ≡ some (record { value = v; error = "" }))
  set_restart_get m d k r v blank w = (
    disk_set json env d k r,
    set_backing m d k r blank,
    fresh_get (disk_set json env d k r) k _ (disk_get-disk_set d k r v w),
  )
