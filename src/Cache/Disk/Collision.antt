-- ===== src/Cache/Disk/Collision.antt =====
-- An entry answers its own key only, even where two keys share a file.
use ajq.Prelude.{
  String, Bool, true, false, ◌||◌, List, ◌∷◌, Option, none, some, Bytes, ◌≡◌, ◌≢◌, refl, ap, inl,
  inr, str_eq, str_eq_iff, ◌==◌, if◌then◌else◌, length, Bool-cases, Option-cases,
}
use ajq.Backend.{Answer}
use ajq.Cache.Canonical.{Json}
use ajq.Cache.Disk.Layout.{IsLaidOut, accept-IsLaidOut}
use ajq.Cache.Disk.{
  Env, Payload, DiskEntry, DiskStore, read_file, path_for, equals, matches, is_whole,
  parse_canonical_key, accept, accept_decoded, decode_file, disk_get, entry_of, write, write_entry,
  set_payload, disk_set,
}

equals_sound : (key : String) (o : Option String) → equals key o ≡ true → o ≡ some key
equals_sound key none h = cc h
equals_sound key (some s) h = ap some ((str_eq_iff s key).0 h)

some_of : {A : Type 0} (b : Bool) (a a' : A) → (if b then some a else none) ≡ some a' → b ≡ true
some_of true a a' h = refl
some_of false a a' h = cc h

same_of : {A : Type 0} (b : Bool) (a a' : A) → (if b then some a else none) ≡ some a' → a ≡ a'
same_of true a a' h = cc h
same_of false a a' h = cc h

behind_guard : (b c : Bool) → (if b then false else c) ≡ true → c ≡ true
behind_guard true c h = cc h
behind_guard false c h = h

module _ (json : Json) (env : Env) where
  -- What the key's payload stands for is the key itself.
  pub parse_canonical_key-marshals :
      (key : String) (p : Payload)
      → parse_canonical_key json env key ≡ some p
      → json.marshal_parts p.op p.specs p.model_id p.value ≡ some key
  unfolding parse_canonical_key
  parse_canonical_key-marshals key p h = elim (Option-cases (env.decode_payload key)) [
    | inl none_there ↦ cc (rw none_there at h)
    | inr (q, there_is) ↦ marshals q (rw there_is at h)
  ]
    where
      marshals :
          (q : Payload)
          → (if is_whole json env q key then some q else none) ≡ some p
          → json.marshal_parts p.op p.specs p.model_id p.value ≡ some key
      marshals q h' = rw (same_of (is_whole json env q key) q p h') at (
          equals_sound key (json.marshal_parts q.op q.specs q.model_id q.value) (
            behind_guard (str_eq q.op "" || str_eq q.model_id "" || length q.value == 0) _
              (some_of (is_whole json env q key) q p h')))

  -- An entry of one key is not accepted for another.
  accept_other :
      (k j : String) (p : Payload) (result_value : Bytes)
      → json.marshal_parts p.op p.specs p.model_id p.value ≡ some k
      → k ≢ j
      → accept json env j (entry_of p result_value) ≡ none
  unfolding accept matches
  accept_other k j p result_value same differ = elim (Bool-cases (length result_value == 0)) [
    | inl blank ↦ rw (blank)
    | inr filled ↦
        rw (filled, same)
          (elim (Bool-cases (str_eq k j)) [
            | inl equal ↦ absurd (differ ((str_eq_iff k j).0 equal))
            | inr unequal ↦ rw unequal
          ])
  ]

  -- A file that answers nothing hides none that does.
  uncovered :
      (j q q' : String) (b : Bytes) (fs : List (String × Bytes)) (x : Answer)
      → decode_file json env j (read_file q' ((q, b) ∷ fs)) ≡ some x
      → accept_decoded json env j (env.decode_entry b) ≡ none
      → decode_file json env j (read_file q' fs) ≡ some x
  unfolding read_file decode_file
  uncovered j q q' b fs x h blank = elim (Bool-cases (str_eq q q')) [
    | inl shared ↦ cc (rw shared at h, blank)
    | inr apart ↦ rw apart at h
  ]

  -- The entry is read back from its encoding, up to its layout.
  abbrev pub ReadsBack : Payload → Bytes → Bytes → Type 0
  ReadsBack p rv c =
      (e : DiskEntry) × (env.decode_entry c ≡ some e) × IsLaidOut json env (entry_of p rv) e

  written_other :
      (k j : String) (p : Payload) (rv c : Bytes)
      → json.marshal_parts p.op p.specs p.model_id p.value ≡ some k
      → k ≢ j
      → ReadsBack p rv c
      → accept_decoded json env j (env.decode_entry c) ≡ none
  unfolding accept_decoded
  written_other k j p rv c same differ (e, decodes, laid_out) =
      rw (decodes, accept-IsLaidOut json env j (entry_of p rv) e laid_out)
        (accept_other k j p rv same differ)

  write_other :
      (d : DiskStore) (k j : String) (p : Payload) (rv : Bytes) (o : Option Bytes) (x : Answer)
      → json.marshal_parts p.op p.specs p.model_id p.value ≡ some k
      → k ≢ j
      → env.encode_entry (entry_of p rv) ≡ o
      → ((c : Bytes) → o ≡ some c → ReadsBack p rv c)
      → disk_get json env (write json env d (path_for json env d k) o) j ≡ some x
      → disk_get json env d j ≡ some x
  unfolding write disk_get read_file decode_file accept_decoded path_for
  write_other d k j p rv none x same differ e codec h = h
  write_other d k j p rv (some b) x same differ e codec h =
      elim (Bool-cases (env.write_fails (path_for json env d k) b)) [
        | inl fails ↦ rw fails at h
        | inr works ↦
            uncovered j (path_for json env d k) (path_for json env d j) b d.files x (rw works at h)
              (written_other k j p rv b same differ (codec b refl))
      ]

  set_other :
      (d : DiskStore) (k j : String) (p : Payload) (r x : Answer)
      → json.marshal_parts p.op p.specs p.model_id p.value ≡ some k
      → k ≢ j
      → ((rv c : Bytes)
          → env.marshal_value r.value ≡ some rv
          → env.encode_entry (entry_of p rv) ≡ some c
          → ReadsBack p rv c)
      → disk_get json env (set_payload json env d k r (some p)) j ≡ some x
      → disk_get json env d j ≡ some x
  unfolding set_payload write_entry
  set_other d k j p r x same differ codec h = elim (Option-cases (env.marshal_value r.value)) [
    | inl failed ↦ rw failed at h
    | inr (rv, marshalled) ↦
        write_other d k j p rv _ x same differ refl (λ c. codec rv c marshalled)
          (rw marshalled at h)
  ]

  -- A lookup of another key than the one that was set answers only what it answered before, even
  -- where the hashes of the two keys collide and the entry has been overwritten. The entry that was
  -- set must be read back from its encoding with the same version, canonical key and result, however
  -- the texts of its values are laid out.
  pub disk_get-disk_set_other :
      (d : DiskStore) (k j : String) (r x : Answer)
      → k ≢ j
      → ((p : Payload) (rv c : Bytes)
          → parse_canonical_key json env k ≡ some p
          → env.marshal_value r.value ≡ some rv
          → env.encode_entry (entry_of p rv) ≡ some c
          → ReadsBack p rv c)
      → disk_get json env (disk_set json env d k r) j ≡ some x
      → disk_get json env d j ≡ some x
  unfolding disk_set set_payload write_entry
  disk_get-disk_set_other d k j r x differ codec h =
      elim (Option-cases (parse_canonical_key json env k)) [
        | inl malformed ↦ rw malformed at h
        | inr (p, parsed) ↦
            set_other d k j p r x (parse_canonical_key-marshals k p parsed) differ
              (λ rv c. codec p rv c parsed) (rw parsed at h)
      ]
