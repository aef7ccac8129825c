-- ===== src/Cache/Disk/Layout.antt =====
-- An entry as it is read back: `json.MarshalIndent` lays the raw JSON in an entry out anew, so only what
-- the entry stands for is the same.
use ajq.Prelude.{String, ◌≡◌, ◌==◌, length}
use ajq.Cache.Canonical.{Json}
use ajq.Cache.Disk.{Env, DiskEntry, matches, accept}

module _ (json : Json) (env : Env) where
  -- The two entries have the same version, canonical key and result, whatever white space stands in
  -- the texts of their values.
  pub record IsLaidOut (e e' : DiskEntry) : Type 0 where
    pub same_version : e'.version ≡ e.version
    pub same_key :
        json.marshal_parts e'.op e'.specs e'.model_id e'.key_value
        ≡ json.marshal_parts e.op e.specs e.model_id e.key_value
    pub same_filled : (length e'.result_value == 0) ≡ (length e.result_value == 0)
    pub same_result : env.decode_value e'.result_value ≡ env.decode_value e.result_value

  pub accept-IsLaidOut :
      (key : String) (e e' : DiskEntry)
      → IsLaidOut e e'
      → accept json env key e' ≡ accept json env key e
  unfolding accept matches
  accept-IsLaidOut key e e' h = rw (h.same_version, h.same_filled, h.same_key, h.same_result)
