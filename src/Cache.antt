-- ===== src/Cache.antt =====
-- internal/cache/cache.go: the `Store`, a map in memory in front of an optional disk store. The
-- mutex serialises the methods, so each is one step here. The nil store is not modelled: the engine
-- makes a store where it is given none.
pub mod Number
pub mod Canonical
pub mod Key
pub mod Disk
pub mod Laws
use ajq.Prelude.{String, Option, none, some, List, [], ◌∷◌, str_eq, if◌then◌else◌}
use ajq.Backend.{Answer}

-- What the store calls of the disk store; `Disk` implements it.
pub record DiskOps : Type 1 where
  pub D : Type 0
  pub get : D → String → Option Answer
  pub set : D → String → Answer → D

-- A map: the first entry of a key counts.
unfoldable pub find : String → List (String × Answer) → Option Answer
find k [] = none
find k ((j, r) ∷ m) = if str_eq j k then some r else find k m

module _ (disk : DiskOps) where
  pub record Store : Type 0 where
    pub results : List (String × Answer)
    pub backing : Option disk.D

  unfoldable pub new_store : Store
  new_store = record { results = []; backing = none }

  abbrev pub remember : Store → String → Answer → Store
  remember s k r = record s { results = (k, r) ∷ s.results }

  from_disk : Store → String → Option Answer → Option Answer × Store
  from_disk s k none = (none, s)
  from_disk s k (some r) = (some r, remember s k r)

  ask_disk : Store → String → Option disk.D → Option Answer × Store
  ask_disk s k none = (none, s)
  ask_disk s k (some d) = from_disk s k (disk.get d k)

  -- `Get`: what the disk store gives is kept in memory.
  unfoldable pub get : Store → String → Option Answer × Store
  unfolding from_disk ask_disk
  get s k = elim (find k s.results) [ some r ↦ (some r, s) | none ↦ ask_disk s k s.backing ]

  persist : Option disk.D → String → Answer → Option disk.D
  persist none k r = none
  persist (some d) k r = if str_eq r.error "" then some (disk.set d k r) else some d

  unfoldable pub set : Store → String → Answer → Store
  unfolding persist
  set s k r = record { results = (k, r) ∷ s.results; backing = persist s.backing k r }
