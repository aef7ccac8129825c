-- ===== src/Cache/Canonical/MapOrder.antt =====
-- The canonical text of an object does not depend on the order in which its map is walked.
use ajq.Prelude.{String, ◌≡◌, ◌≢◌, refl, ap, ◌∙◌}
use ajq.Value.{Value, obj, Fields, field}
use ajq.Cache.Canonical.{Json, write_canonical, write_fields, write_entries}
use ajq.Cache.Canonical.Order.{sort_by_key, insert_by_key}
use ajq.Cache.Canonical.Order.Laws.{insert_swap}

-- The same entries in another order; entries change places only if their keys differ.
pub data IsReordered : Fields → Fields → Type 0 where
  same : (fs : Fields) → IsReordered fs fs
  keep :
      (k : String) (v : Value) (fs gs : Fields)
      → IsReordered fs gs
      → IsReordered (field k v fs) (field k v gs)
  swap :
      (k j : String) (v w : Value) (fs : Fields)
      → k ≢ j
      → IsReordered (field k v (field j w fs)) (field j w (field k v fs))
  chain : (fs gs hs : Fields) → IsReordered fs gs → IsReordered gs hs → IsReordered fs hs

module _ (json : Json) where
  sort_reordered :
      (fs gs : Fields)
      → IsReordered fs gs
      → sort_by_key (write_fields json fs) ≡ sort_by_key (write_fields json gs)
  unfolding sort_by_key write_canonical
  sort_reordered fs gs (same _) = refl
  sort_reordered fs gs (keep k v fs' gs' h) =
      ap (insert_by_key k (write_canonical json v)) (sort_reordered fs' gs' h)
  sort_reordered fs gs (swap k j v w rest differ) =
      insert_swap k j (write_canonical json v) (write_canonical json w)
        (sort_by_key (write_fields json rest)) differ
  sort_reordered fs gs (chain _ ms _ h i) = sort_reordered fs ms h ∙ sort_reordered ms gs i

  -- Two objects with the same entries in different orders, as they come from walking a map, have the
  -- same canonical text, or fail with the same error.
  pub write_canonical_reordered :
      (fs gs : Fields)
      → IsReordered fs gs
      → write_canonical json (obj fs) ≡ write_canonical json (obj gs)
  unfolding write_canonical
  write_canonical_reordered fs gs h = ap (write_entries json) (sort_reordered fs gs h)
