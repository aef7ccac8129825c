-- ===== src/Cache/Laws.antt =====
-- What `Get` and `Set` promise each other.
use ajq.Prelude.{
  String, false, Option, none, some, List, ◌∷◌, ◌≡◌, ◌⊎◌, inl, inr, str_eq, str_eq_iff, str_eq_refl,
  if◌then◌else◌, refl, sym, ap, ◌∙◌, Bool-cases, Option-cases,
}
use ajq.Backend.{Answer}
use ajq.Cache.{DiskOps, Store, find, get, set, from_disk, ask_disk, remember}

-- The key has a result in memory.
abbrev pub IsCached : (disk : DiskOps) → Store disk → String → Type 0
IsCached disk s k = (r : Answer) × (find k s.results ≡ some r)

pub find-cons :
    (k j : String) (r : Answer) (m : List (String × Answer))
    → find j ((k, r) ∷ m) ≡ (if str_eq k j then some r else find j m)
unfolding find
find-cons k j r m = refl

module _ (disk : DiskOps) where
  remember-IsCached :
      (s : Store disk) (k j : String) (r : Answer)
      → IsCached disk s j
      → IsCached disk (remember disk s k r) j
  unfolding find
  remember-IsCached s k j r (x, e) = elim (Bool-cases (str_eq k j)) [
    | inl same ↦ (r, rw same)
    | inr differ ↦ (x, rw differ e)
  ]

  from_disk-IsCached :
      (s : Store disk) (k j : String) (o : Option Answer)
      → IsCached disk s j
      → IsCached disk (from_disk disk s k o).1 j
  unfolding from_disk
  from_disk-IsCached s k j none h = h
  from_disk-IsCached s k j (some r) h = remember-IsCached s k j r h

  ask_disk-IsCached :
      (s : Store disk) (k j : String) (o : Option disk.D)
      → IsCached disk s j
      → IsCached disk (ask_disk disk s k o).1 j
  unfolding ask_disk
  ask_disk-IsCached s k j none h = h
  ask_disk-IsCached s k j (some d) h = from_disk-IsCached s k j (disk.get d k) h

  -- A lookup forgets no key.
  pub get-IsCached :
      (s : Store disk) (k j : String) → IsCached disk s j → IsCached disk (get disk s k).1 j
  unfolding get
  get-IsCached s k j h = elim (Option-cases (find k s.results)) [
    | inl e ↦ rw (e, get) (ask_disk-IsCached s k j s.backing h)
    | inr (r, e) ↦ rw (e, get) h
  ]

  -- A key in memory is answered from memory.
  pub get_cached :
      (s : Store disk) (k : String) (r : Answer)
      → find k s.results ≡ some r
      → get disk s k ≡ (some r, s)
  unfolding get
  get_cached s k r e = rw (e, get)

  from_disk_hit :
      (s : Store disk) (k : String) (o : Option Answer) (r : Answer)
      → (from_disk disk s k o).0 ≡ some r
      → find k (from_disk disk s k o).1.results ≡ some r
  unfolding from_disk find
  from_disk_hit s k none r h = cc
  from_disk_hit s k (some x) r h = rw (str_eq_refl k) h

  ask_disk_hit :
      (s : Store disk) (k : String) (o : Option disk.D) (r : Answer)
      → (ask_disk disk s k o).0 ≡ some r
      → find k (ask_disk disk s k o).1.results ≡ some r
  unfolding ask_disk
  ask_disk_hit s k none r h = cc
  ask_disk_hit s k (some d) r h = from_disk_hit s k (disk.get d k) r h

  -- What a lookup answers is in memory afterwards, so a second lookup answers it again, whatever
  -- happens to the disk store.
  pub get_hit :
      (s : Store disk) (k : String) (r : Answer)
      → (get disk s k).0 ≡ some r
      → find k (get disk s k).1.results ≡ some r
  unfolding get
  get_hit s k r h = elim (Option-cases (find k s.results)) [
    | inl e ↦ rw (e, get) (ask_disk_hit s k s.backing r (rw (e, get) at h))
    | inr (x, e) ↦ rw (e, get) (e ∙ (rw (e, get) at h))
  ]

  pub find-set :
      (s : Store disk) (k j : String) (r : Answer)
      → find j (set disk s k r).results ≡ (if str_eq k j then some r else find j s.results)
  unfolding set find
  find-set s k j r = refl

  pub set-IsCached :
      (s : Store disk) (k j : String) (r : Answer)
      → IsCached disk s j
      → IsCached disk (set disk s k r) j
  set-IsCached s k j r (x, e) = elim (Bool-cases (str_eq k j)) [
    | inl same ↦ (r, find-set s k j r ∙ rw same)
    | inr differ ↦ (x, find-set s k j r ∙ rw differ e)
  ]

  pub set-IsCached_self :
      (s : Store disk) (k : String) (r : Answer) → IsCached disk (set disk s k r) k
  set-IsCached_self s k r = (r, find-set s k k r ∙ rw (str_eq_refl k))

  -- A lookup after `Set` of the same key answers what was set, in memory or persistent.
  pub get-set_self :
      (s : Store disk) (k : String) (r : Answer) → (get disk (set disk s k r) k).0 ≡ some r
  get-set_self s k r = rw (get_cached (set disk s k r) k r (find-set s k k r ∙ rw (str_eq_refl k)))

  from_disk_answer :
      (s s' : Store disk) (k : String) (o : Option Answer)
      → (from_disk disk s k o).0 ≡ (from_disk disk s' k o).0
  unfolding from_disk
  from_disk_answer s s' k none = refl
  from_disk_answer s s' k (some r) = refl

  ask_disk_answer :
      (s s' : Store disk) (k : String) (o : Option disk.D)
      → (ask_disk disk s k o).0 ≡ (ask_disk disk s' k o).0
  unfolding ask_disk
  ask_disk_answer s s' k none = refl
  ask_disk_answer s s' k (some d) = from_disk_answer s s' k (disk.get d k)

  remember_answers_ne :
      (s : Store disk) (k j : String) (r : Answer)
      → str_eq k j ≡ false
      → (get disk (remember disk s k r) j).0 ≡ (get disk s j).0
  unfolding get find
  remember_answers_ne s k j r differ = elim (Option-cases (find j s.results)) [
    | inl e ↦ rw (differ, e, get) (ask_disk_answer (remember disk s k r) s j s.backing)
    | inr (x, e) ↦ rw (differ, e, get)
  ]

  remember_answers :
      (s : Store disk) (k j : String) (r : Answer)
      → (get disk s k).0 ≡ some r
      → (get disk (remember disk s k r) j).0 ≡ (get disk s j).0
  unfolding find
  remember_answers s k j r h = elim (Bool-cases (str_eq k j)) [
    | inl same ↦
        ap (λ x. x.0) (get_cached (remember disk s k r) j r (rw same))
        ∙ sym h
        ∙ ap (λ x. (get disk s x).0) ((str_eq_iff k j).0 same)
    | inr differ ↦ remember_answers_ne s k j r differ
  ]

  from_disk_get :
      (s : Store disk) (k j : String) (o : Option Answer)
      → (get disk s k).0 ≡ (from_disk disk s k o).0
      → (get disk (from_disk disk s k o).1 j).0 ≡ (get disk s j).0
  unfolding from_disk
  from_disk_get s k j none h = refl
  from_disk_get s k j (some r) h = remember_answers s k j r h

  ask_disk_get :
      (s : Store disk) (k j : String) (o : Option disk.D)
      → (get disk s k).0 ≡ (ask_disk disk s k o).0
      → (get disk (ask_disk disk s k o).1 j).0 ≡ (get disk s j).0
  unfolding ask_disk
  ask_disk_get s k j none h = refl
  ask_disk_get s k j (some d) h = from_disk_get s k j (disk.get d k) h

  miss_asks :
      (s : Store disk) (k : String)
      → find k s.results ≡ none
      → get disk s k ≡ ask_disk disk s k s.backing
  unfolding get
  miss_asks s k e = rw (e, get)

  -- A lookup changes the answer to no key, its own included.
  pub get-get : (s : Store disk) (k j : String) → (get disk (get disk s k).1 j).0 ≡ (get disk s j).0
  get-get s k j = elim (Option-cases (find k s.results)) [
    | inl e ↦ rw (miss_asks s k e) (ask_disk_get s k j s.backing (ap (λ x. x.0) (miss_asks s k e)))
    | inr (r, e) ↦ rw (get_cached s k r e)
  ]

  from_disk_old :
      (s : Store disk) (k j : String) (o : Option Answer) (r : Answer)
      → find j (from_disk disk s k o).1.results ≡ some r
      → (find j s.results ≡ some r) ⊎ ((k ≡ j) × (o ≡ some r))
  unfolding from_disk find
  from_disk_old s k j none r h = inl h
  from_disk_old s k j (some x) r h = elim (Bool-cases (str_eq k j)) [
    | inl same ↦ inr ((str_eq_iff k j).0 same, rw same at h)
    | inr differ ↦ inl (rw differ at h)
  ]

  -- The disk store has this result for the key.
  abbrev pub OnDisk : Option disk.D → String → Answer → Type 0
  OnDisk none k r = ⊥
  OnDisk (some d) k r = disk.get d k ≡ some r

  ask_disk_old :
      (s : Store disk) (k j : String) (o : Option disk.D) (r : Answer)
      → find j (ask_disk disk s k o).1.results ≡ some r
      → (find j s.results ≡ some r) ⊎ OnDisk o j r
  unfolding ask_disk
  ask_disk_old s k j none r h = inl h
  ask_disk_old s k j (some d) r h = elim (from_disk_old s k j (disk.get d k) r h) [
    | inl old ↦ inl old
    | inr (same, on) ↦ inr (rw (← same) on)
  ]

  -- What is in memory after a lookup was there before or came from the disk store.
  pub get_origin :
      (s : Store disk) (k j : String) (r : Answer)
      → find j (get disk s k).1.results ≡ some r
      → (find j s.results ≡ some r) ⊎ OnDisk s.backing j r
  get_origin s k j r h = elim (Option-cases (find k s.results)) [
    | inl e ↦ ask_disk_old s k j s.backing r (rw (miss_asks s k e) at h)
    | inr (x, e) ↦ inl (rw (get_cached s k x e) at h)
  ]

  from_disk_backing :
      (s : Store disk) (k : String) (o : Option Answer)
      → (from_disk disk s k o).1.backing ≡ s.backing
  unfolding from_disk
  from_disk_backing s k none = refl
  from_disk_backing s k (some r) = refl

  ask_disk_backing :
      (s : Store disk) (k : String) (o : Option disk.D)
      → (ask_disk disk s k o).1.backing ≡ s.backing
  unfolding ask_disk
  ask_disk_backing s k none = refl
  ask_disk_backing s k (some d) = from_disk_backing s k (disk.get d k)

  -- A lookup writes nothing to the disk store.
  pub get_backing : (s : Store disk) (k : String) → (get disk s k).1.backing ≡ s.backing
  get_backing s k = elim (Option-cases (find k s.results)) [
    | inl e ↦ rw (miss_asks s k e) (ask_disk_backing s k s.backing)
    | inr (x, e) ↦ rw (get_cached s k x e)
  ]
