-- ===== src/RegionTable/Steps.antt =====
-- driver/linux/omx_reg.c: the operations on the table in any order of several contexts. `readers` are
-- the regions that a context has read from the table and has no reference to yet, `held` those to
-- which contexts have one.
use xen2mx.Base.{
  ℕ, ◌+◌, ◌<◌, ◌≡◌, refl, List, [], ◌∷◌, Option, none, some, Bool, true, false, ltb, ◌==◌,
  if◌then◌else◌, arith, occurrences, occurrences-delete, delete, update,
}
use xen2mx.RegionTable.{
  KernelRegion, RegionTable, empty, region_create, region_destroy, region_release,
  rcu_release_callback, look_up, take_ref,
}

-- kzalloc gives memory that is not allocated; a callback of call_rcu runs when no context is left
-- that may have read the region before.
pub data Step : RegionTable → List ℕ → List ℕ → RegionTable → List ℕ → List ℕ → Type 0 where
  creating :
      (t u : RegionTable) (readers held : List ℕ) (id r : ℕ)
      → (t.region r).allocated ≡ false
      → region_create t id r ≡ some u
      → Step t readers held u readers held
  destroy :
      (t u : RegionTable) (readers held : List ℕ) (id : ℕ)
      → region_destroy t id ≡ some u
      → Step t readers held u readers held
  callback :
      (t : RegionTable) (readers held : List ℕ) (r : ℕ)
      → 0 < occurrences r t.deferred
      → occurrences r readers ≡ 0
      → Step t readers held (rcu_release_callback t r) readers held
  reading :
      (t : RegionTable) (readers held : List ℕ) (rdma_id r : ℕ)
      → look_up t rdma_id ≡ some r
      → Step t readers held t (r ∷ readers) held
  take :
      (t : RegionTable) (readers held : List ℕ) (r : ℕ)
      → 0 < occurrences r readers
      → Step t readers held (take_ref t r) (delete r readers) (r ∷ held)
  release :
      (t : RegionTable) (readers held : List ℕ) (r : ℕ)
      → 0 < occurrences r held
      → Step t readers held (region_release t r) readers (delete r held)

abbrev pub holds : Option ℕ → ℕ → Bool
holds none r = false
holds (some q) r = q == r

-- 1 if the region is in the table.
abbrev pub published : RegionTable → ℕ → ℕ
published t r = if holds (t.user_regions (t.region r).id) r then 1 else 0

-- A region has a reference from the table, one from each callback and one from each holder; it is
-- allocated as long as it has one; it is read only while it is in the table or has a callback.
pub record IsCounted (t : RegionTable) (readers held : List ℕ) (r : ℕ) : Type 0 where
  pub counted :
      (t.region r).refcount ≡ published t r + occurrences r t.deferred + occurrences r held
  pub alive : (t.region r).allocated ≡ ltb 0 (t.region r).refcount
  pub seen : 0 < occurrences r readers → 0 < published t r + occurrences r t.deferred

pub record IsTable (t : RegionTable) (readers held : List ℕ) : Type 0 where
  pub own_id : (i r : ℕ) → t.user_regions i ≡ some r → (t.region r).id ≡ i
  pub regions : (r : ℕ) → IsCounted t readers held r

region_create-own_id :
    (t u : RegionTable) (readers held : List ℕ) (id q i r : ℕ)
    → IsTable t readers held
    → (t.region q).allocated ≡ false
    → region_create t id q ≡ some u
    → u.user_regions i ≡ some r
    → (u.region r).id ≡ i
unfolding region_create
region_create-own_id t u readers held id q i r h fresh e at =
    let c = h.regions q in ground (arith, h.own_id i r, h.own_id i q, c.counted, c.alive)

region_create-IsCounted :
    (t u : RegionTable) (readers held : List ℕ) (id q r : ℕ)
    → IsTable t readers held
    → (t.region q).allocated ≡ false
    → region_create t id q ≡ some u
    → IsCounted u readers held r
unfolding region_create
region_create-IsCounted t u readers held id q r h fresh e =
    let c = h.regions q in
    let d = h.regions r in
    ground (
      arith,
      h.own_id id r,
      h.own_id (t.region q).id q,
      c.counted,
      c.alive,
      c.seen,
      d.counted,
      d.alive,
      d.seen,
    )

region_destroy-own_id :
    (t u : RegionTable) (readers held : List ℕ) (id i r : ℕ)
    → IsTable t readers held
    → region_destroy t id ≡ some u
    → u.user_regions i ≡ some r
    → (u.region r).id ≡ i
unfolding region_destroy
region_destroy-own_id t u readers held id i r h e at = ground (arith, h.own_id i r)

region_destroy-IsCounted :
    (t u : RegionTable) (readers held : List ℕ) (id r : ℕ)
    → IsTable t readers held
    → region_destroy t id ≡ some u
    → IsCounted u readers held r
unfolding region_destroy
region_destroy-IsCounted t u readers held id r h e =
    let d = h.regions r in ground (arith, h.own_id id r, d.counted, d.alive, d.seen)

rcu_release_callback-IsCounted :
    (t : RegionTable) (readers held : List ℕ) (q r : ℕ)
    → IsTable t readers held
    → 0 < occurrences q t.deferred
    → occurrences q readers ≡ 0
    → IsCounted (rcu_release_callback t q) readers held r
unfolding rcu_release_callback
rcu_release_callback-IsCounted t readers held q r h some_left unread =
    let d = h.regions r in
    ground (arith, d.counted, d.alive, d.seen, occurrences-delete r q t.deferred)

take_ref-IsCounted :
    (t : RegionTable) (readers held : List ℕ) (q r : ℕ)
    → IsTable t readers held
    → 0 < occurrences q readers
    → IsCounted (take_ref t q) (delete q readers) (q ∷ held) r
unfolding take_ref
take_ref-IsCounted t readers held q r h seen =
    let d = h.regions r in
    ground (arith, d.counted, d.alive, d.seen, occurrences-delete r q readers)

region_release-IsCounted :
    (t : RegionTable) (readers held : List ℕ) (q r : ℕ)
    → IsTable t readers held
    → 0 < occurrences q held
    → IsCounted (region_release t q) readers (delete q held) r
unfolding region_release
region_release-IsCounted t readers held q r h has =
    let d = h.regions r in ground (arith, d.counted, d.alive, d.seen, occurrences-delete r q held)

look_up-IsCounted :
    (t : RegionTable) (readers held : List ℕ) (rdma_id q r : ℕ)
    → IsTable t readers held
    → look_up t rdma_id ≡ some q
    → IsCounted t (q ∷ readers) held r
unfolding look_up
look_up-IsCounted t readers held rdma_id q r h e =
    let d = h.regions r in ground (arith, h.own_id rdma_id q, d.counted, d.alive, d.seen)

-- The ids stay where references are counted.
same_ids :
    (t u : RegionTable) (i r q : ℕ) (k : KernelRegion)
    → k.id ≡ (t.region q).id
    → (t.user_regions i ≡ some r → (t.region r).id ≡ i)
    → t.user_regions i ≡ some r
    → (update t.region q k r).id ≡ i
same_ids t u i r q k e h at = ground (arith, h at)

step-IsTable :
    (t u : RegionTable) (readers held readers₁ held₁ : List ℕ)
    → Step t readers held u readers₁ held₁
    → IsTable t readers held
    → IsTable u readers₁ held₁
unfolding rcu_release_callback region_release take_ref
step-IsTable _ _ _ _ _ _ (creating t u readers held id q fresh e) h = record {
  own_id = λ i r. region_create-own_id t u readers held id q i r h fresh e;
  regions = λ r. region_create-IsCounted t u readers held id q r h fresh e;
}
step-IsTable _ _ _ _ _ _ (destroy t u readers held id e) h = record {
  own_id = λ i r. region_destroy-own_id t u readers held id i r h e;
  regions = λ r. region_destroy-IsCounted t u readers held id r h e;
}
step-IsTable _ _ _ _ _ _ (callback t readers held q some_left unread) h = record {
  own_id = λ i r. same_ids t t i r q _ refl (h.own_id i r);
  regions = λ r. rcu_release_callback-IsCounted t readers held q r h some_left unread;
}
step-IsTable _ _ _ _ _ _ (reading t readers held rdma_id q e) h = record {
  own_id = h.own_id;
  regions = λ r. look_up-IsCounted t readers held rdma_id q r h e;
}
step-IsTable _ _ _ _ _ _ (take t readers held q seen) h = record {
  own_id = λ i r. same_ids t t i r q _ refl (h.own_id i r);
  regions = λ r. take_ref-IsCounted t readers held q r h seen;
}
step-IsTable _ _ _ _ _ _ (release t readers held q has) h = record {
  own_id = λ i r. same_ids t t i r q _ refl (h.own_id i r);
  regions = λ r. region_release-IsCounted t readers held q r h has;
}

pub data Run : RegionTable → List ℕ → List ℕ → RegionTable → List ℕ → List ℕ → Type 0 where
  stop : (t : RegionTable) (readers held : List ℕ) → Run t readers held t readers held
  step :
      (t u v : RegionTable) (readers held readers₁ held₁ readers₂ held₂ : List ℕ)
      → Step t readers held u readers₁ held₁
      → Run u readers₁ held₁ v readers₂ held₂
      → Run t readers held v readers₂ held₂

run-IsTable :
    (t v : RegionTable) (readers held readers₂ held₂ : List ℕ)
    → Run t readers held v readers₂ held₂
    → IsTable t readers held
    → IsTable v readers₂ held₂
run-IsTable _ _ _ _ _ _ (stop t readers held) h = h
run-IsTable _ _ _ _ _ _ (step t u v readers held readers₁ held₁ readers₂ held₂ s rest) h =
    run-IsTable u v readers₁ held₁ readers₂ held₂ rest
      (step-IsTable t u readers held readers₁ held₁ s h)

empty-IsTable : IsTable empty [] []
unfolding empty
empty-IsTable = record { own_id = λ i r e. ground arith; regions = λ r. ground arith }

-- Whatever contexts create, destroy, look up, take and release regions in any order, where a callback
-- of call_rcu waits for the contexts that may have read its region: the memory of a region is
-- allocated exactly as long as the region is in the table, has a callback to come or is held, and a
-- region that a context has read from the table and takes no reference to yet is allocated.
pub run_allocated :
    (v : RegionTable) (readers held : List ℕ) (r : ℕ)
    → Run empty [] [] v readers held
    → ((v.region r).allocated
        ≡ ltb 0 (published v r + occurrences r v.deferred + occurrences r held))
      × (0 < occurrences r readers → (v.region r).allocated ≡ true)
run_allocated v readers held r steps =
    let c = (run-IsTable empty v [] [] readers held steps empty-IsTable).regions r in
    (ground (arith, c.alive, c.counted), λ l. ground (arith, c.alive, c.counted, c.seen))
