-- ===== src/RegionTable.antt =====
-- driver/linux/omx_reg.c: the table of the regions of an endpoint, with their references. A region is
-- the address of its memory, a number; `deferred` are the callbacks of call_rcu that have not run.
pub mod Steps
pub mod Tests
use xen2mx.Base.{
  ℕ, ◌+◌, ◌-◌, List, [], ◌∷◌, Option, none, some, Bool, true, false, ltb, ◌==◌, if◌then◌else◌,
  update, delete, not,
}
use xen2mx.Large.{user_region_max}

-- struct omx_user_region, what the table and its references are about, and whether it is allocated
pub record KernelRegion : Type 0 where
  pub id : ℕ
  pub refcount : ℕ
  pub allocated : Bool

pub record RegionTable : Type 0 where
  pub user_regions : ℕ → Option ℕ
  pub region : ℕ → KernelRegion
  pub deferred : List ℕ

unfoldable pub empty : RegionTable
empty = record {
  user_regions = λ i. none;
  region = λ r. record { id = 0; refcount = 0; allocated = false };
  deferred = [];
}

abbrev pub publish : RegionTable → ℕ → ℕ → Option ℕ → Option RegionTable
publish t id r (some other) = none
publish t id r none = some (record t {
  user_regions = update t.user_regions id (some r);
  region = update t.region r (record { id = id; refcount = 1; allocated = true });
})

-- omx_ioctl_user_region_create, at the memory that kzalloc gave: `none` is an invalid or busy id.
unfoldable pub region_create : RegionTable → ℕ → ℕ → Option RegionTable
region_create t id r = if ltb id user_region_max then publish t id r (t.user_regions id) else none

abbrev pub unpublish : RegionTable → ℕ → Option ℕ → Option RegionTable
unpublish t id none = none
unpublish t id (some r) =
    some (record t { user_regions = update t.user_regions id none; deferred = r ∷ t.deferred })

-- omx_ioctl_user_region_destroy
unfoldable pub region_destroy : RegionTable → ℕ → Option RegionTable
region_destroy t id = if ltb id user_region_max then unpublish t id (t.user_regions id) else none

-- kref_put, with __omx_user_region_last_release when no reference is left
unfoldable pub region_release : RegionTable → ℕ → RegionTable
region_release t r = record t {
  region = update t.region r (record (t.region r) {
    refcount = (t.region r).refcount - 1;
    allocated = if (t.region r).refcount - 1 == 0 then false else (t.region r).allocated;
  });
}

-- __omx_user_region_rcu_release_callback
unfoldable pub rcu_release_callback : RegionTable → ℕ → RegionTable
unfolding region_release
rcu_release_callback t r = region_release (record t { deferred = delete r t.deferred }) r

-- omx_user_region_acquire reads the table, under rcu_read_lock, ...
unfoldable pub look_up : RegionTable → ℕ → Option ℕ
look_up t rdma_id = if ltb rdma_id user_region_max then t.user_regions rdma_id else none

-- ... and then takes a reference: kref_get
unfoldable pub take_ref : RegionTable → ℕ → RegionTable
take_ref t r = record t {
  region = update t.region r (record (t.region r) { refcount = (t.region r).refcount + 1 });
}
