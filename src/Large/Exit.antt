-- ===== src/Large/Exit.antt =====
-- libxen2mx/omx_large.c, omx__endpoint_large_region_map_exit: every window is closed.
use xen2mx.Base.{ℕ, ◌-◌, ◌≡◌, List, [], ◌∷◌, Bool, arith, occurrences, occurrences-delete}
use xen2mx.Large.{LargeMap, destroy_region}
use xen2mx.Large.Clean.{map_exit, drop_cached, exit_cached, exit_vect}
use xen2mx.Large.Pool.{IsCache}

-- What a loop over some regions leaves: a list and the windows without them.
abbrev Without : ℕ → List ℕ → LargeMap → LargeMap → Type 0
Without j is m n =
    (occurrences j n.reg_list ≡ occurrences j m.reg_list - occurrences j is)
    × (occurrences j n.reg_vect_list ≡ occurrences j m.reg_vect_list - occurrences j is)
    × (occurrences j n.windows ≡ occurrences j m.windows - occurrences j is)

exit_cached-Without : (j : ℕ) (is : List ℕ) (m : LargeMap) → Without j is m (exit_cached m is)
unfolding exit_cached
exit_cached-Without j [] m = omega arith
exit_cached-Without j (i ∷ is) m = ground (
  arith,
  exit_cached-Without j is (drop_cached m i),
  occurrences-delete j i m.reg_list,
  occurrences-delete j i m.reg_vect_list,
  occurrences-delete j i m.windows,
)

exit_vect-Without : (j : ℕ) (is : List ℕ) (m : LargeMap) → Without j is m (exit_vect m is)
unfolding exit_vect
exit_vect-Without j [] m = omega arith
exit_vect-Without j (i ∷ is) m = ground (
  arith,
  exit_vect-Without j is (destroy_region m i),
  occurrences-delete j i m.reg_list,
  occurrences-delete j i m.reg_vect_list,
  occurrences-delete j i m.windows,
)

-- When an endpoint whose cache is in order is closed, no window stays open and no region is left
-- in a list.
pub map_exit-windows :
    (regcache : Bool) (m : LargeMap) (free held : List ℕ) (j : ℕ)
    → IsCache regcache m free held
    → (occurrences j (map_exit m).windows ≡ 0)
      × (occurrences j (map_exit m).reg_list ≡ 0)
      × (occurrences j (map_exit m).reg_vect_list ≡ 0)
unfolding map_exit
map_exit-windows regcache m free held j c =
    let s = c.slots j in
    let n = exit_cached m m.reg_list in
    ground (
      arith,
      s.owned,
      s.open_windows,
      exit_cached-Without j m.reg_list m,
      exit_vect-Without j n.reg_vect_list n,
    )
