-- ===== src/Bridge/Capacity/Slots.antt =====
-- bridge/capacity.go: how the pool grants and takes back slots.
use orchard_gh_bridge.Base.{ℕ, ◌+◌, ◌-◌, ◌≤◌, ◌<◌, ◌≡◌, refl, ◌∙◌, min, arith}
use orchard_gh_bridge.Base.Int.{pos, two_63, add_int_pos, sub_int_pos}
use orchard_gh_bridge.Bridge.Capacity.{Capacity, try_acquire, release}

-- Neither number is negative, and both are values of type int.
pub record IsValid {S : Type 0} (c : Capacity S) : Type 0 where
  pub used : ℕ
  pub limit : ℕ
  pub current_eq : c.current ≡ pos used
  pub max_eq : c.max ≡ pos limit
  pub used_int : used < two_63
  pub limit_int : limit < two_63

pub granted_int :
    (n used limit : ℕ) → limit < two_63 → used < two_63 → n ≤ limit - used → used + n < two_63
granted_int n used limit h k le = omega arith

module _ {S : Type 0} where
  -- A request is granted in full up to the free slots, and those are counted as in use.
  pub try_acquire_grants :
      (n : ℕ) (c : Capacity S) (v : IsValid c)
      → let granted = min n (v.limit - v.used) in
        try_acquire (pos n) c ≡ (pos granted, record c { current = pos (v.used + granted) })
  unfolding try_acquire
  try_acquire_grants n c v =
      rw (v.current_eq, v.max_eq, sub_int_pos v.limit v.used v.limit_int v.used_int)
        (ground (arith, add_int_pos v.used n, add_int_pos v.used (v.limit - v.used)))

  -- Slots come back in full; a release of more than is in use stops at zero.
  pub release_lem :
      (n : ℕ) (c : Capacity S) (v : IsValid c)
      → n < two_63
      → release (pos n) c ≡ record c { current = pos (v.used - n) }
  unfolding release
  release_lem n c v h = rw (v.current_eq, sub_int_pos v.used n v.used_int h) (ground arith)

  -- A pool is valid after a grant.
  abbrev pub granted-IsValid :
      (n : ℕ) (c : Capacity S)
      → (v : IsValid c) → n ≤ v.limit - v.used
      → IsValid (record c { current = pos (v.used + n) })
  granted-IsValid n c v h = record {
    used = v.used + n;
    limit = v.limit;
    current_eq = refl;
    max_eq = v.max_eq;
    used_int = granted_int n v.used v.limit v.limit_int v.used_int h;
    limit_int = v.limit_int;
  }

  -- Reserved slots that go back leave the pool as it was: the error path of a scale-up leaks none.
  pub acquire-release :
      (n : ℕ) (c : Capacity S)
      → IsValid c
      → let (acquired, c') = try_acquire (pos n) c in release acquired c' ≡ c
  acquire-release n c v =
      let granted = min n (v.limit - v.used) in
      rw (try_acquire_grants n c v) (
        release_lem granted _ (granted-IsValid granted c v (omega arith)) (omega arith)
        ∙ ground (arith, v.current_eq))
