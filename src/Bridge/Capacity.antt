-- ===== src/Bridge/Capacity.antt =====
-- bridge/capacity.go: the pool of VM slots that all scale sets share. Each method runs under the
-- mutex, so a call is one step on the record; `S` is what the callbacks act on.
pub mod Slots
pub mod Sharing
use orchard_gh_bridge.Base.{ℕ, Bool, true, false, not, if◌then◌else◌, List, [], ◌∷◌, ◌++◌}
use orchard_gh_bridge.Base.Int.{ℤ, pos, add_int, sub_int, ltb_ℤ, leb_ℤ, eqb_ℤ}
use orchard_gh_bridge.Orchard.{Worker}

pub record Capacity (S : Type 0) : Type 0 where
  pub current : ℤ
  pub max : ℤ
  pub callbacks : List (List Worker → S → S)

-- min(a, b)
abbrev pub min_int : ℤ → ℤ → ℤ
min_int a b = if leb_ℤ a b then a else b

module _ {S : Type 0} where
  -- NewCapacity
  pub new_capacity : ℤ → Capacity S
  new_capacity max = record { current = pos 0; max = max; callbacks = [] }

  -- OnWorkersChanged
  pub on_workers_changed : (List Worker → S → S) → Capacity S → Capacity S
  on_workers_changed fn c = record c { callbacks = c.callbacks ++ fn ∷ [] }

  -- TryAcquire: how many of the n slots were reserved.
  unfoldable pub try_acquire : ℤ → Capacity S → ℤ × Capacity S
  try_acquire n c =
      let available = sub_int c.max c.current in
      if leb_ℤ available (pos 0)
      then (pos 0, c)
      else let acquired = min_int n available in
        (acquired, record c { current = add_int c.current acquired })

  -- Release
  pub release : ℤ → Capacity S → Capacity S
  release n c =
      let left = sub_int c.current n in
      record c { current = if ltb_ℤ left (pos 0) then pos 0 else left }

  -- Available, InUse and Max
  pub available : Capacity S → ℤ
  available c = sub_int c.max c.current

  pub in_use : Capacity S → ℤ
  in_use c = c.current

  -- Reconcile
  unfoldable pub reconcile : ℤ → Capacity S → Capacity S
  reconcile actual c = record c { current = actual }

  -- AdoptExisting
  unfoldable pub adopt_existing : ℤ → Capacity S → Capacity S
  adopt_existing n c = record c { current = add_int c.current n }

  unfoldable pub run_callbacks : List (List Worker → S → S) → List Worker → S → S
  run_callbacks [] workers s = s
  run_callbacks (fn ∷ fns) workers s = run_callbacks fns workers (fn workers s)

  -- SetMax
  unfoldable pub set_max : ℤ → List Worker → Capacity S → S → Capacity S × S
  set_max max workers c s =
      let changed = not (eqb_ℤ c.max max) in
      (record c { max = max }, if changed then run_callbacks c.callbacks workers s else s)
