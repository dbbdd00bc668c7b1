-- ===== src/Bridge/Capacity/Sharing.antt =====
-- bridge/capacity.go under the calls of several bridges, in any order.
use orchard_gh_bridge.Base.{ℕ, ◌+◌, ◌-◌, ◌≤◌, ◌<◌, ◌≡◌, arith}
use orchard_gh_bridge.Base.Int.{pos, pos_part, two_63}
use orchard_gh_bridge.Bridge.Capacity.{Capacity, try_acquire, release}
use orchard_gh_bridge.Bridge.Capacity.Slots.{IsValid, try_acquire_grants, release_lem}

-- The pool, and the slots that the bridges hold together.
pub record Shared (S : Type 0) : Type 0 where
  pub pool : Capacity S
  pub held : ℕ

module _ {S : Type 0} where
  abbrev pub take_slots : ℕ → Shared S → Shared S
  take_slots n s =
      let (acquired, c) = try_acquire (pos n) s.pool in
      record { pool = c; held = s.held + pos_part acquired }

  abbrev pub give_slots : ℕ → Shared S → Shared S
  give_slots k s = record { pool = release (pos k) s.pool; held = s.held - k }

-- Some bridge asks for slots, or gives back some that it holds.
pub data Step {S : Type 0} : Shared S → Shared S → Type 0 where
  takes : (s : Shared S) (n : ℕ) → Step s (take_slots n s)
  gives : (s : Shared S) (k : ℕ) → k ≤ s.held → Step s (give_slots k s)

pub data Reach {S : Type 0} (s : Shared S) : Shared S → Type 0 where
  here : Reach s s
  next : {t u : Shared S} → Reach s t → Step t u → Reach s u

-- The pool counts exactly the slots that are held, and no more than its maximum.
pub record IsCounted {S : Type 0} (limit : ℕ) (s : Shared S) : Type 0 where
  pub current_eq : s.pool.current ≡ pos s.held
  pub max_eq : s.pool.max ≡ pos limit
  pub limit_int : limit < two_63
  pub within : s.held ≤ limit

module _ {S : Type 0} (limit : ℕ) where
  abbrev counted-IsValid : (s : Shared S) → IsCounted limit s → IsValid s.pool
  counted-IsValid s h = record {
    used = s.held;
    limit = limit;
    current_eq = h.current_eq;
    max_eq = h.max_eq;
    used_int = omega arith;
    limit_int = h.limit_int;
  }

  takes-IsCounted : (s : Shared S) (n : ℕ) → IsCounted limit s → IsCounted limit (take_slots n s)
  takes-IsCounted s n h = ground (arith, try_acquire_grants n s.pool (counted-IsValid s h))

  gives-IsCounted :
      (s : Shared S) (k : ℕ) → k ≤ s.held → IsCounted limit s → IsCounted limit (give_slots k s)
  gives-IsCounted s k le h = ground (arith, release_lem k s.pool (counted-IsValid s h))

  Step-IsCounted : {s t : Shared S} → Step s t → IsCounted limit s → IsCounted limit t
  Step-IsCounted (takes s n) h = takes-IsCounted s n h
  Step-IsCounted (gives s k le) h = gives-IsCounted s k le h

  -- In any interleaving of the calls of several bridges, from a state where it does so, the pool
  -- counts exactly the slots that they hold, and they hold at most the maximum.
  pub Reach-IsCounted : {s t : Shared S} → Reach s t → IsCounted limit s → IsCounted limit t
  Reach-IsCounted here h = h
  Reach-IsCounted (next r st) h = Step-IsCounted st (Reach-IsCounted r h)
