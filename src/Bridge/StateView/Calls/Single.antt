-- ===== src/Bridge/StateView/Calls/Single.antt =====
-- bridge/stateview.go: that refreshes do not overlap, and what any caller may be answered.
use orchard_gh_bridge.Base.{
  ℕ, ◌≤◌, ◌<◌, ◌≡◌, ◌⊎◌, refl, true, false, Option, none, some, Result, arith,
}
use orchard_gh_bridge.Bridge.StateView.{Snapshot, StateView}
use orchard_gh_bridge.Bridge.StateView.Calls.{
  Place, idle, leading, waiting, Calls, go_to, start_lead, end_lead, Step, hits, joins, leads,
  finishes, wakes, gives_up, reads, leaves, invalidates, Reach, here, next, quiet,
}

-- The channel of the refresh in flight is open, and one caller leads it; no other caller leads, and
-- whoever waits does so on that channel or on one that is closed.
pub record IsSingle (s : Calls) : Type 0 where
  pub led :
      (i channel : ℕ) (last : Option Snapshot)
      → s.place i ≡ leading channel last
      → s.refreshing ≡ some channel
  pub unique :
      (i j c d : ℕ) (last last' : Option Snapshot)
      → s.place i ≡ leading c last
      → s.place j ≡ leading d last'
      → i ≡ j
  pub leader :
      (channel : ℕ)
      → s.refreshing ≡ some channel
      → (i : ℕ) × (last : Option Snapshot) × (s.place i ≡ leading channel last)
  pub waits :
      (i channel : ℕ)
      → s.place i ≡ waiting channel
      → (s.closed channel ≡ true) ⊎ (s.refreshing ≡ some channel)
  pub is_open :
      (channel : ℕ) → s.refreshing ≡ some channel → (channel < s.made) × (s.closed channel ≡ false)
  pub unused : (channel : ℕ) → s.made ≤ channel → s.closed channel ≡ false

module _ (s : Calls) (inv : IsSingle s) where
  open inv use {led, unique, leader, waits, is_open, unused}

  -- A move to a place that leads nothing, from one that leads nothing.
  move-IsSingle :
      (i : ℕ) (p : Place)
      → ((c : ℕ) (last : Option Snapshot) → s.place i ≡ leading c last → ⊥)
      → ((c : ℕ) (last : Option Snapshot) → p ≡ leading c last → ⊥)
      → ((c : ℕ) → p ≡ waiting c → s.refreshing ≡ some c)
      → IsSingle (go_to s i p)
  move-IsSingle i p before after joined = record {
    led = λ j c last e. ground (arith, after c last, led j c last);
    unique = λ j k c d last last' e f.
        ground (arith, after c last, after d last', unique j k c d last last');
    leader = λ c e. let (j, last, q) = leader c e in (j, last, ground (arith, q, before c last));
    waits = λ j c e. ground (arith, joined c, waits j c);
    is_open = is_open;
    unused = unused;
  }

  start-IsSingle : (i : ℕ) → s.place i ≡ idle → s.refreshing ≡ none → IsSingle (start_lead s i)
  start-IsSingle i e q = record {
    led = λ j c last f. ground (arith, led j c last);
    unique = λ j k c d last last' f g.
        ground (arith, led j c last, led k d last', unique j k c d last last');
    leader = λ c f. (i, s.view.snap, ground (arith, f));
    waits = λ j c f. ground (arith, waits j c);
    is_open = λ c f. ground (arith, unused s.made);
    unused = λ c le. ground (arith, unused c);
  }

  end-IsSingle :
      (i channel : ℕ) (last : Option Snapshot) (r : Result Snapshot)
      → s.place i ≡ leading channel last
      → IsSingle (end_lead s i channel last r)
  end-IsSingle i channel last r e = record {
    led = λ j c l f. ground (arith, unique i j channel c last l);
    unique = λ j k c d l l' f g. ground (arith, unique j k c d l l');
    leader = λ c f. absurd (ground (arith, f));
    waits = λ j c f. ground (arith, led i channel last, waits j c);
    is_open = λ c f. absurd (ground (arith, f));
    unused = λ c le. ground (arith, led i channel last, is_open channel, unused c);
  }

Step-IsSingle : {s t : Calls} → Step s t → IsSingle s → IsSingle t
Step-IsSingle {s} (hits i now snap e q) inv =
    move-IsSingle s inv i _ (λ c last f. ground (arith, e, f)) (λ c last f. cc) (λ c f. cc)
Step-IsSingle {s} (joins i now channel e q f) inv =
    move-IsSingle s inv i _ (λ c last g. ground (arith, e, g)) (λ c last g. cc)
      (λ c g. ground (arith, f, g))
Step-IsSingle {s} (leads i now e q f) inv = start-IsSingle s inv i e f
Step-IsSingle {s} (finishes i channel last r e read) inv = end-IsSingle s inv i channel last r e
Step-IsSingle {s} (wakes i channel e q) inv =
    move-IsSingle s inv i _ (λ c last f. ground (arith, e, f)) (λ c last f. cc) (λ c f. cc)
Step-IsSingle {s} (gives_up i channel x e) inv =
    move-IsSingle s inv i _ (λ c last f. ground (arith, e, f)) (λ c last f. cc) (λ c f. cc)
Step-IsSingle {s} (reads i e) inv =
    move-IsSingle s inv i _ (λ c last f. ground (arith, e, f)) (λ c last f. cc) (λ c f. cc)
Step-IsSingle {s} (leaves i got e) inv =
    move-IsSingle s inv i _ (λ c last f. ground (arith, e, f)) (λ c last f. cc) (λ c f. cc)
Step-IsSingle invalidates inv = record {
  led = inv.led;
  unique = inv.unique;
  leader = inv.leader;
  waits = inv.waits;
  is_open = inv.is_open;
  unused = inv.unused;
}

quiet-IsSingle : (view : StateView) → IsSingle (quiet view)
quiet-IsSingle view = record {
  led = λ i c last e. absurd (ground (arith, e));
  unique = λ i j c d last last' e f. absurd (ground (arith, e));
  leader = λ c e. absurd (ground (arith, e));
  waits = λ i c e. absurd (ground (arith, e));
  is_open = λ c e. absurd (ground (arith, e));
  unused = λ c le. refl;
}

-- In any interleaving of the calls of Get and Invalidate on a new view, at most one caller leads a
-- refresh, its channel is still open, and whoever waits does so on that channel or on a closed
-- one.
pub Reach-IsSingle : (view : StateView) {s : Calls} → Reach (quiet view) s → IsSingle s
Reach-IsSingle view here = quiet-IsSingle view
Reach-IsSingle view (next r st) = Step-IsSingle st (Reach-IsSingle view r)
