-- ===== src/Bridge/StateView/Calls.antt =====
-- bridge/stateview.go: calls of Get and Invalidate that interleave. A step is what one caller does
-- while it holds the mutex, or its wake-up from the channel that a refresh closes at its end; the
-- reads of a refresh happen at some time between its start and its end.
pub mod Single
pub mod Answers
pub mod Alone
use orchard_gh_bridge.Base.{
  ℕ, ◌+◌, ◌==◌, ◌≡◌, Bool, true, false, if◌then◌else◌, Option, none, some, Error, Result, ok, err,
}
use orchard_gh_bridge.Base.Int.{ltb_ℤ}
use orchard_gh_bridge.Base.Time.{Time, Duration, sub_time}
use orchard_gh_bridge.Bridge.StateView.{
  Snapshot, StateView, Got, new_snapshot, invalidate, finish_refresh, join_refresh,
}

-- Where a caller of Get stands, with its local variables.
pub data Place : Type 0 where
  idle : Place
  -- it leads the refresh that closes the channel; `last` is lastSnap
  leading : (channel : ℕ) → (last : Option Snapshot) → Place
  -- it waits on the channel of a refresh that another one leads
  waiting : (channel : ℕ) → Place
  -- the channel was closed, and it takes the mutex again
  woken : Place
  returned : Got → Place

-- The shared view, the channel of the refresh in flight, how many channels were made, which of them
-- are closed, and where each caller stands.
pub record Calls : Type 0 where
  pub view : StateView
  pub refreshing : Option ℕ
  pub made : ℕ
  pub closed : ℕ → Bool
  pub place : ℕ → Place

abbrev pub write_at {ℓ} : {A : Type ℓ} → (ℕ → A) → ℕ → A → ℕ → A
write_at f i a j = if i == j then a else f j

-- The snapshot that Get answers at once: the last one, younger than the TTL.
unfoldable pub cached : Time → StateView → Option Snapshot
cached now s = elim s.snap [
  | none ↦ none
  | some snap ↦ if ltb_ℤ (sub_time now snap.fetched_at) s.ttl then some snap else none
]

-- A snapshot that was made from its own lists, with that limit on the age of a heartbeat.
abbrev pub IsListed : Duration → Snapshot → Type 0
IsListed stale_after snap =
    snap ≡ new_snapshot snap.vms snap.all_workers snap.fetched_at stale_after

-- What refresh may answer: an error, or a snapshot of what the controller listed.
abbrev pub IsRead : Duration → Result Snapshot → Type 0
IsRead stale_after (ok snap) = IsListed stale_after snap
IsRead stale_after (err e) = Unit

abbrev pub go_to : Calls → ℕ → Place → Calls
go_to s i p = record s { place = write_at s.place i p }

-- The start of a refresh.
abbrev pub start_lead : Calls → ℕ → Calls
start_lead s i = record s {
  refreshing = some s.made;
  made = s.made + 1;
  place = write_at s.place i (leading s.made s.view.snap);
}

-- The end of a refresh.
abbrev pub end_lead : Calls → ℕ → ℕ → Option Snapshot → Result Snapshot → Calls
end_lead s i channel last r = record s {
  view = (finish_refresh last s.view r).1;
  refreshing = none;
  closed = write_at s.closed channel true;
  place = write_at s.place i (returned (finish_refresh last s.view r).0);
}

pub data Step (s : Calls) : Calls → Type 0 where
  hits :
      (i : ℕ) (now : Time) (snap : Snapshot)
      → s.place i ≡ idle
      → cached now s.view ≡ some snap
      → Step s (go_to s i (returned (some snap, none)))
  joins :
      (i : ℕ) (now : Time) (channel : ℕ)
      → s.place i ≡ idle
      → cached now s.view ≡ none
      → s.refreshing ≡ some channel
      → Step s (go_to s i (waiting channel))
  leads :
      (i : ℕ) (now : Time)
      → s.place i ≡ idle
      → cached now s.view ≡ none
      → s.refreshing ≡ none
      → Step s (start_lead s i)
  finishes :
      (i channel : ℕ) (last : Option Snapshot) (r : Result Snapshot)
      → s.place i ≡ leading channel last
      → IsRead s.view.stale_after r
      → Step s (end_lead s i channel last r)
  wakes :
      (i channel : ℕ)
      → s.place i ≡ waiting channel
      → s.closed channel ≡ true
      → Step s (go_to s i woken)
  -- the caller's context is cancelled while it waits
  gives_up :
      (i channel : ℕ) (e : Error)
      → s.place i ≡ waiting channel
      → Step s (go_to s i (returned (none, some e)))
  reads : (i : ℕ) → s.place i ≡ woken → Step s (go_to s i (returned (join_refresh s.view)))
  -- the caller takes its answer, and may call again
  leaves : (i : ℕ) (got : Got) → s.place i ≡ returned got → Step s (go_to s i idle)
  invalidates : Step s (record s { view = invalidate s.view })

pub data Reach (s : Calls) : Calls → Type 0 where
  here : Reach s s
  next : {t u : Calls} → Reach s t → Step t u → Reach s u

-- A view that nobody calls yet.
abbrev pub quiet : StateView → Calls
quiet view = record {
  view = view;
  refreshing = none;
  made = 0;
  closed = λ _. false;
  place = λ _. idle;
}
