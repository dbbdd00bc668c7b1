-- ===== src/Bridge/StateView/Fresh.antt =====
-- bridge/stateview.go: what Get answers, and an Invalidate that a refresh in flight undoes.
use orchard_gh_bridge.Base.{
  ◌≡◌, ◌⊎◌, refl, inl, inr, true, false, List, Option, none, some, Option-cases, is_some,
  Bool-cases, Error, Result-cases, Result, ok, err, is_ok, ◌>>=◌, arith,
}
use orchard_gh_bridge.Base.Int.{ltb_ℤ}
use orchard_gh_bridge.Base.Time.{sub_time}
use orchard_gh_bridge.Orchard.{Vm, Worker}
use orchard_gh_bridge.Bridge.Services.{Services}
use orchard_gh_bridge.Bridge.StateView.{
  Snapshot, StateView, Got, new_snapshot, invalidate, finish_refresh, join_refresh, refresh,
  lead_refresh, get,
}

module _ {W : Type 0} (svc : Services W) (s : StateView) where
  -- From the world `v` the controller was asked for VMs and workers, then the clock: the snapshot of
  -- what it listed is stored and answered.
  pub record IsRefreshed (v : W) (out : Got × StateView × W) : Type 0 where
    pub vms : List Vm
    pub workers : List Worker
    pub listed_vms : (svc.orchard.list_vms v).0 ≡ ok vms
    pub listed_workers : (svc.orchard.list_workers (svc.orchard.list_vms v).1).0 ≡ ok workers
    pub outcome :
        let (at, v') = svc.now (svc.orchard.list_workers (svc.orchard.list_vms v).1).1 in
        let snap = new_snapshot vms workers at s.stale_after in
        out ≡ ((some snap, none), record s { snap = some snap; last_err = none }, v')

  -- The controller's error, of the VMs or of the workers.
  abbrev pub IsError : W → Error → Type 0
  IsError v e =
      let (vms, v') = svc.orchard.list_vms v in
      (vms ≡ err e) ⊎ ((is_ok vms ≡ true) × ((svc.orchard.list_workers v').0 ≡ err e))

  -- The controller was asked from the world `v` and failed: its error is answered with the last
  -- snapshot, if any, which stays.
  pub record IsFailed (v : W) (out : Got × StateView × W) : Type 0 where
    pub error : Error
    pub why : IsError v error
    pub answer : out.0 ≡ (s.snap, some error)
    pub kept : out.1 ≡ record s { last_err = some error }

  abbrev pub IsLed : W → Got × StateView × W → Type 0
  IsLed v out = IsRefreshed v out ⊎ IsFailed v out

  pub lead-IsLed : (v : W) → IsLed v (lead_refresh svc s v)
  unfolding lead_refresh refresh finish_refresh
  lead-IsLed v = elim (Result-cases (svc.orchard.list_vms v).0) [
    | inr (e, q) ↦
        rw (q, lead_refresh, refresh, finish_refresh)
          (inr (record { error = e; why = inl q; answer = refl; kept = refl }))
    | inl (vms, q) ↦
        let v' = (svc.orchard.list_vms v).1 in
        elim (Result-cases (svc.orchard.list_workers v').0) [
          | inr (e, r) ↦
              rw (q, r, lead_refresh, refresh, finish_refresh)
                (inr (record { error = e; why = inr (rw q refl, r); answer = refl; kept = refl }))
          | inl (workers, r) ↦
              rw (q, r, lead_refresh, refresh, finish_refresh, ◌>>=◌)
                (inl (record {
                  vms = vms;
                  workers = workers;
                  listed_vms = q;
                  listed_workers = r;
                  outcome = refl;
                }))
        ]
  ]

module _ {W : Type 0} (svc : Services W) (s : StateView) (w : W) where
  -- There is a snapshot younger than the TTL, by the clock: it is answered, and nothing changes.
  pub record IsCached (out : Got × StateView × W) : Type 0 where
    pub snap : Snapshot
    pub had : s.snap ≡ some snap
    pub young : ltb_ℤ (sub_time (svc.now w).0 snap.fetched_at) s.ttl ≡ true
    pub outcome : out ≡ ((some snap, none), s, (svc.now w).1)

  -- There is no snapshot, or one that is not younger than the TTL: the controller is asked.
  abbrev pub IsAsked : Got × StateView × W → Type 0
  IsAsked out =
      ((s.snap ≡ none) × IsLed svc s w out)
      ⊎ ((snap : Snapshot) × (s.snap ≡ some snap)
          × (ltb_ℤ (sub_time (svc.now w).0 snap.fetched_at) s.ttl ≡ false)
          × IsLed svc s (svc.now w).1 out)

  abbrev pub IsAnswer : Got × StateView × W → Type 0
  IsAnswer out = IsCached out ⊎ IsAsked out

  pub get-lead : s.snap ≡ none → get svc s w ≡ lead_refresh svc s w
  unfolding get
  get-lead e = rw e refl

  pub get-young :
      (snap : Snapshot)
      → s.snap ≡ some snap
      → ltb_ℤ (sub_time (svc.now w).0 snap.fetched_at) s.ttl ≡ true
      → get svc s w ≡ ((some snap, none), s, (svc.now w).1)
  unfolding get
  get-young snap e young = rw (e, young) refl

  pub get-old :
      (snap : Snapshot)
      → s.snap ≡ some snap
      → ltb_ℤ (sub_time (svc.now w).0 snap.fetched_at) s.ttl ≡ false
      → get svc s w ≡ lead_refresh svc s (svc.now w).1
  unfolding get
  get-old snap e old = rw (e, old) refl

  -- StateView.Get answers the cached snapshot, without a call, if it is younger than the TTL. With
  -- no snapshot or an old one it asks the controller: it stores and answers the snapshot of what
  -- is listed, or answers the controller's error with the last snapshot, which it keeps.
  pub get-IsAnswer : IsAnswer (get svc s w)
  get-IsAnswer = elim (Option-cases s.snap) [
    | inl e ↦ rw (get-lead e) (inr (inl (e, lead-IsLed svc s w)))
    | inr (snap, e) ↦
        let (now, w') = svc.now w in
        elim (Bool-cases (ltb_ℤ (sub_time now snap.fetched_at) s.ttl)) [
          | inl young ↦
              rw (get-young snap e young)
                (inl (record { snap = snap; had = e; young = young; outcome = refl }))
          | inr old ↦ rw (get-old snap e old) (inr (inr (snap, e, old, lead-IsLed svc s w')))
        ]
  ]

module _ {W : Type 0} (svc : Services W) (s : StateView) (w : W) where
  get-stored :
      (snap : Snapshot) (r : Result Snapshot)
      → r ≡ ok snap
      → ltb_ℤ (sub_time (svc.now w).0 snap.fetched_at) s.ttl ≡ true
      → get svc (finish_refresh s.snap (invalidate s) r).1 w
        ≡ ((some snap, none), record s { snap = some snap; last_err = none }, (svc.now w).1)
  unfolding get finish_refresh invalidate
  get-stored snap r read young = rw read (rw young refl)

  -- With no refresh in flight, the Get after an Invalidate asks the controller, whatever was
  -- cached. But an Invalidate while a refresh is in flight is undone when that refresh ends: until
  -- the TTL has passed, Get answers the snapshot that was read before the Invalidate, without a
  -- call.
  pub invalidate-finish_refresh :
      (before : W) (snap : Snapshot)
      → (refresh svc s before).0 ≡ ok snap
      → ltb_ℤ (sub_time (svc.now w).0 snap.fetched_at) s.ttl ≡ true
      → IsLed svc (invalidate s) w (get svc (invalidate s) w)
        × (get svc (finish_refresh s.snap (invalidate s) (refresh svc s before).0).1 w
            ≡ ((some snap, none), record s { snap = some snap; last_err = none }, (svc.now w).1))
  unfolding get invalidate
  invalidate-finish_refresh before snap read young =
      (lead-IsLed svc (invalidate s) w, get-stored snap (refresh svc s before).0 read young)

-- A caller that joined a refresh gets a snapshot or an error, and after a refresh that succeeded
-- and no Invalidate since, just the new snapshot.
pub join_refresh_lem :
    (s : StateView)
    → ((is_some (join_refresh s).0 ≡ true) ⊎ (is_some (join_refresh s).1 ≡ true))
      × ((last : Option Snapshot) (snap : Snapshot)
          → join_refresh (finish_refresh last s (ok snap)).1 ≡ (some snap, none))
unfolding join_refresh finish_refresh
join_refresh_lem s = (
  elim (Option-cases s.snap) [
    | inl e ↦ inr (ground (arith, e))
    | inr (snap, e) ↦ inl (ground (arith, e))
  ],
  λ last snap. refl,
)
