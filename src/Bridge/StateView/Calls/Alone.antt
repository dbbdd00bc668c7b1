-- ===== src/Bridge/StateView/Calls/Alone.antt =====
-- bridge/stateview.go: that a call of Get with no other caller is a run of the calls that interleave.
use orchard_gh_bridge.Base.{
  ℕ, ◌≡◌, ◌==◌, refl, inl, inr, false, none, some, Option-cases, Bool-cases, arith,
}
use orchard_gh_bridge.Base.Int.{ltb_ℤ}
use orchard_gh_bridge.Base.Time.{sub_time}
use orchard_gh_bridge.Bridge.Services.{Services}
use orchard_gh_bridge.Bridge.StateView.{StateView, new_snapshot, refresh, lead_refresh, get}
use orchard_gh_bridge.Bridge.StateView.Fresh.{get-lead, get-young, get-old}
use orchard_gh_bridge.Bridge.StateView.Calls.{
  Place, idle, leading, returned, Calls, cached, IsRead, go_to, start_lead, end_lead, Step, hits,
  leads, finishes, Reach, here, next,
}

module _ {W : Type 0} (svc : Services W) where
  refresh-IsRead : (s : StateView) (w : W) → IsRead s.stale_after (refresh svc s w).0
  unfolding refresh new_snapshot
  refresh-IsRead s w = ground arith

-- The system after a call of the caller `i`: its answer and the view that it leaves. No refresh is
-- in flight, and the other callers stand where they stood.
pub record IsRun (s t : Calls) (i : ℕ) (view : StateView) (place : Place) : Type 0 where
  pub run : Reach s t
  pub view_eq : t.view ≡ view
  pub place_eq : t.place i ≡ place
  pub idle_again : t.refreshing ≡ none
  pub others : (j : ℕ) → (i == j) ≡ false → t.place j ≡ s.place j

module _ {W : Type 0} (svc : Services W) (s : Calls) (i : ℕ) where
  lead-IsRun :
      (w : W)
      → s.place i ≡ idle
      → s.refreshing ≡ none
      → cached (svc.now w).0 s.view ≡ none
      → (v : W)
      → let (got, view, _) = lead_refresh svc s.view v in
        (t : Calls) × IsRun s t i view (returned got)
  unfolding lead_refresh
  lead-IsRun w free none_led stale v =
      let (r, _) = refresh svc s.view v in
      let leading_now : Step s (start_lead s i) = leads i (svc.now w).0 free stale none_led in
      let at_i : (start_lead s i).place i ≡ leading s.made s.view.snap = ground arith in
      (
        end_lead (start_lead s i) i s.made s.view.snap r,
        record {
          run =
              next (next here leading_now)
                (finishes i s.made s.view.snap r at_i (refresh-IsRead svc s.view v));
          view_eq = refl;
          place_eq = ground arith;
          idle_again = refl;
          others = λ j e. ground (arith, e);
        },
      )

  -- A call of Get by a caller that finds no refresh in flight, run to its end with no other step
  -- between, is a run of the calls that interleave: it ends with the same answer and the same
  -- view, with no refresh in flight and the other callers where they stood.
  pub get-IsRun :
      (w : W)
      → s.place i ≡ idle
      → s.refreshing ≡ none
      → let (got, view, _) = get svc s.view w in (t : Calls) × IsRun s t i view (returned got)
  unfolding cached
  get-IsRun w free none_led = elim (Option-cases s.view.snap) [
    | inl e ↦ rw (get-lead svc s.view w e) (lead-IsRun w free none_led (rw e refl) w)
    | inr (snap, e) ↦
        let now = (svc.now w).0 in
        elim (Bool-cases (ltb_ℤ (sub_time now snap.fetched_at) s.view.ttl)) [
          | inl young ↦ rw (get-young svc s.view w snap e young) (
            go_to s i (returned (some snap, none)),
            record {
              run = next here (hits i now snap free (rw (e, young) refl));
              view_eq = refl;
              place_eq = ground arith;
              idle_again = none_led;
              others = λ j q. ground (arith, q);
            },
          )
          | inr old ↦
              rw (get-old svc s.view w snap e old)
                (lead-IsRun w free none_led (rw (e, old) refl) (svc.now w).1)
        ]
  ]
