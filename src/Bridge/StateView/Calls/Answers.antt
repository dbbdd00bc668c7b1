-- ===== src/Bridge/StateView/Calls/Answers.antt =====
-- bridge/stateview.go: what callers that interleave are answered.
use orchard_gh_bridge.Base.{
  ℕ, ◌≡◌, ◌⊎◌, refl, subst, inl, inr, true, Option, none, some, is_some, Result, ok, err, arith,
}
use orchard_gh_bridge.Base.Time.{Time, Duration}
use orchard_gh_bridge.Bridge.StateView.{
  Snapshot, StateView, Got, invalidate, finish_refresh, join_refresh,
}
use orchard_gh_bridge.Bridge.StateView.Calls.{
  Place, leading, returned, Calls, write_at, cached, IsListed, IsRead, end_lead, Step, hits, joins,
  leads, finishes, wakes, gives_up, reads, leaves, invalidates, Reach, here, next, quiet,
}

-- A snapshot that is kept is one of a read.
abbrev pub IsKept : Duration → Option Snapshot → Type 0
IsKept stale_after none = Unit
IsKept stale_after (some snap) = IsListed stale_after snap

-- An answer has a snapshot or an error, and the snapshot is one of a read.
abbrev pub IsAnswer : Duration → Got → Type 0
IsAnswer stale_after got =
    ((is_some got.0 ≡ true) ⊎ (is_some got.1 ≡ true)) × IsKept stale_after got.0

-- What a caller holds.
abbrev IsHonest : Duration → Place → Type 0
IsHonest stale_after (leading channel last) = IsKept stale_after last
IsHonest stale_after (returned got) = IsAnswer stale_after got
IsHonest stale_after _ = Unit

pub record AreAnswered (stale_after : Duration) (s : Calls) : Type 0 where
  pub limit : s.view.stale_after ≡ stale_after
  pub kept : IsKept stale_after s.view.snap
  pub places : (i : ℕ) → IsHonest stale_after (s.place i)

module _ (stale_after : Duration) where
  cached-IsKept :
      (now : Time) (s : StateView) (snap : Snapshot)
      → IsKept stale_after s.snap
      → cached now s ≡ some snap
      → IsListed stale_after snap
  unfolding cached
  cached-IsKept now s snap h e = ground (arith, h, e)

  move-places :
      (f : ℕ → Place) (i : ℕ) (p : Place)
      → ((j : ℕ) → IsHonest stale_after (f j))
      → IsHonest stale_after p
      → (j : ℕ) → IsHonest stale_after (write_at f i p j)
  move-places f i p all h j = ground (arith, all j, h)

  end-AreAnswered :
      (s : Calls) (i channel : ℕ) (last : Option Snapshot) (r : Result Snapshot)
      → s.place i ≡ leading channel last
      → IsRead stale_after r
      → AreAnswered stale_after s
      → AreAnswered stale_after (end_lead s i channel last r)
  unfolding finish_refresh
  end-AreAnswered s i channel last (ok snap) e read h = record {
    limit = h.limit;
    kept = read;
    places = move-places s.place i _ h.places (inl refl, read);
  }
  end-AreAnswered s i channel last (err x) e read h = record {
    limit = h.limit;
    kept = h.kept;
    places =
        move-places s.place i _ h.places (inr refl, subst (IsHonest stale_after) e (h.places i));
  }

  join_refresh-IsAnswer :
      (s : StateView) → IsKept stale_after s.snap → IsAnswer stale_after (join_refresh s)
  unfolding join_refresh
  join_refresh-IsAnswer s h = ground (arith, h)

  Step-AreAnswered :
      {s t : Calls} → Step s t → AreAnswered stale_after s → AreAnswered stale_after t
  unfolding invalidate
  Step-AreAnswered {s} (hits i now snap e q) h =
      let listed = cached-IsKept now s.view snap h.kept q in
      record {
        limit = h.limit;
        kept = h.kept;
        places = move-places s.place i _ h.places (inl refl, listed);
      }
  Step-AreAnswered {s} (joins i now channel e q f) h = record {
    limit = h.limit;
    kept = h.kept;
    places = move-places s.place i _ h.places tt;
  }
  Step-AreAnswered {s} (leads i now e q f) h = record {
    limit = h.limit;
    kept = h.kept;
    places = move-places s.place i _ h.places h.kept;
  }
  Step-AreAnswered {s} (finishes i channel last r e read) h =
      end-AreAnswered s i channel last r e (subst (λ d. IsRead d r) (h.limit) read) h
  Step-AreAnswered {s} (wakes i channel e q) h = record {
    limit = h.limit;
    kept = h.kept;
    places = move-places s.place i _ h.places tt;
  }
  Step-AreAnswered {s} (gives_up i channel x e) h = record {
    limit = h.limit;
    kept = h.kept;
    places = move-places s.place i _ h.places (inr refl, tt);
  }
  Step-AreAnswered {s} (reads i e) h = record {
    limit = h.limit;
    kept = h.kept;
    places = move-places s.place i _ h.places (join_refresh-IsAnswer s.view h.kept);
  }
  Step-AreAnswered {s} (leaves i got e) h = record {
    limit = h.limit;
    kept = h.kept;
    places = move-places s.place i _ h.places tt;
  }
  Step-AreAnswered invalidates h = record { limit = h.limit; kept = tt; places = h.places }

  Reach-AreAnswered :
      {s t : Calls} → Reach s t → AreAnswered stale_after s → AreAnswered stale_after t
  Reach-AreAnswered here h = h
  Reach-AreAnswered (next r st) h = Step-AreAnswered st (Reach-AreAnswered r h)

-- However the calls of Get and Invalidate on a view without a snapshot interleave, each answer has
-- a snapshot or an error, and its snapshot was made from its own lists of VMs and workers, with
-- the limit of the view on the age of a heartbeat.
pub Reach-IsAnswer :
    (view : StateView) {s : Calls} (i : ℕ) (got : Got)
    → view.snap ≡ none
    → Reach (quiet view) s
    → s.place i ≡ returned got
    → IsAnswer view.stale_after got
Reach-IsAnswer view i got empty r e =
    let h =
      Reach-AreAnswered view.stale_after r
        (record { limit = refl; kept = rw empty tt; places = λ j. tt }) in
    subst (IsHonest view.stale_after) e (h.places i)
