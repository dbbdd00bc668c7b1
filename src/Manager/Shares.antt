-- ===== src/Manager/Shares.antt =====
-- manager/manager.go: what recomputeScaleSetShares gives each scale set.
use orchard_gh_bridge.Base.{
  ℕ, zero, suc, ◌+◌, ◌-◌, ◌<◌, ◌≡◌, refl, ◌∙◌, if◌then◌else◌, List, [], ◌∷◌, get_elem?, Dict, Text,
  some, arith,
}
use orchard_gh_bridge.Base.Int.{pos, two_63, ltb_ℤ, sub_int_pos}
use orchard_gh_bridge.Bridge.Services.{Services}
use orchard_gh_bridge.Bridge.StateView.{Snapshot, StateView, get}
use orchard_gh_bridge.Manager.{
  Handle, worker_capacity, active_of, others_active, share_of, push_shares,
  recompute_scale_set_shares,
}

-- The VMs of all scale sets on the workers with these labels.
abbrev pub total_active : Snapshot → Dict Text → List Handle → ℕ
total_active snap labels [] = 0
total_active snap labels (h ∷ hs) = active_of snap labels h + total_active snap labels hs

others_active-past :
    (snap : Snapshot) (labels : Dict Text) (i j : ℕ) (hs : List Handle)
    → i < j
    → others_active snap labels i j hs ≡ total_active snap labels hs
unfolding others_active
others_active-past snap labels i j [] lt = refl
others_active-past snap labels i j (h ∷ hs) lt =
    ground (arith, others_active-past snap labels i (j + 1) hs)

others_active-at :
    (snap : Snapshot) (labels : Dict Text) (i k j : ℕ) (hs : List Handle) (h : Handle)
    → i ≡ k + j
    → get_elem? hs k ≡ some h
    → others_active snap labels i j hs + active_of snap labels h ≡ total_active snap labels hs
unfolding others_active
others_active-at snap labels i k j [] h place e = ground arith
others_active-at snap labels i zero j (x ∷ hs) h place e =
    ground (arith, others_active-past snap labels i (j + 1) hs)
others_active-at snap labels i (suc k) j (x ∷ hs) h place e =
    ground (arith, others_active-at snap labels i k (j + 1) hs h)

push_shares-at :
    (snap : Snapshot) (all : List Handle) (n i : ℕ) (hs : List Handle) (k : ℕ) (h : Handle)
    → n ≡ i + k
    → get_elem? hs k ≡ some h
    → get_elem? (push_shares snap all i hs) k
      ≡ some (
          if ltb_ℤ (pos 0) h.static_max_runners
          then h
          else record h { max_runners = share_of snap all n h })
unfolding push_shares
push_shares-at snap all n i [] k h place e = ground arith
push_shares-at snap all n i (x ∷ hs) zero h place e =
    let here : n ≡ i = omega arith in ground (arith, here)
push_shares-at snap all n i (x ∷ hs) (suc k) h place e =
    ground (arith, push_shares-at snap all n (i + 1) hs k h)

share_of-exact :
    (snap : Snapshot) (all : List Handle) (i : ℕ) (h : Handle) (slots : ℕ)
    → get_elem? all i ≡ some h
    → worker_capacity h.auto_size h.reserve_cpu h.reserve_memory_mib snap.workers h.vm_labels
      ≡ pos slots
    → slots < two_63
    → total_active snap h.vm_labels all < two_63
    → share_of snap all i h
      ≡ pos (slots - (total_active snap h.vm_labels all - active_of snap h.vm_labels h))
unfolding share_of
share_of-exact snap all i h slots e c fits small =
    let others = others_active snap h.vm_labels i 0 all in
    let split = others_active-at snap h.vm_labels i i 0 all h (omega arith) e in
    rw (c, sub_int_pos slots others fits (omega arith)) (ground arith)

module _ {W : Type 0} (svc : Services W) where
  -- With a snapshot at hand, and as long as the numbers are ints, recomputeScaleSetShares gives
  -- each scale set without a configured maxRunners the slots of its workers less the VMs that the
  -- other scale sets run there, never below zero, and leaves the others alone.
  pub recompute_scale_set_shares_lem :
      (s : StateView) (handles : List Handle) (w : W) (i : ℕ) (h : Handle) (slots : ℕ)
      (snap : Snapshot)
      → (get svc s w).0.0 ≡ some snap
      → get_elem? handles i ≡ some h
      → worker_capacity h.auto_size h.reserve_cpu h.reserve_memory_mib snap.workers h.vm_labels
        ≡ pos slots
      → slots < two_63
      → total_active snap h.vm_labels handles < two_63
      → get_elem? (recompute_scale_set_shares svc s handles w).0 i
        ≡ some (
            if ltb_ℤ (pos 0) h.static_max_runners then h else record h {
              max_runners =
                  pos (
                    slots - (total_active snap h.vm_labels handles - active_of snap h.vm_labels h));
            })
  unfolding recompute_scale_set_shares
  recompute_scale_set_shares_lem s handles w i h slots snap got e c fits small =
      rw (got, recompute_scale_set_shares)
        (push_shares-at snap handles i 0 handles i h (omega arith) e
          ∙ rw (share_of-exact snap handles i h slots e c fits small) refl)
