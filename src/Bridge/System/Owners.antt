-- ===== src/Bridge/System/Owners.antt =====
-- bridge/bridge.go: whose VMs the bridges have active, in any order of the steps.
use orchard_gh_bridge.Base.{
  ◌+◌, ◌≤◌, ◌≡◌, refl, sym, subst, Text, List, [], ◌∷◌, length, map, In, All, In-All, lookup, some,
  ℕ,
}
use orchard_gh_bridge.Bridge.Name.{vm_name_prefix}
use orchard_gh_bridge.Bridge.Name.Format.{IsUuid}
use orchard_gh_bridge.Bridge.Name.Owner.{owns_unique}
use orchard_gh_bridge.Bridge.Services.{Services}
use orchard_gh_bridge.Bridge.Fleet.{Fleet, Bridge}
use orchard_gh_bridge.Bridge.Owned.{AreOwned, IsOwner}
use orchard_gh_bridge.Bridge.Scaler.{purge_active_vm}
use orchard_gh_bridge.Bridge.Scaler.Owned.{
  purge_active_vm-IsOwner, handle_desired_runner_count-IsOwner, handle_job_started-IsOwner,
  handle_job_completed-IsOwner, hydrate_from_orchard-IsOwner,
}
use orchard_gh_bridge.Base.Int.{pos}
use orchard_gh_bridge.Bridge.System.{
  System, Handles, desires, starts, completes, hydrates, Acts, first, later, Turn, acts, reserves,
  purges, moves, Step, turns, sweeps, Reach, here, next,
}

-- A bridge before its first call, with a name that leaves room for a suffix.
pub record IsNew {W : Type 0} (b : Bridge W) : Type 0 where
  pub empty : b.active_vms ≡ []
  pub short : length (vm_name_prefix b.scale_set_name) + 8 ≤ 63

module _ {W : Type 0} where
  IsNew-IsOwner : (b : Bridge W) → IsNew b → IsOwner b
  unfolding lookup
  IsNew-IsOwner b h = record {
    scale_set = b.scale_set_name;
    named = refl;
    short = h.short;
    owned = rw h.empty (λ name vm e. cc);
  }

  news-All : (bs : List (Bridge W)) → All IsNew bs → All IsOwner bs
  news-All [] h = h
  news-All (b ∷ bs) (h, hs) = (IsNew-IsOwner b h, news-All bs hs)

  purges-All :
      (name : Text) (bs : List (Bridge W))
      → All IsOwner bs
      → All IsOwner (map (purge_active_vm name) bs)
  purges-All name [] h = h
  purges-All name (b ∷ bs) (h, hs) = (purge_active_vm-IsOwner name b h, purges-All name bs hs)

module _ {W : Type 0} (svc : Services W) (uuids : (w : W) → IsUuid (svc.new_uuid w).0) where
  Handles-IsOwner :
      {b : Bridge W} {f : Fleet W} {b' : Bridge W} {f' : Fleet W} {n : ℕ}
      → Handles svc b f b' f' n
      → IsOwner b
      → IsOwner b'
  Handles-IsOwner (desires k b f small ints) h =
      handle_desired_runner_count-IsOwner svc uuids (pos k) b f h
  Handles-IsOwner (starts name b f) h = handle_job_started-IsOwner svc name b f h
  Handles-IsOwner (completes name id b f) h = handle_job_completed-IsOwner svc name id b f h
  Handles-IsOwner (hydrates b f) h = hydrate_from_orchard-IsOwner svc b f h

  Acts-All :
      {bs bs' : List (Bridge W)} {f f' : Fleet W} {n : ℕ}
      → Acts svc bs f bs' f' n
      → All IsOwner bs
      → All IsOwner bs'
  Acts-All (first bs a) (h, hs) = (Handles-IsOwner a h, hs)
  Acts-All (later b a) (h, hs) = (h, Acts-All a hs)

  Turn-All : {s t : System W} → Turn svc s t → All IsOwner s.bridges → All IsOwner t.bridges
  Turn-All (acts c owed a) h = Acts-All a h
  Turn-All (reserves s n le small) h = h
  Turn-All (purges s name) h = purges-All name s.bridges h
  Turn-All (moves s w) h = h

  Step-All : {s t : System W} → Step svc s t → All IsOwner s.bridges → All IsOwner t.bridges
  Step-All (turns u) h = Turn-All u h
  Step-All (sweeps s) h = h

  Reach-All : {s t : System W} → Reach svc s t → All IsOwner s.bridges → All IsOwner t.bridges
  Reach-All here h = h
  Reach-All (next r st) h = Step-All st (Reach-All r h)

  -- Where the UUIDs begin with eight hexadecimal digits, however the calls of new bridges, whose
  -- scale sets have names that are not cut, the sweeps and the purges interleave, each VM that a
  -- bridge has active stands under its own name and belongs to the bridge's scale set.
  pub Reach-AreOwned :
      {s t : System W} (b : Bridge W)
      → All IsNew s.bridges
      → Reach svc s t
      → In b t.bridges
      → AreOwned b.scale_set_name b.active_vms
  Reach-AreOwned {t = t} b new r i =
      let h = In-All IsOwner b t.bridges i (Reach-All r (news-All _ new)) in
      subst (λ name. AreOwned name b.active_vms) (sym h.named) h.owned

  -- However the calls of new bridges, the sweeps and the purges interleave, with UUIDs that begin
  -- with eight hexadecimal digits and names of scale sets that are not cut, two bridges that have
  -- the same VM active have scale sets with the same name prefix.
  pub Reach-apart :
      {s t : System W} (a b : Bridge W) (name vm vm' : Text)
      → All IsNew s.bridges
      → Reach svc s t
      → In a t.bridges
      → In b t.bridges
      → lookup name a.active_vms ≡ some vm
      → lookup name b.active_vms ≡ some vm'
      → vm_name_prefix a.scale_set_name ≡ vm_name_prefix b.scale_set_name
  Reach-apart a b name vm vm' new r i j e e' =
      owns_unique a.scale_set_name b.scale_set_name name (Reach-AreOwned a new r i name vm e).1
        (Reach-AreOwned b new r j name vm' e').1
