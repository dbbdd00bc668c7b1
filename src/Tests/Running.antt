-- ===== src/Tests/Running.antt =====
-- Two bridges and the clean-up at concrete inputs.
use orchard_gh_bridge.Orchard.{is_terminal}
use orchard_gh_bridge.Base.{
  has_prefix, contains_char, drop_prefix, All, Option, Error, ℕ, ◌+◌, ◌-◌, length, ◌≡◌, refl, codes,
  [], ◌∷◌, lookup, text_eq, insert, inl, inr, arith,
}
use orchard_gh_bridge.Base.Int.{pos}
use orchard_gh_bridge.Bridge.Name.{
  vm_name_prefix, sanitize, owns, trim_right, trim_left, replace_char, to_lower,
}
use orchard_gh_bridge.Bridge.StateView.{
  get, finish_refresh, new_snapshot, managed_vms_for_scale_set, belongs_to,
}
use orchard_gh_bridge.Bridge.Fleet.{Fleet, Bridge}
use orchard_gh_bridge.Bridge.Scaler.{adopt, handle_desired_runner_count, hydrate_from_orchard}
use orchard_gh_bridge.Bridge.Owned.{AreOwned}
use orchard_gh_bridge.Bridge.Capacity.{adopt_existing}
use orchard_gh_bridge.Bridge.System.{
  System, hydrates, desires, first, later, acts, reserves, turns, here, next, still, more, Turn,
  Reach,
}
use orchard_gh_bridge.Bridge.System.Owners.{IsNew, Reach-AreOwned, Reach-apart}
use orchard_gh_bridge.Bridge.System.Pool.{total, IsCovered, Turns-IsCovered}
use orchard_gh_bridge.Tests.Data.{vm_ci, services, pool-IsValid, fleet, bridge, cleanup}
use orchard_gh_bridge.Tests.Names.{uuid-IsUuid}

-- The bridges of the scale sets "ci" and "CI", whose VMs have the same prefix.
abbrev lower : Bridge ℕ
lower = record bridge { active_vms = [] }

abbrev upper : Bridge ℕ
upper = record lower { scale_set_name = codes "CI" }

abbrev both : System ℕ
both = record { bridges = lower ∷ upper ∷ []; cleanup = cleanup; fleet = fleet; owed = 0 }

both-IsNew : All IsNew both.bridges
unfolding vm_name_prefix sanitize trim_right trim_left replace_char to_lower
both-IsNew = (
  record { empty = refl; short = omega arith },
  (record { empty = refl; short = omega arith }, tt),
)

-- What a handler leaves.
abbrev Left : Type 0
Left = (ℕ × Option Error) × Bridge ℕ × Fleet ℕ

-- The first bridge adopts its VMs, then the second one.
abbrev adopted : Left
adopted = hydrate_from_orchard services lower fleet

abbrev adopted_too : Left
adopted_too = hydrate_from_orchard services upper adopted.2

abbrev after_both : System ℕ
after_both = record {
  bridges = adopted.1 ∷ adopted_too.1 ∷ [];
  cleanup = cleanup;
  fleet = adopted_too.2;
  owed = 0 + adopted.0.0 + adopted_too.0.0;
}

-- Each adopts one VM.
adopted-one : (length adopted.1.active_vms ≡ 1) × (adopted.0.0 ≡ 1) × (adopted_too.0.0 ≡ 1)
unfolding hydrate_from_orchard adopt get finish_refresh new_snapshot managed_vms_for_scale_set
    belongs_to owns vm_name_prefix sanitize trim_right trim_left replace_char to_lower insert lookup
    text_eq has_prefix contains_char drop_prefix is_terminal
adopted-one = (refl, refl, refl)

lower_adopts : Turn services both (record {
  bridges = adopted.1 ∷ upper ∷ [];
  cleanup = cleanup;
  fleet = adopted.2;
  owed = 0 + adopted.0.0;
})
lower_adopts = acts cleanup 0 (first (upper ∷ []) (hydrates lower fleet))

upper_adopts :
    Turn services
      (record {
        bridges = adopted.1 ∷ upper ∷ [];
        cleanup = cleanup;
        fleet = adopted.2;
        owed = 0 + adopted.0.0;
      })
      after_both
upper_adopts =
    acts cleanup (0 + adopted.0.0) (later adopted.1 (first [] (hydrates upper adopted.2)))

after_both-Reach : Reach services both after_both
after_both-Reach = next (next here (turns lower_adopts)) (turns upper_adopts)

-- Then the slots are reserved, and the first one scales up.
abbrev reserved : System ℕ
reserved = record after_both {
  fleet = record adopted_too.2 { capacity = adopt_existing (pos 2) adopted_too.2.capacity };
  owed = after_both.owed - 2;
}

owed_reserved : Turn services after_both reserved
unfolding hydrate_from_orchard adopt get finish_refresh new_snapshot managed_vms_for_scale_set
    belongs_to owns vm_name_prefix sanitize trim_right trim_left replace_char to_lower insert lookup
    text_eq has_prefix contains_char drop_prefix is_terminal
owed_reserved = reserves after_both 2 (omega arith) (omega arith)

abbrev scaled : Left
scaled = handle_desired_runner_count services (pos 3) adopted.1 reserved.fleet

abbrev after_all : System ℕ
after_all = record {
  bridges = scaled.1 ∷ adopted_too.1 ∷ [];
  cleanup = cleanup;
  fleet = scaled.2;
  owed = reserved.owed + 0;
}

lower_scales : Turn services reserved after_all
lower_scales = acts cleanup reserved.owed (
    first (adopted_too.1 ∷ [])
      (desires 3 adopted.1 reserved.fleet (omega arith) (omega (arith, adopted-one))))

Reach-AreOwned_example : AreOwned scaled.1.scale_set_name scaled.1.active_vms
Reach-AreOwned_example =
    Reach-AreOwned services (λ w. uuid-IsUuid) scaled.1 both-IsNew
      (next (next after_both-Reach (turns owed_reserved)) (turns lower_scales)) (inl refl)

Turns-IsCovered_example : IsCovered after_all
unfolding total
Turns-IsCovered_example =
    Turns-IsCovered services
      (more (more (more (more still lower_adopts) upper_adopts) owed_reserved) lower_scales)
      (record { valid = pool-IsValid; covered = omega arith })

Reach-apart_example :
    vm_name_prefix adopted.1.scale_set_name ≡ vm_name_prefix adopted_too.1.scale_set_name
unfolding hydrate_from_orchard adopt get finish_refresh new_snapshot managed_vms_for_scale_set
    belongs_to owns vm_name_prefix sanitize trim_right trim_left replace_char to_lower insert lookup
    text_eq has_prefix contains_char drop_prefix is_terminal
Reach-apart_example =
    Reach-apart services (λ w. uuid-IsUuid) adopted.1 adopted_too.1 vm_ci.name vm_ci.name vm_ci.name
      both-IsNew after_both-Reach (inl refl) (inr (inl refl)) refl refl
