-- ===== src/Tests/Names.antt =====
-- VM names at concrete inputs.
use orchard_gh_bridge.Base.{◌≤◌, ◌≡◌, refl, true, Text, codes, length, All, arith}
use orchard_gh_bridge.Bridge.Name.{
  is_label_char, replace_char, to_lower, trim_left, trim_right, sanitize, vm_name_prefix, cut_name,
  vm_name,
}
use orchard_gh_bridge.Bridge.Name.Trim.{IsTrimmedRight}
use orchard_gh_bridge.Bridge.Name.Format.{IsUuid, vm_name-IsLabel}
use orchard_gh_bridge.Bridge.Name.Owner.{vm_name-collision}
use orchard_gh_bridge.Tests.Data.{ci, uuid}

abbrev other_uuid : Text
other_uuid = codes "fedcba98-0000"

pub uuid-IsUuid : IsUuid uuid
uuid-IsUuid = record { short = refl; hex = ground arith }

other_uuid-IsUuid : IsUuid other_uuid
other_uuid-IsUuid = record { short = refl; hex = ground arith }

-- Fifty letters.
abbrev long : Text
long = codes "abcdefghijabcdefghijabcdefghijabcdefghijabcdefghij"

vm_name_test : vm_name ci uuid ≡ codes "gha-orchard-ci-0123abcd"
unfolding vm_name vm_name_prefix sanitize replace_char to_lower trim_left trim_right cut_name
vm_name_test = refl

vm_name-IsLabel_example :
    let name = vm_name ci uuid in
    (length name ≤ 63) × All (λ c. is_label_char c ≡ true) name × IsTrimmedRight name
vm_name-IsLabel_example = vm_name-IsLabel ci uuid uuid-IsUuid

vm_name-collision_example : vm_name long uuid ≡ vm_name long other_uuid
unfolding sanitize replace_char to_lower trim_left trim_right is_label_char
vm_name-collision_example =
    vm_name-collision long uuid other_uuid (omega arith) uuid-IsUuid other_uuid-IsUuid
