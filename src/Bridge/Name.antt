-- ===== src/Bridge/Name.antt =====
-- bridge/vm.go: the names of the VMs that the bridge creates.
pub mod Trim
pub mod Format
pub mod Owner
use orchard_gh_bridge.Base.{
  ℕ, zero, suc, ◌+◌, ◌<◌, ◌≤◌, ◌==◌, ltb, leb, Bool, true, false, ◌&&◌, ◌||◌, if◌then◌else◌, Text,
  codes, is_empty, has_prefix, drop_prefix, contains_char, not, List, [], ◌∷◌, ◌++◌, map, length,
  take,
}

abbrev pub hyphen : ℕ
hyphen = b'-'

-- vmNamePrefix
abbrev pub vm_prefix : Text
vm_prefix = codes "gha-orchard-"

-- IsManagedVM
unfoldable pub is_managed_vm : Text → Bool
is_managed_vm name = has_prefix name vm_prefix

-- strings.ToLower, rune by rune, as far as the replacement below can tell: it replaces every rune
-- that is not ASCII, and besides A to Z only U+0130 and U+212A have an ASCII lower case.
unfoldable pub to_lower : ℕ → ℕ
to_lower c =
    if leb b'A' c && leb c b'Z'
    then c + 32
    else if c == 0x130
    then b'i'
    else if c == 0x212a
    then b'k'
    else c

-- A rune of the class [a-z0-9-].
unfoldable pub is_label_char : ℕ → Bool
is_label_char c = (leb b'a' c && leb c b'z') || (leb b'0' c && leb c b'9') || c == hyphen

-- nonAlphanumHyphen.ReplaceAllString(s, "-") at one rune.
unfoldable pub replace_char : ℕ → ℕ
unfolding is_label_char
replace_char c = if is_label_char c then c else hyphen

-- strings.TrimLeft(s, "-") and strings.TrimRight(s, "-").
unfoldable pub trim_left : Text → Text
trim_left [] = []
trim_left (c ∷ s) = if c == hyphen then trim_left s else c ∷ s

unfoldable pub trim_right : Text → Text
trim_right [] = []
trim_right (c ∷ s) =
    let rest = trim_right s in if is_empty rest && c == hyphen then [] else c ∷ rest

unfoldable pub sanitize : Text → Text
sanitize s = trim_right (trim_left (map replace_char (map to_lower s)))

-- VMNamePrefixForScaleSet
unfoldable pub vm_name_prefix : Text → Text
vm_name_prefix scale_set = vm_prefix ++ (sanitize scale_set ++ hyphen ∷ [])

-- The end of VMName. The name is ASCII, so its length is its bytes.
unfoldable pub cut_name : Text → Text
cut_name name = if ltb 63 (length name) then trim_right (take 63 name) else name

-- VMName, with the random UUID as an argument.
unfoldable pub vm_name : Text → Text → Text
vm_name scale_set uuid = cut_name (vm_name_prefix scale_set ++ take 8 uuid)

-- The test of the loop of ManagedVMsForScaleSet, on a name.
unfoldable pub owns : Text → Text → Bool
owns scale_set name =
    has_prefix name (vm_name_prefix scale_set)
    && not (contains_char hyphen (drop_prefix name (vm_name_prefix scale_set)))
