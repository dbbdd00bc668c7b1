-- ===== src/Bridge/Name/Owner.antt =====
-- bridge/vm.go and ManagedVMsForScaleSet of bridge/stateview.go: which scale set a VM name is of.
use orchard_gh_bridge.Base.{
  ℕ, ◌+◌, ◌≤◌, ◌<◌, ◌≡◌, refl, sym, ap, ◌∙◌, true, false, Text, has_prefix, drop_prefix,
  has_prefix-append, drop_prefix-append, contains_char, zero, suc, length-append, ltb_of_lt, List,
  [], ◌∷◌, ◌++◌, take, length, All, arith,
}
use orchard_gh_bridge.Bridge.Name.{
  hyphen, vm_prefix, sanitize, vm_name_prefix, vm_name, cut_name, trim_right, owns,
}
use orchard_gh_bridge.Bridge.Name.Format.{IsUuid, is_hex, cut_name-short}

prefix-contains :
    (s q : Text) → has_prefix s (q ++ hyphen ∷ []) ≡ true → contains_char hyphen s ≡ true
unfolding has_prefix contains_char
prefix-contains [] [] h = cc
prefix-contains [] (d ∷ q) h = cc
prefix-contains (c ∷ s) [] h = ground arith
prefix-contains (c ∷ s) (d ∷ q) h = ground (arith, prefix-contains s q)

-- A text splits at its last hyphen in one way.
last_hyphen :
    (s p q : Text)
    → has_prefix s (p ++ hyphen ∷ []) ≡ true
    → contains_char hyphen (drop_prefix s (p ++ hyphen ∷ [])) ≡ false
    → has_prefix s (q ++ hyphen ∷ []) ≡ true
    → contains_char hyphen (drop_prefix s (q ++ hyphen ∷ [])) ≡ false
    → p ≡ q
unfolding has_prefix drop_prefix
last_hyphen s [] [] hp np hq nq = refl
last_hyphen [] [] (d ∷ q) hp np hq nq = cc
last_hyphen (c ∷ s) [] (d ∷ q) hp np hq nq = ground (arith, prefix-contains s q)
last_hyphen [] (e ∷ p) q hp np hq nq = cc
last_hyphen (c ∷ s) (e ∷ p) [] hp np hq nq = ground (arith, prefix-contains s p)
last_hyphen (c ∷ s) (e ∷ p) (d ∷ q) hp np hq nq = ground (arith, last_hyphen s p q)

-- Two scale sets that a VM name belongs to have the same name prefix.
pub owns_unique :
    (a b name : Text)
    → owns a name ≡ true
    → owns b name ≡ true
    → vm_name_prefix a ≡ vm_name_prefix b
unfolding owns vm_name_prefix
owns_unique a b name ha hb =
    ap (λ p. p ++ hyphen ∷ [])
      (last_hyphen name (vm_prefix ++ sanitize a) (vm_prefix ++ sanitize b) (ground arith)
        (ground arith) (ground arith) (ground arith))

hex-contains : (s : Text) → All (λ c. is_hex c ≡ true) s → contains_char hyphen s ≡ false
unfolding contains_char
hex-contains [] h = refl
hex-contains (c ∷ s) h = ground (arith, h.0, hex-contains s h.1)

-- For a UUID that begins with eight hexadecimal digits, a name that is not cut belongs to the
-- scale set that it was made for.
pub vm_name-owned :
    (scale_set uuid : Text)
    → IsUuid uuid
    → length (vm_name_prefix scale_set) + 8 ≤ 63
    → owns scale_set (vm_name scale_set uuid) ≡ true
unfolding owns vm_name
vm_name-owned scale_set uuid u short =
    let prefix = vm_name_prefix scale_set in
    rw
      (cut_name-short (prefix ++ take 8 uuid)
        (rw (length-append prefix (take 8 uuid)) (omega (arith, u.short))))
      (ground (
        arith,
        has_prefix-append prefix (take 8 uuid),
        drop_prefix-append prefix (take 8 uuid),
        hex-contains (take 8 uuid) u.hex,
      ))

take-append_left {ℓ} :
    {A : Type ℓ} (n : ℕ) (s t : List A) → n ≤ length s → take n (s ++ t) ≡ take n s
take-append_left zero s t h = refl
take-append_left (suc n) [] t h = absurd (omega arith)
take-append_left (suc n) (x ∷ s) t h = ap (λ r. x ∷ r) (take-append_left n s t (omega arith))

cut_name-long :
    (p s : Text) → 63 ≤ length p → 0 < length s → cut_name (p ++ s) ≡ trim_right (take 63 p)
unfolding cut_name
cut_name-long p s h k =
    rw (ltb_of_lt 63 (length (p ++ s)) (rw (length-append p s) (omega arith)))
      (ap trim_right (take-append_left 63 p s h))

-- The length of a prefix: the common part, the sanitised name and a hyphen.
length-vm_name_prefix :
    (scale_set : Text) → length (vm_name_prefix scale_set) ≡ length (sanitize scale_set) + 13
unfolding vm_name_prefix
length-vm_name_prefix scale_set = omega (arith, length-append (sanitize scale_set) (hyphen ∷ []))

-- For a scale set whose sanitised name has 50 characters or more, all VMs get the same name.
pub vm_name-collision :
    (scale_set u v : Text)
    → 50 ≤ length (sanitize scale_set)
    → IsUuid u
    → IsUuid v
    → vm_name scale_set u ≡ vm_name scale_set v
unfolding vm_name
vm_name-collision scale_set u v long hu hv =
    let prefix = vm_name_prefix scale_set in
    let all : 63 ≤ length prefix = omega (arith, length-vm_name_prefix scale_set) in
    cut_name-long prefix (take 8 u) all (omega (arith, hu.short))
    ∙ sym (cut_name-long prefix (take 8 v) all (omega (arith, hv.short)))
