-- ===== src/Bridge/Name/Format.antt =====
-- bridge/vm.go: the form of the names that VMName makes.
use orchard_gh_bridge.Base.{
  ℕ, zero, suc, ◌≤◌, ◌<◌, ◌≡◌, ◌≢◌, refl, inl, inr, ltb, leb, Bool, true, false, ◌&&◌, ◌||◌, Text,
  is_empty, has_prefix, has_prefix-append, List, [], ◌∷◌, ◌++◌, length, take, All, arith,
  Bool-cases, le_of_ltb, ltb_of_le,
}
use native.Mathlib.Nat.{le_trans}
use orchard_gh_bridge.Bridge.Name.{
  hyphen, vm_prefix, is_managed_vm, is_label_char, trim_right, cut_name, sanitize, vm_name_prefix,
  vm_name,
}
use orchard_gh_bridge.Bridge.Name.Trim.{
  IsTrimmedLeft, IsTrimmedRight, trim_right-IsTrimmedRight, length-trim_right-le, trim_right-All,
  IsTrimmedRight-cons, is_empty-append, trim_right-append, trim_right-ne-nil,
  sanitize-IsTrimmedLeft, sanitize-All,
}

-- A digit or a letter from a to f.
abbrev pub is_hex : ℕ → Bool
is_hex c = (leb b'0' c && leb c b'9') || (leb b'a' c && leb c b'f')

-- uuid.New().String() begins with eight hexadecimal digits.
pub record IsUuid (uuid : Text) : Type 0 where
  pub short : length (take 8 uuid) ≡ 8
  pub hex : All (λ c. is_hex c ≡ true) (take 8 uuid)

length-take-le {ℓ} : {A : Type ℓ} (n : ℕ) (s : List A) → length (take n s) ≤ n
length-take-le zero s = omega arith
length-take-le (suc n) [] = omega arith
length-take-le (suc n) (c ∷ s) = omega (arith, length-take-le n s)

take-All {ℓ κ} : {A : Type ℓ} (P : A → Type κ) (n : ℕ) (s : List A) → All P s → All P (take n s)
take-All P zero s h = tt
take-All P (suc n) [] h = tt
take-All P (suc n) (c ∷ s) h = (h.0, take-All P n s h.1)

All-append {ℓ κ} : {A : Type ℓ} (P : A → Type κ) (s t : List A) → All P s → All P t → All P (s ++ t)
All-append P [] t h k = k
All-append P (c ∷ s) t h k = (h.0, All-append P s t h.1 k)

All-map {ℓ κ λ'} :
    {A : Type ℓ} (P : A → Type κ) (Q : A → Type λ') (s : List A)
    → ((x : A) → P x → Q x)
    → All P s
    → All Q s
All-map P Q [] f h = tt
All-map P Q (c ∷ s) f h = (f c h.0, All-map P Q s f h.1)

length-cut_name : (name : Text) → length (cut_name name) ≤ 63
unfolding cut_name
length-cut_name name = elim (Bool-cases (ltb 63 (length name))) [
  | inl e ↦ rw e (le_trans (length-trim_right-le (take 63 name)) (length-take-le 63 name))
  | inr e ↦ rw e (le_of_ltb 63 (length name) e)
]

pub cut_name-short : (name : Text) → length name ≤ 63 → cut_name name ≡ name
unfolding cut_name
cut_name-short name h = rw (ltb_of_le 63 (length name) h)

cut_name-All {ℓ} : (P : ℕ → Type ℓ) (name : Text) → All P name → All P (cut_name name)
unfolding cut_name
cut_name-All P name h = elim (Bool-cases (ltb 63 (length name))) [
  | inl e ↦ rw e (trim_right-All P (take 63 name) (take-All P 63 name h))
  | inr e ↦ rw e h
]

cut_name-IsTrimmedRight : (name : Text) → IsTrimmedRight name → IsTrimmedRight (cut_name name)
unfolding cut_name
cut_name-IsTrimmedRight name h = elim (Bool-cases (ltb 63 (length name))) [
  | inl e ↦ rw e (trim_right-IsTrimmedRight (take 63 name))
  | inr e ↦ rw e h
]

-- A cut leaves the common prefix alone, unless nothing but hyphens follows it.
cut_name-prefix :
    (t : Text) (c : ℕ) → c ≢ hyphen → has_prefix (cut_name (vm_prefix ++ c ∷ t)) vm_prefix ≡ true
unfolding cut_name
cut_name-prefix t c h = elim (Bool-cases (ltb 63 (length (vm_prefix ++ c ∷ t)))) [
  | inl e ↦
      let kept = trim_right-ne-nil c (take 50 t) h in
      rw e (
        rw (trim_right-append vm_prefix (c ∷ take 50 t) (rw kept))
          (has_prefix-append vm_prefix (trim_right (c ∷ take 50 t))))
  | inr e ↦ rw e (has_prefix-append vm_prefix (c ∷ t))
]

IsTrimmedRight-append :
    (s t : Text) → is_empty t ≡ false → IsTrimmedRight t → IsTrimmedRight (s ++ t)
IsTrimmedRight-append [] t e h = h
IsTrimmedRight-append (c ∷ s) t e h =
    IsTrimmedRight-cons c (s ++ t) (is_empty-append s t e) (IsTrimmedRight-append s t e h)

-- What follows the common prefix in a name that is not cut.
abbrev tail_of : Text → Text → Text
tail_of scale_set uuid = (sanitize scale_set ++ hyphen ∷ []) ++ take 8 uuid

vm_name-eq :
    (scale_set uuid : Text)
    → vm_name scale_set uuid ≡ cut_name (vm_prefix ++ tail_of scale_set uuid)
unfolding vm_name vm_name_prefix
vm_name-eq scale_set uuid = refl

-- For a UUID that begins with eight hexadecimal digits, every name that VMName makes is one that
-- IsManagedVM recognises.
pub vm_name-is_managed_vm :
    (scale_set uuid : Text) → IsUuid uuid → is_managed_vm (vm_name scale_set uuid) ≡ true
unfolding is_managed_vm
vm_name-is_managed_vm scale_set uuid u =
    rw (vm_name-eq scale_set uuid) (go (sanitize scale_set) (sanitize-IsTrimmedLeft scale_set))
  where
    go :
        (s : Text)
        → IsTrimmedLeft s
        → has_prefix (cut_name (vm_prefix ++ ((s ++ hyphen ∷ []) ++ take 8 uuid))) vm_prefix ≡ true
    go [] h =
        rw (cut_name-short (vm_prefix ++ hyphen ∷ take 8 uuid) (omega (arith, u.short)))
          (has_prefix-append vm_prefix (hyphen ∷ take 8 uuid))
    go (c ∷ s) h = cut_name-prefix ((s ++ hyphen ∷ []) ++ take 8 uuid) c h

hex_char : (c : ℕ) → is_hex c ≡ true → (is_label_char c ≡ true) × (c ≢ hyphen)
unfolding is_label_char
hex_char c h = (ground arith, ground arith)

hex-IsTrimmedRight : (s : Text) → All (λ c. is_hex c ≡ true) s → IsTrimmedRight s
hex-IsTrimmedRight [] h = tt
hex-IsTrimmedRight (c ∷ []) h = (hex_char c h.0).1
hex-IsTrimmedRight (c ∷ (d ∷ s)) h = hex-IsTrimmedRight (d ∷ s) h.1

is_empty_of_length : (s : Text) → 0 < length s → is_empty s ≡ false
is_empty_of_length [] h = absurd (omega arith)
is_empty_of_length (c ∷ s) h = refl

-- For a UUID that begins with eight hexadecimal digits, VMName makes Kubernetes labels: at most 63
-- characters from the label alphabet, no hyphen at the end.
pub vm_name-IsLabel :
    (scale_set uuid : Text)
    → IsUuid uuid
    → let name = vm_name scale_set uuid in
      (length name ≤ 63) × All (λ c. is_label_char c ≡ true) name × IsTrimmedRight name
unfolding is_label_char
vm_name-IsLabel scale_set uuid u =
    let P = λ (c : ℕ). is_label_char c ≡ true in
    let short = All-map (λ c. is_hex c ≡ true) P (take 8 uuid) (λ c h. (hex_char c h).0) u.hex in
    let named =
      All-append P (sanitize scale_set) (hyphen ∷ []) (sanitize-All scale_set) (refl, tt) in
    let filled = is_empty_of_length (take 8 uuid) (omega (arith, u.short)) in
    let tail = All-append P (sanitize scale_set ++ hyphen ∷ []) (take 8 uuid) named short in
    rw (vm_name-eq scale_set uuid) (
      length-cut_name (vm_prefix ++ tail_of scale_set uuid),
      cut_name-All P (vm_prefix ++ tail_of scale_set uuid)
          (All-append P vm_prefix (tail_of scale_set uuid) (ground arith) tail),
      cut_name-IsTrimmedRight (vm_prefix ++ tail_of scale_set uuid) (
          IsTrimmedRight-append vm_prefix (tail_of scale_set uuid)
            (is_empty-append (sanitize scale_set ++ hyphen ∷ []) (take 8 uuid) filled)
            (IsTrimmedRight-append (sanitize scale_set ++ hyphen ∷ []) (take 8 uuid) filled
              (hex-IsTrimmedRight (take 8 uuid) u.hex))),
    )
