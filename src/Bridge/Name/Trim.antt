-- ===== src/Bridge/Name/Trim.antt =====
-- bridge/vm.go: strings.Trim and the sanitised name of a scale set.
use orchard_gh_bridge.Base.{
  ℕ, ◌≤◌, ◌≡◌, ◌≢◌, refl, inl, inr, ◌==◌, true, false, ◌&&◌, Text, is_empty, [], ◌∷◌, ◌++◌, map,
  length, All, arith, Bool-cases,
}
use orchard_gh_bridge.Bridge.Name.{
  hyphen, is_label_char, replace_char, to_lower, trim_left, trim_right, sanitize,
}

-- A text that begins with something else than a hyphen, or is empty.
abbrev pub IsTrimmedLeft : Text → Type 0
IsTrimmedLeft [] = Unit
IsTrimmedLeft (c ∷ s) = c ≢ hyphen

-- A text that does not end in a hyphen.
abbrev pub IsTrimmedRight : Text → Type 0
IsTrimmedRight [] = Unit
IsTrimmedRight (c ∷ []) = c ≢ hyphen
IsTrimmedRight (c ∷ (d ∷ s)) = IsTrimmedRight (d ∷ s)

trim_left-IsTrimmedLeft : (s : Text) → IsTrimmedLeft (trim_left s)
unfolding trim_left
trim_left-IsTrimmedLeft [] = tt
trim_left-IsTrimmedLeft (c ∷ s) = ground (arith, trim_left-IsTrimmedLeft s)

trim_right-IsTrimmedLeft : (s : Text) → IsTrimmedLeft s → IsTrimmedLeft (trim_right s)
unfolding trim_right
trim_right-IsTrimmedLeft [] h = tt
trim_right-IsTrimmedLeft (c ∷ s) h = ground arith

pub IsTrimmedRight-cons :
    (c : ℕ) (s : Text) → is_empty s ≡ false → IsTrimmedRight s → IsTrimmedRight (c ∷ s)
IsTrimmedRight-cons c [] e h = absurd (ground arith)
IsTrimmedRight-cons c (d ∷ s) e h = h

pub trim_right-IsTrimmedRight : (s : Text) → IsTrimmedRight (trim_right s)
unfolding trim_right
trim_right-IsTrimmedRight [] = tt
trim_right-IsTrimmedRight (c ∷ s) = elim (Bool-cases (is_empty (trim_right s))) [
  | inl e ↦ ground (arith, e)
  | inr e ↦ rw e (IsTrimmedRight-cons c (trim_right s) e (trim_right-IsTrimmedRight s))
]

pub length-trim_right-le : (s : Text) → length (trim_right s) ≤ length s
unfolding trim_right
length-trim_right-le [] = omega arith
length-trim_right-le (c ∷ s) = ground (arith, length-trim_right-le s)

pub trim_right-All {ℓ} : (P : ℕ → Type ℓ) (s : Text) → All P s → All P (trim_right s)
unfolding trim_right
trim_right-All P [] h = tt
trim_right-All P (c ∷ s) h = elim (Bool-cases (is_empty (trim_right s) && c == hyphen)) [
  | inl e ↦ rw e tt
  | inr e ↦ rw e (h.0, trim_right-All P s h.1)
]

pub is_empty-append : (p s : Text) → is_empty s ≡ false → is_empty (p ++ s) ≡ false
is_empty-append [] s h = h
is_empty-append (c ∷ p) s h = refl

-- What stands before a text that is not all hyphens is kept.
pub trim_right-append :
    (p s : Text) → is_empty (trim_right s) ≡ false → trim_right (p ++ s) ≡ p ++ trim_right s
unfolding trim_right
trim_right-append [] s h = refl
trim_right-append (c ∷ p) s h = rw (trim_right-append p s h, is_empty-append p (trim_right s) h)

pub trim_right-ne-nil : (c : ℕ) (s : Text) → c ≢ hyphen → trim_right (c ∷ s) ≡ c ∷ trim_right s
unfolding trim_right
trim_right-ne-nil c s h = ground arith

trim_left-All {ℓ} : (P : ℕ → Type ℓ) (s : Text) → All P s → All P (trim_left s)
unfolding trim_left
trim_left-All P [] h = tt
trim_left-All P (c ∷ s) h = elim (Bool-cases (c == hyphen)) [
  | inl e ↦ rw e (trim_left-All P s h.1)
  | inr e ↦ rw e h
]

replace-All : (s : Text) → All (λ c. is_label_char c ≡ true) (map replace_char s)
unfolding replace_char is_label_char
replace-All [] = tt
replace-All (c ∷ s) = (ground arith, replace-All s)

-- The sanitised name does not begin with a hyphen.
pub sanitize-IsTrimmedLeft : (s : Text) → IsTrimmedLeft (sanitize s)
unfolding sanitize
sanitize-IsTrimmedLeft s = trim_right-IsTrimmedLeft _ (trim_left-IsTrimmedLeft _)

pub sanitize-All : (s : Text) → All (λ c. is_label_char c ≡ true) (sanitize s)
unfolding sanitize
sanitize-All s = trim_right-All _ _ (trim_left-All _ _ (replace-All (map to_lower s)))
