-- ===== src/Bridge/AutoScaleUp/Placement.antt =====
-- bridge/bridge.go: the workers that the rounds of one handleAutoSizeScaleUp pick.
use orchard_gh_bridge.Base.{
  ℕ, zero, suc, ◌+◌, ◌-◌, ◌≤◌, ◌<◌, ◌%◌, ◌≡◌, ◌≢◌, refl, sym, ◌∙◌, inl, inr, ltb, Bool, Text, List,
  [], ◌∷◌, length, get_elem?, keep, In, In-keep, All-In, In-All, DistinctBy, Dict, some, Bool-cases,
  arith,
}
use native.Mathlib.Nat.{mod-lt, mod-eq_of_lt, mod-add-mod, mod-eq-sub-mod}
use orchard_gh_bridge.Base.Int.{two_63, to_int_small, add_int_pos}
use orchard_gh_bridge.Orchard.{Vm, Worker}
use orchard_gh_bridge.Bridge.AutoSize.{pin_identity, free_auto_size_workers}
use orchard_gh_bridge.Bridge.AutoSize.Candidates.{candidates-DistinctBy}
use orchard_gh_bridge.Bridge.AutoScaleUp.{pick}

-- Fewer steps than a whole turn do not lead back.
mod-turn : (a d m : ℕ) → 0 < d → d < m → (a + d) % m ≢ a % m
mod-turn a d m some_step short e =
    let r = a % m in
    let lt : r < m = mod-lt a (omega arith) in
    let back : (r + d) % m ≡ r = mod-add-mod a m d ∙ e in
    elim (Bool-cases (ltb (r + d) m)) [
      | inl small ↦
          let fits : r + d < m = ground (arith, small) in
          absurd (omega (arith, sym (mod-eq_of_lt fits) ∙ back))
      | inr big ↦
          let over : m ≤ r + d = ground (arith, big) in
          let fits : r + d - m < m = omega arith in
          absurd (omega (arith, sym (mod-eq-sub-mod over ∙ mod-eq_of_lt fits) ∙ back))
    ]

module _ {A : Type 0} where
  get_elem?-some :
      (xs : List A) (k : ℕ) → k < length xs → (x : A) × (get_elem? xs k ≡ some x) × In x xs
  get_elem?-some [] k h = absurd (omega arith)
  get_elem?-some (x ∷ xs) zero h = (x, refl, inl refl)
  get_elem?-some (x ∷ xs) (suc k) h =
      let (y, e, i) = get_elem?-some xs k (omega arith) in (y, e, inr i)

  get_elem?-In : (xs : List A) (k : ℕ) (x : A) → get_elem? xs k ≡ some x → In x xs
  get_elem?-In [] k x e = absurd (ground (arith, e))
  get_elem?-In (y ∷ xs) zero x e = inl (ground (arith, e))
  get_elem?-In (y ∷ xs) (suc k) x e = inr (get_elem?-In xs k x e)

  get_elem?-DistinctBy :
      (f : A → Text) (xs : List A) (j k : ℕ) (x y : A)
      → DistinctBy f xs
      → get_elem? xs j ≡ some x
      → get_elem? xs k ≡ some y
      → j ≢ k
      → f x ≢ f y
  get_elem?-DistinctBy f [] j k x y d ex ey ne q = absurd (ground (arith, ex))
  get_elem?-DistinctBy f (z ∷ xs) zero zero x y d ex ey ne q = absurd (ne refl)
  get_elem?-DistinctBy f (z ∷ xs) zero (suc k) x y d ex ey ne q =
      let z_x : z ≡ x = ground (arith, ex) in
      In-All (λ v. f z ≢ f v) y xs (get_elem?-In xs k y ey) d.0 (rw z_x q)
  get_elem?-DistinctBy f (z ∷ xs) (suc j) zero x y d ex ey ne q =
      let z_y : z ≡ y = ground (arith, ey) in
      In-All (λ v. f z ≢ f v) x xs (get_elem?-In xs j x ex) d.0 (rw z_y (sym q))
  get_elem?-DistinctBy f (z ∷ xs) (suc j) (suc k) x y d ex ey ne q =
      get_elem?-DistinctBy f xs j k x y d.1 ex ey (λ e. ne (ground (arith, e))) q

  keep-DistinctBy_of :
      (f : A → Text) (p : A → Bool) (xs : List A) → DistinctBy f xs → DistinctBy f (keep p xs)
  keep-DistinctBy_of f p [] d = tt
  keep-DistinctBy_of f p (x ∷ xs) d =
      let rest = keep-DistinctBy_of f p xs d.1 in
      elim (Bool-cases (p x)) [
        | inr no_x ↦ rw no_x rest
        | inl is_x ↦ rw is_x (
          All-In (λ v. f x ≢ f v) (keep p xs)
              (λ v i. In-All (λ u. f x ≢ f u) v xs (In-keep p v xs i).1 d.0),
          rest,
        )
      ]

pick-at :
    (candidates : List Worker) (start i : ℕ)
    → start + i < two_63
    → pick candidates start i ≡ get_elem? candidates ((start + i) % length candidates)
unfolding pick
pick-at candidates start i h =
    rw (to_int_small start (omega arith), add_int_pos start i h, pick) refl

module _ (workers : List Worker) (vms : List Vm) (labels : Dict Text)
    (reserve_cpu reserve_mem : ℕ) where
  abbrev free : List Worker
  free = free_auto_size_workers workers vms labels reserve_cpu reserve_mem

  free-DistinctBy : DistinctBy pin_identity free
  unfolding free_auto_size_workers
  free-DistinctBy =
      keep-DistinctBy_of pin_identity _ _
        (candidates-DistinctBy workers labels reserve_cpu reserve_mem)

  -- Two rounds of one AutoSize batch of at most as many rounds as there are free workers, on a
  -- cursor below 2^63, find free workers with different pin labels.
  pub pick-distinct :
      (start i j : ℕ)
      → i < j
      → j < length free
      → start + j < two_63
      → (u : Worker) × (v : Worker) × (pick free start i ≡ some u)
        × (pick free start j ≡ some v)
        × In u free
        × In v free
        × (pin_identity u ≢ pin_identity v)
  pick-distinct start i j before inside small =
      let m = length free in
      let at = λ (k : ℕ). (start + k) % m in
      let (u, eu, iu) = get_elem?-some free (at i) (mod-lt (start + i) (omega arith)) in
      let (v, ev, iv) = get_elem?-some free (at j) (mod-lt (start + j) (omega arith)) in
      let steps : start + i + (j - i) ≡ start + j = omega arith in
      let apart : at i ≢ at j =
        λ e. mod-turn (start + i) (j - i) m (omega arith) (omega arith) (rw steps (sym e)) in
      (
        u,
        v,
        pick-at free start i (omega arith) ∙ eu,
        pick-at free start j small ∙ ev,
        iu,
        iv,
        get_elem?-DistinctBy pin_identity free (at i) (at j) u v free-DistinctBy eu ev apart,
      )
