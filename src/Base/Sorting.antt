-- ===== src/Base/Sorting.antt =====
-- sort.Strings as an insertion sort. A text is compared by its code points, which is the order of the
-- bytes of its UTF-8.
use mathlib.Core.Path.{◌≡◌, refl, sym, ◌∙◌}
use mathlib.Core.Logic.{◌⊎◌, ◌↔◌, inl, inr}
use mathlib.Core.Bool.{Bool, true, false, ◌&&◌, ◌||◌}
use mathlib.Core.List.{List, [], ◌∷◌}
use native.Mathlib.Omega.{arith}
use orchard_gh_bridge.Base.Tests.{ltb, ◌==◌, if◌then◌else◌, Bool-cases}
use orchard_gh_bridge.Base.Texts.{Text}
use orchard_gh_bridge.Base.Lists.{All, In, In-All}

pub text_leb : Text → Text → Bool
text_leb [] t = true
text_leb (c ∷ s) [] = false
text_leb (c ∷ s) (d ∷ t) = let rest = text_leb s t in ltb c d || (c == d && rest)

unfoldable pub insert_sorted : Text → List Text → List Text
insert_sorted s [] = s ∷ []
insert_sorted s (t ∷ ts) =
    let rest = insert_sorted s ts in if text_leb s t then s ∷ (t ∷ ts) else t ∷ rest

pub sort_texts : List Text → List Text
sort_texts [] = []
sort_texts (s ∷ ss) = insert_sorted s (sort_texts ss)

text_leb_refl : (s : Text) → text_leb s s ≡ true
unfolding text_leb
text_leb_refl [] = refl
text_leb_refl (c ∷ s) = ground (arith, text_leb_refl s)

text_leb_total : (s t : Text) → text_leb s t ≡ false → text_leb t s ≡ true
unfolding text_leb
text_leb_total [] t h = cc
text_leb_total (c ∷ s) [] h = refl
text_leb_total (c ∷ s) (d ∷ t) h = ground (arith, text_leb_total s t)

text_leb_antisymm : (s t : Text) → text_leb s t ≡ true → text_leb t s ≡ true → s ≡ t
unfolding text_leb
text_leb_antisymm [] [] h k = refl
text_leb_antisymm [] (d ∷ t) h k = cc
text_leb_antisymm (c ∷ s) [] h k = cc
text_leb_antisymm (c ∷ s) (d ∷ t) h k = ground (arith, text_leb_antisymm s t)

text_leb_trans : (s t u : Text) → text_leb s t ≡ true → text_leb t u ≡ true → text_leb s u ≡ true
unfolding text_leb
text_leb_trans [] t u h k = refl
text_leb_trans (c ∷ s) [] u h k = cc
text_leb_trans (c ∷ s) (d ∷ t) [] h k = cc
text_leb_trans (c ∷ s) (d ∷ t) (e ∷ u) h k = ground (arith, text_leb_trans s t u)

-- In ascending order, without repetition.
abbrev pub IsAscending : List Text → Type 0
IsAscending [] = Unit
IsAscending (s ∷ ss) = All (λ t. text_leb t s ≡ false) ss × IsAscending ss

pub In-insert_sorted :
    (k s : Text) (ts : List Text) → In k (insert_sorted s ts) ↔ ((k ≡ s) ⊎ In k ts)
unfolding insert_sorted
In-insert_sorted k s [] = (λ h. h, λ h. h)
In-insert_sorted k s (t ∷ ts) =
    let (to, of) = In-insert_sorted k s ts in
    elim (Bool-cases (text_leb s t)) [
      | inl e ↦ rw (e, insert_sorted) (λ h. h, λ h. h)
      | inr e ↦
          rw (e, insert_sorted)
            (
              λ h. elim h [
                | inl same ↦ inr (inl same)
                | inr deeper ↦ elim (to deeper) [ inl q ↦ inl q | inr i ↦ inr (inr i) ]
              ],
              λ h. elim h [
                | inl same ↦ inr (of (inl same))
                | inr i ↦ elim i [ inl q ↦ inl q | inr deeper ↦ inr (of (inr deeper)) ]
              ],
            )
    ]

All-insert_sorted :
    (P : Text → Type 0) (s : Text) (ts : List Text) → P s → All P ts → All P (insert_sorted s ts)
unfolding insert_sorted
All-insert_sorted P s [] h hs = (h, tt)
All-insert_sorted P s (t ∷ ts) h (ht, hs) = elim (Bool-cases (text_leb s t)) [
  | inl e ↦ rw (e, insert_sorted) (h, (ht, hs))
  | inr e ↦ rw (e, insert_sorted) (ht, All-insert_sorted P s ts h hs)
]

-- What is above t is above what is below t.
All-above :
    (s t : Text) (ts : List Text)
    → text_leb s t ≡ true
    → All (λ u. text_leb u t ≡ false) ts
    → All (λ u. text_leb u s ≡ false) ts
All-above s t [] e h = tt
All-above s t (u ∷ ts) e (hu, h) = (
  elim (Bool-cases (text_leb u s)) [
    | inr no_less ↦ no_less
    | inl less ↦ absurd (ground (arith, hu, text_leb_trans u s t less e))
  ],
  All-above s t ts e h,
)

pub insert_sorted-IsAscending :
    (s : Text) (ts : List Text) → (In s ts → ⊥) → IsAscending ts → IsAscending (insert_sorted s ts)
unfolding insert_sorted
insert_sorted-IsAscending s [] new h = (tt, tt)
insert_sorted-IsAscending s (t ∷ ts) new (above, h) = elim (Bool-cases (text_leb s t)) [
  | inl e ↦
      let apart : text_leb t s ≡ false = elim (Bool-cases (text_leb t s)) [
        | inr q ↦ q
        | inl q ↦ absurd (new (inl (text_leb_antisymm s t e q)))
      ] in
      rw (e, insert_sorted) ((apart, All-above s t ts e above), (above, h))
  | inr e ↦
      rw (e, insert_sorted)
        (
          All-insert_sorted (λ u. text_leb u t ≡ false) s ts e above,
          insert_sorted-IsAscending s ts (λ i. new (inr i)) h,
        )
]

-- Two ascending lists of the same texts are one list.
pub IsAscending-eq :
    (ss ts : List Text)
    → IsAscending ss
    → IsAscending ts
    → ((k : Text) → In k ss → In k ts)
    → ((k : Text) → In k ts → In k ss)
    → ss ≡ ts
IsAscending-eq [] [] h k to of = refl
IsAscending-eq [] (t ∷ ts) h k to of = absurd (of t (inl refl))
IsAscending-eq (s ∷ ss) [] h k to of = absurd (to s (inl refl))
IsAscending-eq (s ∷ ss) (t ∷ ts) (above, h) (above', k) to of =
    let heads : s ≡ t = elim (to s (inl refl)) [
      | inl same ↦ same
      | inr i ↦ elim (of t (inl refl)) [
        | inl same ↦ sym same
        | inr j ↦
            let s_above : text_leb s t ≡ false = In-All _ s ts i above' in
            let t_above : text_leb t s ≡ false = In-All _ t ss j above in
            absurd (ground (arith, t_above, text_leb_total s t s_above))
      ]
    ] in
    let no_repeat : (u : Text) (us : List Text) (v : Text)
        → All (λ x. text_leb x u ≡ false) us
        → In v us
        → v ≡ u
        → ⊥ =
      λ u us v a i same.
        ground (arith, same, text_leb_refl u, In-All (λ x. text_leb x u ≡ false) v us i a) in
    let tails =
      IsAscending-eq ss ts h k
        (λ u i. elim (to u (inr i)) [
          | inl same ↦ absurd (no_repeat s ss u above i (same ∙ sym heads))
          | inr deeper ↦ deeper
        ])
        (λ u i. elim (of u (inr i)) [
          | inl same ↦ absurd (no_repeat t ts u above' i (same ∙ heads))
          | inr deeper ↦ deeper
        ]) in
    ground (arith, heads, tails)
