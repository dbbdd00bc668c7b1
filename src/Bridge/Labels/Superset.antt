-- ===== src/Bridge/Labels/Superset.antt =====
-- The label test of bridge/cleanup.go, bridge/stateview.go and manager/manager.go.
use orchard_gh_bridge.Base.{
  ◌≡◌, refl, sym, ◌∙◌, ◌↔◌, true, Text, text_eq_iff, text_eq_refl, [], ◌∷◌, Dict, lookup, get_or,
  some, IsMap, arith, Bool-cases, inl, inr,
}
use orchard_gh_bridge.Bridge.Labels.{labels_superset}

superset_sound :
    (have want : Dict Text) (k v : Text)
    → labels_superset have want ≡ true
    → lookup k want ≡ some v
    → get_or [] k have ≡ v
unfolding labels_superset lookup
superset_sound have [] k v h e = cc
superset_sound have ((j, u) ∷ want) k v h e =
    ground (arith, text_eq_iff j k, text_eq_iff (get_or [] j have) u, superset_sound have want k v)

superset_complete :
    (have want : Dict Text)
    → IsMap want
    → ((k v : Text) → lookup k want ≡ some v → get_or [] k have ≡ v)
    → labels_superset have want ≡ true
unfolding labels_superset lookup
superset_complete have [] m h = refl
superset_complete have ((j, u) ∷ want) m h =
    let first : get_or [] j have ≡ u = h j u (rw (text_eq_refl j)) in
    let rest =
      superset_complete have want m.1 (λ k v e. h k v (ground (arith, m.0, e, text_eq_iff j k))) in
    ground (arith, text_eq_iff (get_or [] j have) u)

-- For wanted labels without a repeated key, labelsSuperset holds exactly if every wanted entry is
-- what the other map reads for its key.
pub labels_superset_iff :
    (have want : Dict Text)
    → IsMap want
    → (labels_superset have want ≡ true)
      ↔ ((k v : Text) → lookup k want ≡ some v → get_or [] k have ≡ v)
labels_superset_iff have want m =
    (λ h k v e. superset_sound have want k v h e, superset_complete have want m)

-- Two maps of wanted labels with the same entries, in any order, get the same answer of
-- labelsSuperset.
pub labels_superset_order :
    (have want want' : Dict Text)
    → IsMap want
    → IsMap want'
    → ((k : Text) → lookup k want ≡ lookup k want')
    → labels_superset have want ≡ labels_superset have want'
labels_superset_order have want want' m m' h = elim (Bool-cases (labels_superset have want)) [
  | inl e ↦
      e
      ∙ sym (superset_complete have want' m' (λ k v e'. superset_sound have want k v e (h k ∙ e')))
  | inr e ↦ elim (Bool-cases (labels_superset have want')) [
    | inl e' ↦
        superset_complete have want m
          (λ k v e''. superset_sound have want' k v e' (sym (h k) ∙ e''))
        ∙ sym e'
    | inr e' ↦ e ∙ sym e'
  ]
]
