-- ===== src/Bridge/Eligibility/Gauges/Entries.antt =====
-- bridge/eligibility.go: what Observe keeps of the exclusions, by the worker's name.
use orchard_gh_bridge.Base.{
  ℕ, ◌≡◌, sym, inl, inr, true, Text, text_eq, text_eq_iff, List, [], ◌∷◌, All, In, Dict, lookup,
  insert, has, lookup-insert, Bool-cases, arith,
}
use orchard_gh_bridge.Base.Sorting.{In-insert_sorted}
use orchard_gh_bridge.Orchard.{Worker}
use orchard_gh_bridge.Bridge.AutoSize.{pin_identity}
use orchard_gh_bridge.Bridge.Eligibility.{
  AutoSizeExclusion, exclusion_of, exclusions_from, auto_size_exclusions, sorted_keys,
  index_exclusions,
}
use orchard_gh_bridge.Bridge.Eligibility.Gauges.Queries.{IsTextual}
use orchard_gh_bridge.Bridge.Eligibility.Gauges.Rounds.{AreEntries}
use orchard_gh_bridge.Metrics.Keys.{IsPlain}

pub In-sorted_keys : (k : Text) (d : Dict AutoSizeExclusion) → has k d ≡ true → In k (sorted_keys d)
unfolding sorted_keys lookup
In-sorted_keys k [] h = absurd (ground (arith, h))
In-sorted_keys k ((j, ex) ∷ d) h = elim (Bool-cases (text_eq j k)) [
  | inl same ↦ (In-insert_sorted k j (sorted_keys d)).1 (inl (sym ((text_eq_iff j k).0 same)))
  | inr other ↦
      (In-insert_sorted k j (sorted_keys d)).1 (inr (In-sorted_keys k d (ground (arith, h, other))))
]

index_exclusions-AreEntries :
    (out : Dict AutoSizeExclusion) (exs : List AutoSizeExclusion)
    → AreEntries out
    → All IsTextual exs
    → AreEntries (index_exclusions out exs)
unfolding index_exclusions
index_exclusions-AreEntries out [] h texts = h
index_exclusions-AreEntries out (ex ∷ exs) h (text, texts) =
    index_exclusions-AreEntries (insert ex.worker ex out) exs
      (λ k x e.
        ground (arith, e, text, lookup-insert ex.worker k ex out, text_eq_iff ex.worker k, h k x))
      texts

-- The names and pin labels of the workers are texts.
abbrev pub AreNamed : List Worker → Type 0
AreNamed workers = All (λ w. IsPlain w.name × IsPlain (pin_identity w)) workers

exclusions_from-IsTextual :
    (workers : List Worker) (counts : Dict ℕ) (labels : Dict Text) (cpu mem : ℕ) (ws : List Worker)
    → AreNamed ws
    → All IsTextual (exclusions_from workers counts labels cpu mem ws)
unfolding exclusions_from exclusion_of
exclusions_from-IsTextual workers counts labels cpu mem [] h = tt
exclusions_from-IsTextual workers counts labels cpu mem (w ∷ ws) (named, h) =
    ground (arith, named, exclusions_from-IsTextual workers counts labels cpu mem ws h)

-- The exclusions that Observe indexes, from nothing.
pub auto_size_exclusions-AreEntries :
    (workers : List Worker) (labels : Dict Text) (cpu mem : ℕ)
    → AreNamed workers
    → AreEntries (index_exclusions [] (auto_size_exclusions workers labels cpu mem))
unfolding auto_size_exclusions lookup
auto_size_exclusions-AreEntries workers labels cpu mem named =
    index_exclusions-AreEntries [] _ (λ k ex e. absurd (ground (arith, e)))
      (exclusions_from-IsTextual workers _ labels cpu mem workers named)
