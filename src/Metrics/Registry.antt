-- ===== src/Metrics/Registry.antt =====
-- metrics/metrics.go: the registry and its text format. The print of a float64 is a parameter; the
-- HTTP handler around WriteText is left out.
pub mod Stable
pub mod Complete
pub mod Order
use orchard_gh_bridge.Base.{
  ℕ, Bool, true, false, if◌then◌else◌, Text, codes, List, [], ◌∷◌, ◌++◌, Dict, lookup, Option, none,
  some, Error, Result, ok, err, panicked, plain,
}
use orchard_gh_bridge.Base.Sorting.{insert_sorted}
use orchard_gh_bridge.Metrics.{Vec, escape_label_value, escape_help}

-- A registered vec: what the text format says of it, and the vec.
pub record Metric (V : Type 0) : Type 0 where
  pub name : Text
  pub help : Text
  pub kind : Text
  pub vec : Vec V

-- The keys of the series in WriteText, sorted.
pub series_keys : {A : Type 0} → Dict A → List Text
series_keys [] = []
series_keys ((k, s) ∷ m) = insert_sorted k (series_keys m)

-- The loop over the label names; a value that is missing is an index out of range.
pub label_pairs : Bool → List Text → List Text → Result Text
label_pairs first [] values = ok []
label_pairs first (name ∷ names) [] = err (panicked (codes "index out of range"))
label_pairs first (name ∷ names) (value ∷ values) = elim (label_pairs false names values) [
  | err e ↦ err e
  | ok rest ↦ ok (
      (if first then [] else b',' ∷ [])
      ++ (name ++ (codes "=\"" ++ (escape_label_value value ++ b'"' ∷ rest))))
]

-- The labels of a series, in braces if there are any.
pub label_text : List Text → List Text → Result Text
label_text [] values = ok []
label_text (name ∷ names) values = elim (label_pairs true (name ∷ names) values) [
  | err e ↦ err e
  | ok pairs ↦ ok (b'{' ∷ pairs ++ b'}' ∷ [])
]

module _ {V : Type 0} where
  -- register
  pub register : Text → Text → Text → List Text → List (Metric V) → Metric V × List (Metric V)
  register name help kind label_names metrics =
      let m : Metric V = record {
        name = name;
        help = help;
        kind = kind;
        vec = record { label_names = label_names; series = [] };
      } in
      (m, metrics ++ m ∷ [])

  -- NewGaugeVec and NewCounterVec; a nil registry is `none`, and its vecs are nil.
  pub new_vec :
      Text
      → Text
      → Text
      → List Text
      → Option (List (Metric V))
      → Option (Metric V) × Option (List (Metric V))
  new_vec name help kind label_names none = (none, none)
  new_vec name help kind label_names (some metrics) =
      let (m, metrics') = register name help kind label_names metrics in (some m, some metrics')

  pub new_gauge_vec :
      Text
      → Text
      → List Text
      → Option (List (Metric V))
      → Option (Metric V) × Option (List (Metric V))
  new_gauge_vec name help label_names r = new_vec name help (codes "gauge") label_names r

  pub new_counter_vec :
      Text
      → Text
      → List Text
      → Option (List (Metric V))
      → Option (Metric V) × Option (List (Metric V))
  new_counter_vec name help label_names r = new_vec name help (codes "counter") label_names r

  module _ (format : V → Text) where
    -- One series: a line with its name, its labels and its value.
    pub series_line : Metric V → List Text × V → Result Text
    series_line m (values, value) = elim (label_text m.vec.label_names values) [
      | err e ↦ err e
      | ok labels ↦ ok (m.name ++ (labels ++ (b' ' ∷ format value ++ 10 ∷ [])))
    ]

    -- The loop over the sorted keys.
    pub series_lines : Metric V → List Text → Result Text
    series_lines m [] = ok []
    series_lines m (k ∷ ks) =
        let line : Result Text = elim (lookup k m.vec.series) [
          | none ↦ err (panicked (codes "nil pointer dereference"))
          | some s ↦ series_line m s
        ] in
        elim line [
          | err e ↦ err e
          | ok this ↦ elim (series_lines m ks) [ err e ↦ err e | ok rest ↦ ok (this ++ rest) ]
        ]

    pub header_lines : Metric V → Text
    header_lines m =
        codes "# HELP "
        ++ (m.name
            ++ (b' ' ∷ escape_help m.help
                ++ (10 ∷ codes "# TYPE " ++ (m.name ++ (b' ' ∷ m.kind ++ 10 ∷ [])))))

    -- The text that WriteText writes.
    pub write_text : List (Metric V) → Result Text
    write_text [] = ok []
    write_text (m ∷ ms) = elim (series_lines m (series_keys m.vec.series)) [
      | err e ↦ err e
      | ok lines ↦ elim (write_text ms) [
        | err e ↦ err e
        | ok rest ↦ ok (header_lines m ++ (lines ++ rest))
      ]
    ]
