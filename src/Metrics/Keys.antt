-- ===== src/Metrics/Keys.antt =====
-- metrics/metrics.go: that label values are told apart, and survive the text format.
use orchard_gh_bridge.Base.{
  ℕ, ◌≡◌, ◌≢◌, refl, sym, ap, ◌∙◌, inl, inr, ◌==◌, false, if◌then◌else◌, Text, text_eq_iff,
  contains_char, List, [], ◌∷◌, ◌++◌, length, All, insert, get_or, lookup-insert, Option, none,
  some, Bool-cases, ok, arith,
}
use orchard_gh_bridge.Metrics.{
  separator, series_key, Vec, update, value_of, set_gauge, escape_label_value,
}

-- No character of a text is the separator.
abbrev pub IsPlain : Text → Type 0
IsPlain s = contains_char separator s ≡ false

-- Two texts followed by the separator and a rest are the same if these are.
split_first :
    (s t p q : Text)
    → IsPlain s
    → IsPlain t
    → s ++ separator ∷ p ≡ t ++ separator ∷ q
    → (s ≡ t) × (p ≡ q)
unfolding contains_char
split_first [] [] p q hs ht e = (refl, ground (arith, e))
split_first [] (d ∷ t) p q hs ht e = absurd (ground (arith, e, ht))
split_first (c ∷ s) [] p q hs ht e = absurd (ground (arith, e, hs))
split_first (c ∷ s) (d ∷ t) p q hs ht e =
    let (same, rest) =
      split_first s t p q (ground (arith, hs)) (ground (arith, ht)) (ground (arith, e)) in
    (ground (arith, e, same), rest)

-- Label values of the same number, which are texts, have the same key only if they are the same.
pub series_key_injective :
    (xs ys : List Text)
    → All IsPlain xs
    → All IsPlain ys
    → length xs ≡ length ys
    → series_key xs ≡ series_key ys
    → xs ≡ ys
unfolding series_key
series_key_injective [] [] hx hy n e = refl
series_key_injective [] (y ∷ ys) hx hy n e = absurd (omega arith)
series_key_injective (x ∷ xs) [] hx hy n e = absurd (omega arith)
series_key_injective (x ∷ []) (y ∷ []) hx hy n e = ground (arith, e)
series_key_injective (x ∷ []) (y ∷ (z ∷ ys)) hx hy n e = absurd (omega arith)
series_key_injective (x ∷ (z ∷ xs)) (y ∷ []) hx hy n e = absurd (omega arith)
series_key_injective (x ∷ (x' ∷ xs)) (y ∷ (y' ∷ ys)) hx hy n e =
    let (head, rest) = split_first x y (series_key (x' ∷ xs)) (series_key (y' ∷ ys)) hx.0 hy.0 e in
    let tail = series_key_injective (x' ∷ xs) (y' ∷ ys) hx.1 hy.1 (omega arith) rest in
    ground (arith, head, tail)

module _ {V : Type 0} where
  -- Set with the right number of label values, none of them with the separator, succeeds; Value
  -- then gives the number that was set for these label values and for all others, of the same
  -- number and without the separator, what it gave before.
  pub set_gauge-value_of :
      (zero_value value : V) (xs : List Text) (v : Vec V)
      → length xs ≡ length v.label_names
      → All IsPlain xs
      → (v' : Vec V) × (set_gauge zero_value value xs v ≡ ok v')
        × (value_of xs v' ≡ some value)
        × ((ys : List Text)
            → length ys ≡ length xs
            → All IsPlain ys
            → xs ≢ ys
            → value_of ys v' ≡ value_of ys v)
  unfolding set_gauge update value_of
  set_gauge-value_of zero_value value xs v n hx =
      let key = series_key xs in
      let old = get_or (xs, zero_value) key v.series in
      let series = insert key (old.0, value) v.series in
      (
        record v { series = series },
        ground (arith, n),
        ground (arith, lookup-insert key key (old.0, value) v.series, text_eq_iff key key),
        λ ys m hy ne.
            let apart : key ≢ series_key ys =
              λ e. ne (series_key_injective xs ys hx hy (sym m) e) in
            ground (
              arith,
              lookup-insert key (series_key ys) (old.0, value) v.series,
              text_eq_iff key (series_key ys),
              apart,
            ),
      )

-- One more character in front of a value that was read.
pub push : ℕ → Option (Text × Text) → Option (Text × Text)
push c none = none
push c (some (value, rest)) = some (c ∷ value, rest)

-- A reader of the text format past the opening quote of a label value: the value, and the text past
-- the first quote that no backslash escapes. A line feed, another escape or the end of the text
-- before that is malformed.
pub read_quoted : Text → Option (Text × Text)
read_quoted [] = none
read_quoted (c ∷ []) = if c == b'"' then some ([], []) else none
read_quoted (c ∷ (d ∷ s)) =
    let escaped = read_quoted s in
    let plain = read_quoted (d ∷ s) in
    if c == b'"'
    then some ([], d ∷ s)
    else if c == 10
    then none
    else if c == b'\\'
    then (if d == b'n'
        then push 10 escaped
        else if d == b'\\'
        then push d escaped
        else if d == b'"'
        then push d escaped
        else none)
    else push c plain

read_quoted-quote : (rest : Text) → read_quoted (b'"' ∷ rest) ≡ some ([], rest)
unfolding read_quoted
read_quoted-quote [] = refl
read_quoted-quote (d ∷ rest) = refl

-- A character that is neither escaped nor ends the value.
read_quoted-plain :
    (c : ℕ) (d : ℕ) (t : Text)
    → (c == b'"') ≡ false
    → (c == 10) ≡ false
    → (c == b'\\') ≡ false
    → read_quoted (c ∷ (d ∷ t)) ≡ push c (read_quoted (d ∷ t))
unfolding read_quoted
read_quoted-plain c d t q l b = rw (q, l, b) refl

-- Some text stands in front of the quote, or nothing.
before_quote : (t rest : Text) → (d : ℕ) × (u : Text) × (t ++ b'"' ∷ rest ≡ d ∷ u)
before_quote [] rest = (b'"', rest, refl)
before_quote (c ∷ t) rest = (c, t ++ b'"' ∷ rest, refl)

read_quoted-escape :
    (s rest : Text) → read_quoted (escape_label_value s ++ b'"' ∷ rest) ≡ some (s, rest)
unfolding escape_label_value read_quoted push
read_quoted-escape [] rest = read_quoted-quote rest
read_quoted-escape (c ∷ s) rest =
    let back = read_quoted-escape s rest in
    elim (Bool-cases (c == b'\\')) [
      | inl e ↦ let is : c ≡ b'\\' = ground (arith, e) in rw (e, back) (rw is refl)
      | inr e ↦ elim (Bool-cases (c == 10)) [
        | inl f ↦ let is : c ≡ 10 = ground (arith, f) in rw (e, f, back) (rw is refl)
        | inr f ↦ elim (Bool-cases (c == b'"')) [
          | inl g ↦ let is : c ≡ b'"' = ground (arith, g) in rw (e, f, g, back) (rw is refl)
          | inr g ↦
              let (d, u, split) = before_quote (escape_label_value s) rest in
              rw (e, f, g, split)
                (read_quoted-plain c d u g f e ∙ ap (push c) (ap read_quoted (sym split) ∙ back))
        ]
      ]
    ]

escape-one_line : (s : Text) → contains_char 10 (escape_label_value s) ≡ false
unfolding escape_label_value contains_char
escape-one_line [] = refl
escape-one_line (c ∷ s) = ground (arith, escape-one_line s)

-- An escaped label value between quotes reads back as the value, up to the closing quote and
-- whatever stands behind it, and holds no line feed.
pub read_quoted-escape_label_value :
    (s rest : Text)
    → (read_quoted (escape_label_value s ++ b'"' ∷ rest) ≡ some (s, rest))
      × (contains_char 10 (escape_label_value s) ≡ false)
read_quoted-escape_label_value s rest = (read_quoted-escape s rest, escape-one_line s)
