-- ===== src/Bridge/AutoSize/Pins.antt =====
-- bridge/autosize.go: what PinCounts counts, and whose label a VM is pinned by.
use orchard_gh_bridge.Base.{
  ℕ, ◌+◌, ◌≡◌, ◌≢◌, ◌∙◌, Bool, if◌then◌else◌, Text, text_eq, text_eq_iff, is_empty, List, [], ◌∷◌,
  count_if, Dict, lookup, insert, get_or, lookup-insert, arith,
}
use orchard_gh_bridge.Orchard.{Worker}
use orchard_gh_bridge.Bridge.AutoSize.{pin_identity, pin_counts_from, pin_counts}

-- The workers that carry a pin identity.
abbrev pub has_pin : Text → Worker → Bool
has_pin pin w = text_eq (pin_identity w) pin

get_or-insert :
    (k j : Text) (n : ℕ) (m : Dict ℕ)
    → get_or 0 j (insert k n m) ≡ (if text_eq k j then n else get_or 0 j m)
get_or-insert k j n m = ground (arith, lookup-insert k j n m)

pin_counts_from-count :
    (pin : Text) (out : Dict ℕ) (ws : List Worker)
    → pin ≢ []
    → get_or 0 pin (pin_counts_from out ws) ≡ get_or 0 pin out + count_if (has_pin pin) ws
unfolding pin_counts_from
pin_counts_from-count pin out [] h = omega arith
pin_counts_from-count pin out (w ∷ ws) h =
    let p = pin_identity w in
    let out' = if is_empty p then out else insert p (get_or 0 p out + 1) out in
    pin_counts_from-count pin out' ws h
    ∙ ground (arith, get_or-insert p pin (get_or 0 p out + 1) out, text_eq_iff p pin)

-- PinCounts gives for every identity the number of workers that carry it.
pub pin_counts-count :
    (pin : Text) (ws : List Worker)
    → pin ≢ []
    → get_or 0 pin (pin_counts ws) ≡ count_if (has_pin pin) ws
unfolding pin_counts lookup
pin_counts-count pin ws h = pin_counts_from-count pin [] ws h ∙ omega arith
