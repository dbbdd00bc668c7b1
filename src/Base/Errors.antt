-- ===== src/Base/Errors.antt =====
-- Go's (value, error) pairs, and calls of an outside service. An error is one of the Orchard
-- client's API errors with its HTTP status, a plain message, or a wrapped error (fmt.Errorf, %w).
-- `W` is the state of the world that the services of the program act on.
use Prim.Native.Nat.{ℕ}
use mathlib.Core.Path.{◌≡◌, refl}
use mathlib.Core.Logic.{◌⊎◌, inl, inr}
use mathlib.Core.Bool.{Bool, true, false}
use orchard_gh_bridge.Base.Texts.{Text}

pub data Error : Type 0 where
  api_error : ℕ → Error
  plain : Text → Error
  wrapped : Text → Error → Error
  -- not an error that the code returns: a run-time panic, which ends the process
  panicked : Text → Error

pub data Result {ℓ} (A : Type ℓ) : Type ℓ where
  ok : A → Result A
  err : Error → Result A

-- What a function that returns only an error answers.
abbrev pub Done : Type 0
Done = Result (Unit {0})

abbrev pub Io : Type 0 → Type 0 → Type 0
Io W A = W → Result A × W

infixl 5 ◌>>=◌ ◌>>◌
abbrev pub ◌>>=◌ : {W A B : Type 0} → Io W A → (A → Io W B) → Io W B
◌>>=◌ m f w = let (r, w') = m w in elim r [ ok a ↦ f a w' | err e ↦ (err e, w') ]

abbrev pub ◌>>◌ : {W A B : Type 0} → Io W A → Io W B → Io W B
m >> k = m >>= λ _. k

abbrev pub pure : {W A : Type 0} → A → Io W A
pure a w = (ok a, w)

-- if err != nil { return fmt.Errorf("msg: %w", err) }
abbrev pub wrap_err : {W A : Type 0} → Text → Io W A → Io W A
wrap_err msg m w =
    let (r, w') = m w in elim r [ ok a ↦ (ok a, w') | err e ↦ (err (wrapped msg e), w') ]

pub Result-cases {ℓ} :
    {A : Type ℓ} (r : Result A) → ((a : A) × (r ≡ ok a)) ⊎ ((e : Error) × (r ≡ err e))
Result-cases (ok a) = inl (a, refl)
Result-cases (err e) = inr (e, refl)

-- err == nil
abbrev pub is_ok {ℓ} : {A : Type ℓ} → Result A → Bool
is_ok (ok a) = true
is_ok (err e) = false
