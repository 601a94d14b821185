-- ===== src/Prelude/Lists.antt =====
-- Lists measured by native numbers, and the list helpers that the components share.
use Prim.Native.Nat.{ℕ, suc, ◌+◌}
use mathlib.Core.Path.{◌≡◌, refl}
use mathlib.Core.Bool.{Bool, true, false, ◌||◌}
use mathlib.Core.Option.{Option, none, some}
use mathlib.Core.List.{List, [], ◌∷◌, ◌++◌, foldl}
use mathlib.Core.Logic.{◌⊎◌, inl, inr}
use native.Mathlib.Omega.{arith}
use house_analysis_ai.Prelude.Tests.{if◌then◌else◌}

module _ {ℓ} {A : Type ℓ} where
  abbrev pub length : List A → ℕ
  length [] = 0
  length (x ∷ xs) = suc (length xs)

  -- `[x for x in xs if p(x)]`
  abbrev pub keep : (A → Bool) → List A → List A
  keep p [] = []
  keep p (x ∷ xs) = if p x then x ∷ keep p xs else keep p xs

  abbrev pub any : (A → Bool) → List A → Bool
  any p [] = false
  any p (x ∷ xs) = p x || any p xs

  -- `sum(1 for x in xs if p(x))`
  abbrev pub count_if : (A → Bool) → List A → ℕ
  count_if p [] = 0
  count_if p (x ∷ xs) = (if p x then 1 else 0) + count_if p xs

  -- `next((x for x in xs if p(x)), None)`
  abbrev pub find : (A → Bool) → List A → Option A
  find p [] = none
  find p (x ∷ xs) = if p x then some x else find p xs

  abbrev pub All {κ} : (A → Type κ) → List A → Type κ
  All P [] = Unit
  All P (x ∷ xs) = P x × All P xs

  pub length-append : (xs ys : List A) → length (xs ++ ys) ≡ length xs + length ys
  length-append [] ys = omega arith
  length-append (x ∷ xs) ys = omega (arith, length-append xs ys)

module _ {ℓ} {A : Type ℓ} where
  -- `[f(x) for x in xs if p(x)]`, with the test and the result in one function.
  abbrev pub collect {κ} : {B : Type κ} → (A → Option B) → List A → List B
  collect f [] = []
  collect f (x ∷ xs) = elim (f x) [ none ↦ collect f xs | some y ↦ y ∷ collect f xs ]

  pub collect-All {κ μ} :
      {B : Type κ} (P : B → Type μ) (f : A → Option B) (xs : List A)
      → ((x : A) (y : B) → f x ≡ some y → P y)
      → All P (collect f xs)
  collect-All P f [] h = tt
  collect-All {B} P f (x ∷ xs) h = go (f x) refl (collect-All P f xs h)
    where
      go :
          (o : Option B)
          → f x ≡ o
          → All P (collect f xs)
          → All P (elim o [ none ↦ collect f xs | some y ↦ y ∷ collect f xs ])
      go none e rest = rest
      go (some y) e rest = (h x y e, rest)

  abbrev pub enumerate_from : ℕ → List A → List (ℕ × A)
  enumerate_from i [] = []
  enumerate_from i (x ∷ xs) = (i, x) ∷ enumerate_from (i + 1) xs

  abbrev pub enumerate : List A → List (ℕ × A)
  enumerate = enumerate_from 0

  pub All-append {κ} : (P : A → Type κ) (xs ys : List A) → All P xs → All P ys → All P (xs ++ ys)
  All-append P [] ys _ q = q
  All-append P (x ∷ xs) ys (p, ps) q = (p, All-append P xs ys ps q)

  pub All-always {κ} : {P : A → Type κ} → ((x : A) → P x) → (xs : List A) → All P xs
  All-always h [] = tt
  All-always h (x ∷ xs) = (h x, All-always h xs)

  pub keep-All : (p : A → Bool) (xs : List A) → All (λ x. p x ≡ true) (keep p xs)
  keep-All p [] = tt
  keep-All p (x ∷ xs) = ground (arith, keep-All p xs)

module _ {A : Type 0} where
  -- An element of the list.
  abbrev pub In : A → List A → Type 0
  In a [] = ⊥
  In a (x ∷ xs) = (x ≡ a) ⊎ In a xs

  pub All-In {κ} : (P : A → Type κ) (xs : List A) {a : A} → All P xs → In a xs → P a
  All-In P [] h m = absurd m
  All-In P (x ∷ xs) h (inl e) = rw (← e) h.0
  All-In P (x ∷ xs) h (inr m) = All-In P xs h.1 m

  pub In-keep : (p : A → Bool) (xs : List A) {a : A} → In a (keep p xs) → In a xs × (p a ≡ true)
  In-keep p [] m = absurd m
  In-keep p (x ∷ xs) {a} m = ground (arith, In-keep p xs {a = a})

  pub keep-In : (p : A → Bool) (xs : List A) {a : A} → In a xs → p a ≡ true → In a (keep p xs)
  keep-In p [] m h = absurd m
  keep-In p (x ∷ xs) {a} (inl e) h = ground arith
  keep-In p (x ∷ xs) {a} (inr m) h = ground (arith, keep-In p xs {a = a} m h)

-- What every step of a left fold keeps, the fold keeps.
pub foldl-keeps {ℓ κ μ} :
    {A : Type ℓ} {S : Type κ} (P : S → Type μ) (Q : A → Type μ) (f : S → A → S) (s : S)
    (xs : List A)
    → ((s : S) (x : A) → Q x → P s → P (f s x))
    → All Q xs
    → P s
    → P (foldl f s xs)
foldl-keeps P Q f s [] step h p = p
foldl-keeps P Q f s (x ∷ xs) step h p = foldl-keeps P Q f (f s x) xs step h.1 (step s x h.0 p)
