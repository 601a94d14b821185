-- ===== src/Prelude/Tests.antt =====
-- Boolean tests on the native numbers and on texts, and the conditional.
use Prim.Native.Nat.{ℕ, ◌≤◌, ◌<◌, compare, Ordering}
use Prim.Native.String.{String}
use mathlib.Core.Path.{◌≡◌, refl}
use mathlib.Core.Logic.{◌↔◌, ◌⊎◌, inl, inr}
use mathlib.Core.Bool.{Bool, true, false, ◌||◌}
use mathlib.Core.Option.{Option, none, some}
use mathlib.Core.List.{List, [], ◌∷◌}
use native.Mathlib.Omega.{arith}
use text.Mathlib.Text.{◌==◌ as text_eq}

abbrev pub ltb : ℕ → ℕ → Bool
ltb a b = elim (compare a b) [ Ordering.lt ↦ true | _ ↦ false ]

abbrev pub leb : ℕ → ℕ → Bool
leb a b = elim (compare a b) [ Ordering.gt ↦ false | _ ↦ true ]

abbrev pub nat_eq : ℕ → ℕ → Bool
nat_eq a b = elim (compare a b) [ Ordering.eq ↦ true | _ ↦ false ]

infix 1 if◌then◌else◌
abbrev pub if◌then◌else◌ {ℓ} : {A : Type ℓ} → Bool → A → A → A
if true then x else y = x
if false then x else y = y

-- Python's `==`, on the types that the program compares.
pub record Eq {ℓ} (A : Type ℓ) : Type ℓ where
  pub beq : A → A → Bool

infix 50 ◌==◌
abbrev pub ◌==◌ {ℓ} : {A : Type ℓ} ⦃e : Eq A⦄ → A → A → Bool
◌==◌ ⦃e⦄ = e.beq

instance abbrev pub number_eq : Eq ℕ
number_eq = record { beq = nat_eq }

instance abbrev pub string_eq : Eq String
string_eq = record { beq = text_eq }

-- `a in (...)`
abbrev pub one_of {ℓ} : {A : Type ℓ} ⦃e : Eq A⦄ → A → List A → Bool
one_of a [] = false
one_of a (x ∷ xs) = a == x || one_of a xs

-- `None == None` holds, and `None == x` does not.
abbrev pub same_option {ℓ} : {A : Type ℓ} → (A → A → Bool) → Option A → Option A → Bool
same_option f none none = true
same_option f (some a) (some b) = f a b
same_option f _ _ = false

abbrev pub is_some {ℓ} : {A : Type ℓ} → Option A → Bool
is_some none = false
is_some (some _) = true

pub leb→le : (a b : ℕ) → leb a b ≡ true → a ≤ b
leb→le a b h = ground arith

pub ltb→lt : (a b : ℕ) → ltb a b ≡ true → a < b
ltb→lt a b h = ground arith

pub nat_eq_iff : (a b : ℕ) → (nat_eq a b ≡ true) ↔ (a ≡ b)
nat_eq_iff a b = ground arith

pub true_not_false : true ≡ false → ⊥
true_not_false e = cc

pub or_both_false : (a b : Bool) → a ≡ false → b ≡ false → (a || b) ≡ false
or_both_false true b e f = cc
or_both_false false b e f = f

pub or_first_false : (a b : Bool) → (a || b) ≡ false → a ≡ false
or_first_false true b e = cc
or_first_false false b e = refl

pub or_second_false : (a b : Bool) → (a || b) ≡ false → b ≡ false
or_second_false true b e = cc
or_second_false false b e = e

pub or_first_true : (a b : Bool) → a ≡ true → (a || b) ≡ true
or_first_true true b e = refl
or_first_true false b e = cc

pub or_second_true : (a b : Bool) → b ≡ true → (a || b) ≡ true
or_second_true true b e = refl
or_second_true false b e = e

-- To split on a computed value and keep the equation.
pub Bool-cases : (b : Bool) → (b ≡ true) ⊎ (b ≡ false)
Bool-cases true = inl refl
Bool-cases false = inr refl

pub Option-cases {ℓ} : {A : Type ℓ} (o : Option A) → (o ≡ none) ⊎ ((a : A) × (o ≡ some a))
Option-cases none = inl refl
Option-cases (some a) = inr (a, refl)

-- To split where a function computes by an option or a test.
pub Option-elim_keeps {ℓ κ μ} :
    {A : Type ℓ} {B : Type κ} (P : B → Type μ) (o : Option A) (x : B) (f : A → B)
    → P x
    → ((a : A) → o ≡ some a → P (f a))
    → P (elim o [ none ↦ x | some a ↦ f a ])
Option-elim_keeps P none x f hx hf = hx
Option-elim_keeps P (some a) x f hx hf = hf a refl

pub if_keeps {κ μ} :
    {B : Type κ} (P : B → Type μ) (b : Bool) (x y : B)
    → (b ≡ true → P x)
    → (b ≡ false → P y)
    → P (if b then x else y)
if_keeps P true x y hx hy = hx refl
if_keeps P false x y hx hy = hy refl
