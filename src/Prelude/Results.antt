-- ===== src/Prelude/Results.antt =====
-- What a call that may raise gives back, and postconditions of such calls.
use Prim.Native.String.{String}
use mathlib.Core.Path.{◌≡◌, refl, subst}
use mathlib.Core.Bool.{Bool, true, false, not, ◌&&◌, ◌||◌}
use mathlib.Core.Option.{Option, none, some}
use mathlib.Core.List.{List, [], ◌∷◌}
use house_analysis_ai.Prelude.Tests.{if◌then◌else◌, is_some}
use house_analysis_ai.Prelude.Lists.{All}

-- Python's exceptions that the modelled code raises itself or meets.
pub data Error : Type 0 where
  value_error : String → Error
  key_error : String → Error
  type_error : Error
  arithmetic_error : Error

pub data Result {ℓ} (A : Type ℓ) : Type ℓ where
  err : Error → Result A
  ok : A → Result A

abbrev pub raise_if : Bool → Error → Result (Unit {0})
raise_if false e = ok tt
raise_if true e = err e

infixl 5 ◌>>=◌
-- Shut, so that a proof about a `do` block meets the block's steps; a run unfolds it.
unfoldable pub ◌>>=◌ {ℓ κ} : {X : Type ℓ} {Y : Type κ} → Result X → (X → Result Y) → Result Y
err e >>= next = err e
ok x >>= next = next x

infixl 5 ◌>>◌
-- a statement whose result is not used
abbrev pub ◌>>◌ {ℓ} : {Y : Type ℓ} → Result (Unit {0}) → Result Y → Result Y
first >> second = first >>= λ done. second

abbrev pub or_raise {ℓ} : {A : Type ℓ} → Option A → Error → Result A
or_raise none e = err e
or_raise (some a) e = ok a

abbrev pub is_ok {ℓ} : {A : Type ℓ} → Result A → Bool
is_ok (ok a) = true
is_ok (err e) = false

-- A call for each element; the first exception ends it.
abbrev pub each {ℓ κ} : {A : Type ℓ} {B : Type κ} → (A → Result B) → List A → Result (List B)
each f [] = ok []
each f (x ∷ xs) = do y ← f x; ys ← each f xs; ok (y ∷ ys)

-- The result of a call that returns has the property; a call that raises has none.
pub data Ensures {ℓ κ} {A : Type ℓ} (P : A → Type κ) : Result A → Type (ℓ ⊔ κ) where
  returns : {a : A} → P a → Ensures P (ok a)
  raises : {e : Error} → Ensures P (err e)

module _ {ℓ κ} {A : Type ℓ} {P : A → Type κ} where
  pub Ensures-ok : {r : Result A} {a : A} → Ensures P r → r ≡ ok a → P a
  Ensures-ok (returns h) e = subst P (cc) h
  Ensures-ok raises e = cc

  -- A postcondition of the rest of the call, whatever the first part gave.
  pub Ensures-then {ℓ'} :
      {B : Type ℓ'} (r : Result B) (f : B → Result A)
      → ((b : B) → Ensures P (f b))
      → Ensures P (r >>= f)
  unfolding ◌>>=◌
  Ensures-then (ok b) f k = k b
  Ensures-then (err e) f k = raises

  pub Ensures-bind {ℓ' κ'} :
      {B : Type ℓ'} {Q : B → Type κ'} {r : Result B} (f : B → Result A)
      → Ensures Q r
      → ((b : B) → Q b → Ensures P (f b))
      → Ensures P (r >>= f)
  unfolding ◌>>=◌
  Ensures-bind f (returns {a} h) k = k a h
  Ensures-bind f raises k = raises

module _ {ℓ κ} {A : Type ℓ} {P : A → Type κ} where
  -- Past a guard the guarded condition is false.
  pub Ensures-raise_if :
      (b : Bool) (e : Error) (f : Unit {0} → Result A)
      → (b ≡ false → Ensures P (f tt))
      → Ensures P (raise_if b e >>= f)
  unfolding ◌>>=◌
  Ensures-raise_if true e f k = raises
  Ensures-raise_if false e f k = k refl

  pub Ensures-if :
      (b : Bool) (x y : Result A)
      → (b ≡ true → Ensures P x)
      → (b ≡ false → Ensures P y)
      → Ensures P (if b then x else y)
  Ensures-if true x y hx hy = hx refl
  Ensures-if false x y hx hy = hy refl

  pub Ensures-option {ℓ'} :
      {B : Type ℓ'} (o : Option B) (x : Result A) (f : B → Result A)
      → Ensures P x
      → ((b : B) → o ≡ some b → Ensures P (f b))
      → Ensures P (elim o [ none ↦ x | some b ↦ f b ])
  Ensures-option none x f hx hf = hx
  Ensures-option (some b) x f hx hf = hf b refl

pub or_raise-Ensures {ℓ} :
    {A : Type ℓ} (o : Option A) (e : Error) → Ensures (λ a. o ≡ some a) (or_raise o e)
or_raise-Ensures none e = raises
or_raise-Ensures (some a) e = returns refl

module _ {ℓ κ} {A : Type ℓ} {B : Type κ} where
  -- A call that returns went through its first part, and the other way round.
  pub bind-ok :
      (r : Result A) (f : A → Result B) {b : B}
      → (r >>= f) ≡ ok b
      → (a : A) × (r ≡ ok a) × (f a ≡ ok b)
  unfolding ◌>>=◌
  bind-ok (ok a) f e = (a, refl, e)
  bind-ok (err x) f e = cc

  pub ok-bind :
      {r : Result A} {a : A} (f : A → Result B) {b : B} → r ≡ ok a → f a ≡ ok b → (r >>= f) ≡ ok b
  unfolding ◌>>=◌
  ok-bind f e k = rw e k

  pub is_ok-bind :
      (r : Result A) (f : A → Result B) (b : Bool)
      → ((a : A) → is_ok (f a) ≡ b)
      → is_ok (r >>= f) ≡ (is_ok r && b)
  unfolding ◌>>=◌
  is_ok-bind (ok a) f b h = h a
  is_ok-bind (err e) f b h = refl

  pub is_ok-last : (r : Result A) (g : A → B) → is_ok (r >>= λ a. ok (g a)) ≡ is_ok r
  unfolding ◌>>=◌
  is_ok-last (ok a) g = refl
  is_ok-last (err e) g = refl

  pub is_ok-or_raise :
      (o : Option A) (e : Error) (f : A → Result B) (b : Bool)
      → ((a : A) → is_ok (f a) ≡ b)
      → is_ok (or_raise o e >>= f) ≡ (is_some o && b)
  unfolding ◌>>=◌
  is_ok-or_raise none e f b h = refl
  is_ok-or_raise (some a) e f b h = h a

pub is_ok-raise_if {κ} :
    {B : Type κ} (c : Bool) (e : Error) (f : Unit {0} → Result B) (b : Bool)
    → is_ok (f tt) ≡ b
    → is_ok (raise_if c e >>= f) ≡ (not c && b)
unfolding ◌>>=◌
is_ok-raise_if true e f b h = refl
is_ok-raise_if false e f b h = h

-- A guard before a result.
pub is_ok-guard {κ} :
    {B : Type κ} (c : Bool) (e : Error) (x : B) → is_ok (raise_if c e >>= λ t. ok x) ≡ not c
unfolding ◌>>=◌
is_ok-guard true e x = refl
is_ok-guard false e x = refl

-- Calls that depend on a test or on an option; one of the two cases never raises.
module _ {κ} {B : Type κ} where
  pub is_ok-else :
      (c : Bool) (x y : Result B) (b : Bool)
      → is_ok x ≡ true
      → (c ≡ false → is_ok y ≡ b)
      → is_ok (if c then x else y) ≡ (c || b)
  is_ok-else true x y b h k = h
  is_ok-else false x y b h k = k refl

  pub is_ok-then :
      (c : Bool) (x y : Result B) (b : Bool)
      → is_ok x ≡ b
      → is_ok y ≡ true
      → is_ok (if c then x else y) ≡ (not c || b)
  is_ok-then true x y b h k = h
  is_ok-then false x y b h k = k

  pub is_ok-some {ℓ} :
      {A : Type ℓ} (o : Option A) (x : Result B) (f : A → Result B) (b : Bool)
      → is_ok x ≡ true
      → ((a : A) → is_ok (f a) ≡ b)
      → is_ok (elim o [ none ↦ x | some a ↦ f a ]) ≡ (not (is_some o) || b)
  is_ok-some none x f b h k = h
  is_ok-some (some a) x f b h k = k a

  pub is_ok-elim {ℓ} :
      {A : Type ℓ} (o : Option A) (x : Result B) (f : A → Result B) (g : A → Bool)
      → is_ok x ≡ true
      → ((a : A) → is_ok (f a) ≡ g a)
      → is_ok (elim o [ none ↦ x | some a ↦ f a ]) ≡ elim o [ none ↦ true | some a ↦ g a ]
  is_ok-elim none x f g h k = h
  is_ok-elim (some a) x f g h k = k a

-- What every call ensures, the calls for a list ensure of all their results.
pub each-All {ℓ κ μ} :
    {A : Type ℓ} {B : Type κ} (P : B → Type μ) (f : A → Result B) (xs : List A)
    → ((x : A) → Ensures P (f x))
    → Ensures (All P) (each f xs)
each-All P f [] h = returns tt
each-All P f (x ∷ xs) h =
    Ensures-bind _ (h x) λ y p. Ensures-bind _ (each-All P f xs h) λ ys ps. returns (p, ps)

pub Ensures-weaken {ℓ κ μ} :
    {A : Type ℓ} {P : A → Type κ} {Q : A → Type μ} {r : Result A}
    → ((a : A) → P a → Q a)
    → Ensures P r
    → Ensures Q r
Ensures-weaken h (returns p) = returns (h _ p)
Ensures-weaken h raises = raises
