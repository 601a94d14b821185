-- ===== src/Python/Fixed.antt =====
-- An instance: fixed-point numbers in millionths, and ASCII texts that are lower case already.
-- It runs the model on concrete records, and shows that the laws can hold.
use house_analysis_ai.Prelude.{
  subst, sym, ℕ, zero, suc, ◌+◌, ◌*◌, ◌/◌, ◌≤◌, ◌≡◌, Bool, true, false, leb→le, ltb, arith,
  if◌then◌else◌,
}
use house_analysis_ai.Prelude.Int.{ℤ, pos, negsuc, pos_part, neg_part, sub_ℕ, leb_ℤ}
use native.Mathlib.Nat.{mul-le-mul, le_refl, zero-div}
use house_analysis_ai.Python.Ops.{Python, ◌≼◌, lt}
use house_analysis_ai.Python.Laws.{IsDecimal}

abbrev pub Fixed : Type 0
Fixed = ℤ

-- 10 ** (6 - k)
abbrev scale : ℕ → ℕ
scale zero = 1_000_000
scale (suc zero) = 100_000
scale (suc (suc zero)) = 10_000
scale (suc (suc (suc zero))) = 1_000
scale (suc (suc (suc (suc zero)))) = 100
scale (suc (suc (suc (suc (suc zero))))) = 10
scale (suc (suc (suc (suc (suc (suc k)))))) = 1

abbrev size : ℤ → ℕ
size a = pos_part a + neg_part a

abbrev is_negative : ℤ → Bool
is_negative (pos _) = false
is_negative (negsuc _) = true

abbrev signed : Bool → Bool → ℕ → ℤ
signed true b n = if b then pos n else sub_ℕ 0 n
signed false b n = if b then sub_ℕ 0 n else pos n

-- to the nearest multiple of n, and a half away from zero
abbrev half_up : ℕ → ℤ → ℤ
half_up n (pos a) = pos ((a + n / 2) / n * n)
half_up n (negsuc a) = sub_ℕ 0 ((suc a + n / 2) / n * n)

abbrev times_fixed : ℤ → ℤ → ℤ
times_fixed a b = signed (is_negative a) (is_negative b) (size a * size b / 1_000_000)

abbrev cut : ℤ → ℤ
cut (pos n) = pos (n / 1_000_000)
cut (negsuc n) = sub_ℕ 0 (suc n / 1_000_000)

-- a ** n, a whole number of times
abbrev power_times : ℤ → ℕ → ℤ
power_times a zero = pos 1_000_000
power_times a (suc n) = times_fixed a (power_times a n)

-- the whole part of a square root, by Newton's steps downwards
abbrev newton : ℕ → ℕ → ℕ → ℕ
newton zero n x = x
newton (suc f) n x =
    let next = (x + n / x) / 2 in elim (ltb next x) [ true ↦ newton f n next | false ↦ x ]

-- `abbrev`, so that the model runs on it.
instance abbrev pub fixed_python : Python Fixed
fixed_python = record {
  dec = λ n k. pos (n * scale k);
  of_int = λ i. signed (is_negative i) false (size i * 1_000_000);
  to_int = cut;
  plus = λ a b. sub_ℕ (pos_part a + pos_part b) (neg_part a + neg_part b);
  minus = λ a b. sub_ℕ (pos_part a + neg_part b) (neg_part a + pos_part b);
  times = times_fixed;
  over = λ a b. signed (is_negative a) (is_negative b) (size a * 1_000_000 / size b);
  power = λ a b. power_times a (pos_part (cut b));
  le = leb_ℤ;
  quantize = λ k a. half_up (scale k) a;
  absolute = λ a. pos (size a);
  root = λ a. pos (newton 64 (size a * 1_000_000) (size a * 1_000_000 + 1));
  casefold = λ s. s;
  lower = λ s. s;
  upper = λ s. s;
  strip = λ s. s;
  before_colon = λ s. s;
}

quantize_mono_lem :
    (k : ℕ) (a b : Fixed) → a ≼ b → fixed_python.quantize k a ≼ fixed_python.quantize k b
quantize_mono_lem zero a b h = ground arith
quantize_mono_lem (suc zero) a b h = ground arith
quantize_mono_lem (suc (suc zero)) a b h = ground arith
quantize_mono_lem (suc (suc (suc zero))) a b h = ground arith
quantize_mono_lem (suc (suc (suc (suc zero)))) a b h = ground arith
quantize_mono_lem (suc (suc (suc (suc (suc zero))))) a b h = ground arith
quantize_mono_lem (suc (suc (suc (suc (suc (suc k)))))) a b h = ground arith

quantize_whole_lem :
    (k n : ℕ) → fixed_python.quantize k (fixed_python.dec n 0) ≡ fixed_python.dec n 0
quantize_whole_lem zero n = ground arith
quantize_whole_lem (suc zero) n = ground arith
quantize_whole_lem (suc (suc zero)) n = ground arith
quantize_whole_lem (suc (suc (suc zero))) n = ground arith
quantize_whole_lem (suc (suc (suc (suc zero)))) n = ground arith
quantize_whole_lem (suc (suc (suc (suc (suc zero))))) n = ground arith
quantize_whole_lem (suc (suc (suc (suc (suc (suc k)))))) n = ground arith

dec_mono_lem : (m n k : ℕ) → m ≤ n → fixed_python.dec m k ≼ fixed_python.dec n k
dec_mono_lem m n k h = grind (arith, mul-le-mul h (le_refl (scale k)))

times_mono_lem :
    (a b c d : Fixed) → pos 0 ≼ a → a ≼ b → pos 0 ≼ c → c ≼ d → times_fixed a c ≼ times_fixed b d
times_mono_lem (pos a) (pos b) (pos c) (pos d) h ab k cd =
    ground (arith, mul-le-mul (leb→le (a + 0) (b + 0) ab) (leb→le (c + 0) (d + 0) cd))
times_mono_lem a b c d h ab k cd = ground arith

times_mono_right_lem : (a c d : Fixed) → pos 0 ≼ a → c ≼ d → times_fixed a c ≼ times_fixed a d
times_mono_right_lem (pos a) (pos c) (pos d) h k =
    ground (arith, mul-le-mul (le_refl a) (leb→le (c + 0) (d + 0) k))
times_mono_right_lem (pos a) (negsuc c) (negsuc d) h k =
    let smaller : suc d ≤ suc c = ground arith in ground (arith, mul-le-mul (le_refl a) smaller)
times_mono_right_lem (pos a) (negsuc c) (pos d) h k = ground arith
times_mono_right_lem (pos a) (pos c) (negsuc d) h k = ground arith
times_mono_right_lem (negsuc a) c d h k = ground arith

quantize_again_lem :
    (k : ℕ) (a : Fixed)
    → fixed_python.quantize k (fixed_python.quantize k a) ≡ fixed_python.quantize k a
quantize_again_lem zero a = ground arith
quantize_again_lem (suc zero) a = ground arith
quantize_again_lem (suc (suc zero)) a = ground arith
quantize_again_lem (suc (suc (suc zero))) a = ground arith
quantize_again_lem (suc (suc (suc (suc zero)))) a = ground arith
quantize_again_lem (suc (suc (suc (suc (suc zero))))) a = ground arith
quantize_again_lem (suc (suc (suc (suc (suc (suc k)))))) a = ground arith

times_one_lem : (a : Fixed) → times_fixed a (pos 1_000_000) ≡ a
times_one_lem (pos a) = ground arith
times_one_lem (negsuc a) = ground arith

fixed_refl : (a : Fixed) → a ≼ a
fixed_refl a = ground arith

fixed_le_of_eq : (a b : Fixed) → a ≡ b → a ≼ b
fixed_le_of_eq a b e = rw e (fixed_refl b)

over_zero : (n : ℕ) → fixed_python.over (pos 0) (pos n) ≼ pos 0
over_zero n = rw (zero-div (n + 0)) (λ i. true)

over-le-zero_lem : (a b : Fixed) → a ≼ pos 0 → lt (pos 0) b ≡ true → fixed_python.over a b ≼ pos 0
over-le-zero_lem (pos zero) (pos b) h k = over_zero b
over-le-zero_lem (pos zero) (negsuc b) h k = ground arith
over-le-zero_lem (pos (suc n)) b h k = ground arith
over-le-zero_lem (negsuc n) (pos b) h k = ground arith
over-le-zero_lem (negsuc n) (negsuc b) h k = ground arith

-- A sum of multiples of n is one of them.
quantize_plus_lem :
    (k : ℕ) (a b : Fixed)
    → fixed_python.quantize k
        (fixed_python.plus (fixed_python.quantize k a) (fixed_python.quantize k b))
      ≡ fixed_python.plus (fixed_python.quantize k a) (fixed_python.quantize k b)
quantize_plus_lem zero a b = ground arith
quantize_plus_lem (suc zero) a b = ground arith
quantize_plus_lem (suc (suc zero)) a b = ground arith
quantize_plus_lem (suc (suc (suc zero))) a b = ground arith
quantize_plus_lem (suc (suc (suc (suc zero)))) a b = ground arith
quantize_plus_lem (suc (suc (suc (suc (suc zero))))) a b = ground arith
quantize_plus_lem (suc (suc (suc (suc (suc (suc k)))))) a b = ground arith

pub Fixed-IsDecimal : IsDecimal Fixed
Fixed-IsDecimal = record {
  le_total = λ a b. ground arith;
  le_trans = λ a b c h k. ground arith;
  dec_mono = dec_mono_lem;
  plus_mono = λ a b c d h k. ground arith;
  minus_mono = λ a b c d h k. ground arith;
  zero-le-plus = λ a b h k. ground arith;
  times_mono = times_mono_lem;
  zero-le-times = λ a b h k. ground arith;
  quantize_mono = quantize_mono_lem;
  quantize_whole =
      λ k n. subst (λ x. x ≼ fixed_python.dec n 0) (sym (quantize_whole_lem k n)) (ground arith);
  whole_quantize =
      λ k n. subst (λ x. fixed_python.dec n 0 ≼ x) (sym (quantize_whole_lem k n)) (ground arith);
  times_mono_right = times_mono_right_lem;
  zero-le-over = λ a b h k. ground arith;
  zero-le-dec = λ n k. ground arith;
  one-minus-zero = ground arith;
  one-plus-zero = ground arith;
  quantize_again = λ k a. fixed_le_of_eq _ _ (quantize_again_lem k a);
  again_quantize = λ k a. fixed_le_of_eq _ _ (sym (quantize_again_lem k a));
  quantize-times-one = λ k a. fixed_le_of_eq _ _ (times_one_lem (fixed_python.quantize k a));
  one-times-quantize = λ k a. fixed_le_of_eq _ _ (sym (times_one_lem (fixed_python.quantize k a)));
  absolute_minus_self = λ a. ground arith;
  zero-lt-absolute = λ a h. ground arith;
  over-le-zero = over-le-zero_lem;
  quantize-minus-zero = λ k a. ground arith;
  quantize_plus = λ k a b. fixed_le_of_eq _ _ (quantize_plus_lem k a b);
  plus_quantize = λ k a b. fixed_le_of_eq _ _ (sym (quantize_plus_lem k a b));
  zero-le-minus = λ a b h. ground arith;
}
