-- ===== src/Prelude/Int.antt =====
-- Signed integers over the native numbers. A C `int32_t` is an integer; `negsuc n` is -(n + 1).
use Prim.Native.Nat.{ℕ, ◌+◌, ◌-◌, ◌%◌}
use mathlib.Core.Path.{◌≡◌, refl, ap}
use mathlib.Core.Logic.{◌≢◌, ◌⊎◌, inl, inr}
use native.Mathlib.Omega.{arith}
use mathlib.Core.Bool.{Bool, true, false}
use waeio.Prelude.Tests.{◌==◌, ==_iff, ltb, if◌then◌else◌, Bool-cases}
use waeio.Prelude.Words.{u32_mod}

pub data ℤ : Type 0 where
  pos : ℕ → ℤ
  negsuc : ℕ → ℤ

abbrev pub minus_one : ℤ
minus_one = negsuc 0

-- `x < 0`
abbrev pub is_neg : ℤ → Bool
is_neg (pos n) = false
is_neg (negsuc n) = true

abbrev pub eq_ℤ : ℤ → ℤ → Bool
eq_ℤ (pos a) (pos b) = a == b
eq_ℤ (negsuc a) (negsuc b) = a == b
eq_ℤ (pos a) (negsuc b) = false
eq_ℤ (negsuc a) (pos b) = false

-- The value of a non-negative integer, as the cast to `uint32_t` gives it.
abbrev pub to_nat : ℤ → ℕ
to_nat (pos n) = n
to_nat (negsuc n) = 0

pub eq_ℤ→eq : (a b : ℤ) → eq_ℤ a b ≡ true → a ≡ b
eq_ℤ→eq (pos a) (pos b) h = ground arith
eq_ℤ→eq (negsuc a) (negsuc b) h = ground arith
eq_ℤ→eq (pos a) (negsuc b) h = cc
eq_ℤ→eq (negsuc a) (pos b) h = cc

-- `(int32_t)x` of a word.
abbrev pub to_int32 : ℕ → ℤ
to_int32 n = if ltb n 2147483648 then pos n else negsuc (u32_mod - 1 - n)

-- The sum, as in the address `p + offset`.
abbrev pub add_ℤ : ℤ → ℤ → ℤ
add_ℤ (pos a) (pos b) = pos (a + b)
add_ℤ (negsuc a) (negsuc b) = negsuc (a + b + 1)
add_ℤ (pos a) (negsuc b) = if ltb b a then pos (a - b - 1) else negsuc (b - a)
add_ℤ (negsuc a) (pos b) = if ltb a b then pos (b - a - 1) else negsuc (a - b)

-- `(uint32_t)x`
abbrev pub to_u32 : ℤ → ℕ
to_u32 (pos n) = n % u32_mod
to_u32 (negsuc n) = u32_mod - 1 - n % u32_mod

pub ℤ-cases : (z : ℤ) → ((n : ℕ) × (z ≡ pos n)) ⊎ ((n : ℕ) × (z ≡ negsuc n))
ℤ-cases (pos n) = inl (n, refl)
ℤ-cases (negsuc n) = inr (n, refl)

pub eq_ℤ-ne : (a b : ℤ) → a ≢ b → eq_ℤ a b ≡ false
eq_ℤ-ne a b ne = elim (Bool-cases (eq_ℤ a b)) [ inl q ↦ absurd (ne (eq_ℤ→eq a b q)) | inr q ↦ q ]

eq_ℤ-refl : (a : ℤ) → eq_ℤ a a ≡ true
eq_ℤ-refl (pos n) = (==_iff n n).1 refl
eq_ℤ-refl (negsuc n) = (==_iff n n).1 refl

pub eq_ℤ→ne : (a b : ℤ) → eq_ℤ a b ≡ false → a ≢ b
eq_ℤ→ne a b h q = cc (h, eq_ℤ-refl a, ap (eq_ℤ a) q)

pub zero_answer : (x : ℤ) → is_neg x ≡ false → (to_nat x == 0) ≡ true → x ≡ pos 0
zero_answer (pos n) got q = ground arith
zero_answer (negsuc n) got q = cc

pub other_answer : (x : ℤ) → (to_nat x == 0) ≡ false → x ≢ pos 0
other_answer x q e = cc (q, ap (λ y. to_nat y == 0) e)
