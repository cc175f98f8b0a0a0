-- ===== src/Prelude/Bits.antt =====
-- Binary digits of words: the digits of `|`, `&`, `1 << i` and `~(1 << i)`, and words that agree in
-- every digit.
use Prim.Native.Nat.{ℕ, zero, suc, ◌+◌, ◌-◌, ◌*◌, ◌/◌, ◌%◌, ◌^◌, ◌≤◌, ◌<◌, min, max}
use Prim.Native.Nat.{bit_and, bit_or, digits, bitwise, bit_and-bitwise, bit_or-bitwise}
use mathlib.Core.Path.{◌≡◌, refl, ◌∙◌}
use native.Mathlib.Nat.{le_refl, pow-suc, one-le-pow}
use native.Mathlib.Omega.{arith}
use mathlib.Core.Logic.{inl, inr}
use waeio.Prelude.Tests.{if◌then◌else◌, ◌==◌, leb, Bool-cases}
use waeio.Prelude.Words.{u32_mod, shl_one, not32}

-- `digits` takes a number of rounds. Rounds beyond the first operand change nothing, so the operations
-- satisfy an equation for the lowest digit that has no rounds in it.
module _ (past : ℕ → ℕ) (digit : ℕ → ℕ → ℕ) where
  spare_round :
      (rounds x y : ℕ)
      → x ≤ rounds
      → digits past digit (suc rounds) x y ≡ digits past digit rounds x y
  spare_round zero zero y le = refl
  spare_round (suc rounds) zero y le = refl
  spare_round zero (suc x) y le = absurd (omega arith)
  spare_round (suc rounds) (suc x) y le = rw (spare_round rounds (suc x / 2) (y / 2) (omega arith))

  enough_rounds :
      (rounds x y : ℕ) → x ≤ rounds → digits past digit rounds x y ≡ digits past digit x x y
  enough_rounds zero zero y le = refl
  enough_rounds zero (suc x) y le = absurd (omega arith)
  enough_rounds (suc rounds) x y le = elim (Bool-cases (leb x rounds)) [
    | inl some_spare ↦
        let h : x ≤ rounds = ground arith in spare_round rounds x y h ∙ enough_rounds rounds x y h
    | inr none_spare ↦ let q : x ≡ suc rounds = ground arith in rw q refl
  ]

  lowest_digit :
      (x y : ℕ)
      → bitwise past digit (suc x) y
        ≡ 2 * bitwise past digit (suc x / 2) (y / 2) + digit (suc x % 2) (y % 2)
  lowest_digit x y = omega (arith, enough_rounds x (suc x / 2) (y / 2) (omega arith))

bit_or_step : (x y : ℕ) → bit_or x y ≡ 2 * bit_or (x / 2) (y / 2) + max (x % 2) (y % 2)
bit_or_step zero y = simp bit_or-bitwise (omega arith)
bit_or_step (suc x) y = simp bit_or-bitwise (lowest_digit (λ rest. rest) max x y)

bit_and_step : (x y : ℕ) → bit_and x y ≡ 2 * bit_and (x / 2) (y / 2) + min (x % 2) (y % 2)
bit_and_step zero y = simp bit_and-bitwise (omega arith)
bit_and_step (suc x) y = simp bit_and-bitwise (lowest_digit (λ rest. 0) min x y)

-- Digit `i` of `w`, 0 or 1.
unfoldable pub bit : ℕ → ℕ → ℕ
bit w zero = w % 2
bit w (suc i) = bit (w / 2) i

pub bit-le-one : (w i : ℕ) → bit w i ≤ 1
unfolding bit
bit-le-one w zero = omega arith
bit-le-one w (suc i) = bit-le-one (w / 2) i

pub bit-bit_or : (a b i : ℕ) → bit (bit_or a b) i ≡ max (bit a i) (bit b i)
unfolding bit
bit-bit_or a b zero = omega (arith, bit_or_step a b)
bit-bit_or a b (suc i) =
    let half : bit_or a b / 2 ≡ bit_or (a / 2) (b / 2) = omega (arith, bit_or_step a b) in
    rw half (bit-bit_or (a / 2) (b / 2) i)

pub bit-bit_and : (a b i : ℕ) → bit (bit_and a b) i ≡ min (bit a i) (bit b i)
unfolding bit
bit-bit_and a b zero = omega (arith, bit_and_step a b)
bit-bit_and a b (suc i) =
    let half : bit_and a b / 2 ≡ bit_and (a / 2) (b / 2) = omega (arith, bit_and_step a b) in
    rw half (bit-bit_and (a / 2) (b / 2) i)

pub bit-zero : (i : ℕ) → bit 0 i ≡ 0
unfolding bit
bit-zero zero = refl
bit-zero (suc i) = bit-zero i

two_pow_suc : (k : ℕ) → 2 ^ suc k ≡ 2 * 2 ^ k
two_pow_suc k = omega (arith, pow-suc 2 k)

-- All digits below the width of `2 ^ k - 1` are 1.
pub bit-ones : (k i : ℕ) → i < k → bit (2 ^ k - 1) i ≡ 1
unfolding bit
bit-ones zero i h = absurd (omega arith)
bit-ones (suc k) zero h = omega (arith, two_pow_suc k, one-le-pow k 2)
bit-ones (suc k) (suc i) h =
    let half : (2 ^ suc k - 1) / 2 ≡ 2 ^ k - 1 = omega (arith, two_pow_suc k, one-le-pow k 2) in
    rw half (bit-ones k i (omega arith))

pub bit-shl_one : (k i : ℕ) → bit (shl_one k) i ≡ (if k == i then 1 else 0)
unfolding bit shl_one
bit-shl_one zero zero = refl
bit-shl_one zero (suc i) = ground (arith, bit-zero i)
bit-shl_one (suc k) zero = grind (arith, two_pow_suc k)
bit-shl_one (suc k) (suc i) =
    let half : 2 ^ suc k / 2 ≡ 2 ^ k = omega (arith, two_pow_suc k) in
    rw half (ground (arith, bit-shl_one k i))

pow-lt_lem : (n k : ℕ) → k < n → 2 ^ k + 1 ≤ 2 ^ n
pow-lt_lem zero k h = absurd (omega arith)
pow-lt_lem (suc n) zero h = omega (arith, two_pow_suc n, one-le-pow n 2)
pow-lt_lem (suc n) (suc k) h =
    omega (arith, two_pow_suc n, two_pow_suc k, pow-lt_lem n k (omega arith))

-- The complement of one digit, at every width.
bit-clear_mask : (n k i : ℕ) → k < n → i < n → bit (2 ^ n - 1 - 2 ^ k) i ≡ (if k == i then 0 else 1)
unfolding bit
bit-clear_mask zero k i hk hi = absurd (omega arith)
bit-clear_mask (suc n) zero zero hk hi = omega (arith, two_pow_suc n, one-le-pow n 2)
bit-clear_mask (suc n) zero (suc i) hk hi =
    let half : (2 ^ suc n - 1 - 1) / 2 ≡ 2 ^ n - 1 = omega (arith, two_pow_suc n, one-le-pow n 2) in
    rw half (ground (arith, bit-ones n i (omega arith)))
bit-clear_mask (suc n) (suc k) zero hk hi =
    grind (arith, two_pow_suc n, two_pow_suc k, pow-lt_lem n k (omega arith))
bit-clear_mask (suc n) (suc k) (suc i) hk hi =
    let half : (2 ^ suc n - 1 - 2 ^ suc k) / 2 ≡ 2 ^ n - 1 - 2 ^ k =
      omega (arith, two_pow_suc n, two_pow_suc k, pow-lt_lem n k (omega arith)) in
    rw half (ground (arith, bit-clear_mask n k i))

pub bit-not32 : (k i : ℕ) → k < 32 → i < 32 → bit (not32 (shl_one k)) i ≡ (if k == i then 0 else 1)
unfolding not32 shl_one
bit-not32 k i hk hi = bit-clear_mask 32 k i hk hi

-- Words that agree in their digits are equal.
pub bit_ext : (n a b : ℕ) → a < 2 ^ n → b < 2 ^ n → ((i : ℕ) → i < n → bit a i ≡ bit b i) → a ≡ b
unfolding bit
bit_ext zero a b ha hb h = omega arith
bit_ext (suc n) a b ha hb h =
    let rest : a / 2 ≡ b / 2 =
      bit_ext n (a / 2) (b / 2) (omega (arith, two_pow_suc n)) (omega (arith, two_pow_suc n))
        (λ i lt. h (suc i) (omega arith)) in
    omega (arith, rest, h 0 (omega arith))

bit_or-lt : (n a b : ℕ) → a < 2 ^ n → b < 2 ^ n → bit_or a b < 2 ^ n
bit_or-lt zero a b ha hb =
    let ea : a ≡ 0 = omega arith in let eb : b ≡ 0 = omega arith in rw (ea, eb) (omega arith)
bit_or-lt (suc n) a b ha hb = omega (
  arith,
  bit_or_step a b,
  two_pow_suc n,
  bit_or-lt n (a / 2) (b / 2) (omega (arith, two_pow_suc n)) (omega (arith, two_pow_suc n)),
)

zero-bit_and : (b : ℕ) → bit_and 0 b ≡ 0
zero-bit_and b = bit_and-bitwise 0 b

bit_and-le : (n a b : ℕ) → a ≤ n → bit_and a b ≤ a
bit_and-le n zero b h = omega (arith, zero-bit_and b)
bit_and-le zero (suc a) b h = absurd (omega arith)
bit_and-le (suc n) (suc a) b h =
    omega (arith, bit_and_step (suc a) b, bit_and-le n (suc a / 2) (b / 2) (omega arith))

pub bit_or-word : (a b : ℕ) → a < u32_mod → b < u32_mod → bit_or a b < u32_mod
bit_or-word a b ha hb = bit_or-lt 32 a b ha hb

pub bit_and-word : (a b : ℕ) → a < u32_mod → bit_and a b < u32_mod
bit_and-word a b ha = omega (arith, bit_and-le a a b (le_refl a))

pub shl_one-word : (k : ℕ) → k < 32 → shl_one k < u32_mod
unfolding shl_one
shl_one-word k h = omega (arith, pow-lt_lem 32 k h)
