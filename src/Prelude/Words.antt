-- ===== src/Prelude/Words.antt =====
-- 32-bit words: a word is a native number below `u32_mod`, and arithmetic wraps.
use Prim.Native.Nat.{ℕ, ◌+◌, ◌-◌, ◌*◌, ◌%◌, ◌^◌, ◌<◌}

abbrev pub u32_mod : ℕ
u32_mod = 4294967296

abbrev pub u32_max : ℕ
u32_max = 4294967295

abbrev pub u32 : ℕ → ℕ
u32 n = n % u32_mod

abbrev pub add32 : ℕ → ℕ → ℕ
add32 a b = (a + b) % u32_mod

abbrev pub sub32 : ℕ → ℕ → ℕ
sub32 a b = (a + u32_mod - b) % u32_mod

abbrev pub mul32 : ℕ → ℕ → ℕ
mul32 a b = (a * b) % u32_mod

abbrev pub IsWord : ℕ → Type 0
IsWord w = w < u32_mod

-- `1 << i` for `i` below 32, as a word.
unfoldable pub shl_one : ℕ → ℕ
shl_one i = 2 ^ i

-- `~w` on a word.
unfoldable pub not32 : ℕ → ℕ
not32 w = u32_max - w
