-- ===== src/Driver/Memory.antt =====
-- inc/host/wasmtime_utils.h: writes to the memory of the guest.
use waeio.Prelude.{
  ℕ, ◌+◌, ◌*◌, ◌/◌, ◌<◌, ◌≤◌, ◌≡◌, ◌≢◌, ◌∙◌, ◌⊎◌, inl, inr, arith, List, length, get_or, set,
  length-set, get_or-set_self, get_or-set_ne, u32_mod, Outcome, done, write_in_range,
}
use waeio.Driver.{memory_write_u32, u8}

-- The word whose bytes lie from an offset on, the lowest first.
pub memory_read_u32 : List ℕ → ℕ → ℕ
memory_read_u32 mem offset =
    get_or mem offset 0
    + 256 * get_or mem (offset + 1) 0
    + 65536 * get_or mem (offset + 2) 0
    + 16777216 * get_or mem (offset + 3) 0

-- A write that puts `word` at `offset`, and leaves each byte outside the four as it was.
pub record Stored (mem : List ℕ) (offset word : ℕ) (result : Outcome (List ℕ)) : Type 0 where
  pub after : List ℕ
  pub returns : result ≡ done after
  pub word_is : memory_read_u32 after offset ≡ word
  pub same_length : length after ≡ length mem
  pub others : (j : ℕ) → (j < offset) ⊎ (offset + 3 < j) → get_or after j 0 ≡ get_or mem j 0

module _ (mem : List ℕ) (offset word : ℕ) (inside : offset + 3 < length mem) where
  abbrev mem1 : List ℕ
  mem1 = set mem offset (u8 word)

  abbrev mem2 : List ℕ
  mem2 = set mem1 (offset + 1) (u8 (word / 256))

  abbrev mem3 : List ℕ
  mem3 = set mem2 (offset + 2) (u8 (word / 65536))

  abbrev mem4 : List ℕ
  mem4 = set mem3 (offset + 3) (u8 (word / 16777216))

  length1 : length mem1 ≡ length mem
  length1 = length-set mem offset _

  length2 : length mem2 ≡ length mem
  length2 = length-set mem1 (offset + 1) _ ∙ length1

  length3 : length mem3 ≡ length mem
  length3 = length-set mem2 (offset + 2) _ ∙ length2

  memory_write_u32-eq : memory_write_u32 mem offset word ≡ done mem4
  unfolding memory_write_u32
  memory_write_u32-eq = rw (
    write_in_range mem offset (u8 word) (omega (arith, inside)),
    write_in_range mem1 (offset + 1) (u8 (word / 256)) (omega (arith, inside, length1)),
    write_in_range mem2 (offset + 2) (u8 (word / 65536)) (omega (arith, inside, length2)),
    write_in_range mem3 (offset + 3) (u8 (word / 16777216)) (omega (arith, inside, length3)),
  )

  byte0 : get_or mem4 offset 0 ≡ u8 word
  byte0 =
      get_or-set_ne mem3 (offset + 3) offset _ 0 (omega arith)
      ∙ get_or-set_ne mem2 (offset + 2) offset _ 0 (omega arith)
      ∙ get_or-set_ne mem1 (offset + 1) offset _ 0 (omega arith)
      ∙ get_or-set_self mem offset _ 0 (omega (arith, inside))

  byte1 : get_or mem4 (offset + 1) 0 ≡ u8 (word / 256)
  byte1 =
      get_or-set_ne mem3 (offset + 3) (offset + 1) _ 0 (omega arith)
      ∙ get_or-set_ne mem2 (offset + 2) (offset + 1) _ 0 (omega arith)
      ∙ get_or-set_self mem1 (offset + 1) _ 0 (omega (arith, inside, length1))

  byte2 : get_or mem4 (offset + 2) 0 ≡ u8 (word / 65536)
  byte2 =
      get_or-set_ne mem3 (offset + 3) (offset + 2) _ 0 (omega arith)
      ∙ get_or-set_self mem2 (offset + 2) _ 0 (omega (arith, inside, length2))

  byte3 : get_or mem4 (offset + 3) 0 ≡ u8 (word / 16777216)
  byte3 = get_or-set_self mem3 (offset + 3) _ 0 (omega (arith, inside, length3))

  other_bytes : (j : ℕ) → (j < offset) ⊎ (offset + 3 < j) → get_or mem4 j 0 ≡ get_or mem j 0
  other_bytes j h =
      let apart : (k : ℕ) → k ≤ 3 → offset + k ≢ j =
        λ k le. elim h [ inl lt ↦ omega arith | inr gt ↦ omega arith ] in
      get_or-set_ne mem3 (offset + 3) j _ 0 (apart 3 (omega arith))
      ∙ get_or-set_ne mem2 (offset + 2) j _ 0 (apart 2 (omega arith))
      ∙ get_or-set_ne mem1 (offset + 1) j _ 0 (apart 1 (omega arith))
      ∙ get_or-set_ne mem offset j _ 0 (omega (arith, apart 0 (omega arith)))

  -- When the four bytes lie in the memory, `memory_write_u32` stores a 32-bit word so that reading
  -- its bytes, the lowest first, gives it back, and every other byte stays.
  pub memory_write_u32-Stored :
      word < u32_mod → Stored mem offset word (memory_write_u32 mem offset word)
  unfolding memory_read_u32
  memory_write_u32-Stored small = record {
    after = mem4;
    returns = memory_write_u32-eq;
    word_is = rw (byte0, byte1, byte2, byte3) (omega (arith, small));
    same_length = length-set mem3 (offset + 3) _ ∙ length3;
    others = other_bytes;
  }
