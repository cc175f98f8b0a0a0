-- ===== src/Freelist.antt =====
-- src/freelist.c and inc/freelist.h: the allocator of small integers, a vector of 32-bit words in
-- which a set bit stands for a free entry.
pub mod Words
pub mod View
pub mod Next
pub mod Reclaim
pub mod Lifecycle
pub mod Bounds
pub mod Fill
pub mod Clients
pub mod Suite
mod Tests
use waeio.Prelude.{
  ℕ, zero, suc, ◌+◌, ◌-◌, ◌*◌, ◌/◌, ◌%◌, Bool, true, false, ◌&&◌, Option, none, some, List, [],
  ◌++◌, ltb, leb, ◌==◌, if◌then◌else◌, get_elem?, set, take, replicate, u32, u32_max, add32, sub32,
  mul32, shl_one, not32, bit_and, bit_or,
}

-- `freelist_result_t`
pub data FreelistResult : Type 0 where
  ok full mem_err size_err ob_entry : FreelistResult

-- `struct freelist`: the number of entries, the number of words, and the words.
pub record Freelist : Type 0 where
  pub size : ℕ
  pub len : ℕ
  pub vector : List ℕ

-- A `freelist_t` variable: NULL, a pointer to a block, or a pointer that `free` was called on.
pub data FreelistPtr : Type 0 where
  null freed : FreelistPtr
  live : Freelist → FreelistPtr

abbrev pub int_width : ℕ
int_width = 32

unfoldable pub calc_vector_len : ℕ → ℕ
calc_vector_len freespace =
    if freespace % int_width == 0 then freespace / int_width else add32 (freespace / int_width) 1

-- The structure that `freelist_new` writes; `memset` fills all words with ones.
unfoldable pub all_free : ℕ → Freelist
all_free freespace = record {
  size = freespace;
  len = calc_vector_len freespace;
  vector = replicate (calc_vector_len freespace) u32_max;
}

-- The outcome of `malloc` is an argument.
unfoldable pub freelist_new : ℕ → Bool → FreelistPtr → FreelistResult × FreelistPtr
unfolding all_free
freelist_new freespace malloc_succeeds fl =
    if freespace == 0
    then (size_err, fl)
    else if malloc_succeeds
    then (ok, live (all_free freespace))
    else (mem_err, null)

-- `__builtin_ffs` over `n` digits: one more than the index of the lowest set bit, or 0.
pub ffs_digits : ℕ → ℕ → ℕ
ffs_digits zero w = 0
ffs_digits (suc n) w =
    let above = ffs_digits n (w / 2) in
    if w % 2 == 1 then 1 else if above == 0 then 0 else above + 1

unfoldable pub ffs : ℕ → ℕ
unfolding ffs_digits
ffs w = ffs_digits int_width w

-- The test of the loop in `freelist_next`.
unfoldable pub takes : ℕ → ℕ → Bool
takes size ans = ltb 0 ans && ltb (sub32 ans 1) size

-- `vector[i] &= ~(1 << index)`
unfoldable pub clear_bit : Freelist → ℕ → ℕ → ℕ → Freelist
clear_bit fl i w index = record fl { vector = set fl.vector i (bit_and w (not32 (shl_one index))) }

-- The loop of `freelist_next` at index `i`, with `len - i` rounds left. The last part of the result
-- is what `*entry` holds; `none` is a read out of the vector's range.
pub next_loop : ℕ → ℕ → Freelist → ℕ → Option (FreelistResult × Freelist × ℕ)
next_loop zero i fl entry = some (full, fl, entry)
next_loop (suc left) i fl entry =
    let rest = next_loop left (i + 1) fl entry in
    elim (get_elem? fl.vector i) [
      | none ↦ none
      | some w ↦
          if takes fl.size (ffs w)
          then some
              (ok, clear_bit fl i w (sub32 (ffs w) 1), add32 (sub32 (ffs w) 1) (mul32 int_width i))
          else rest
    ]

unfoldable pub freelist_next : Freelist → ℕ → Option (FreelistResult × Freelist × ℕ)
unfolding next_loop ffs takes clear_bit
freelist_next freelist entry = next_loop freelist.len 0 freelist entry

-- `none` is an access out of the vector's range.
unfoldable pub freelist_reclaim : Freelist → ℕ → Option (FreelistResult × Freelist)
freelist_reclaim freelist entry =
    if leb freelist.size entry
    then some (ob_entry, freelist)
    else let v_index = entry / int_width in
      let b_index = sub32 entry (mul32 int_width v_index) in
      elim (get_elem? freelist.vector v_index) [
        | none ↦ none
        | some w ↦ some (
          ok,
          record freelist { vector = set freelist.vector v_index (bit_or w (shl_one b_index)) },
        )
      ]

-- `free`; the caller's variable keeps the address. `none` is a second `free`.
unfoldable pub freelist_delete : FreelistPtr → Option FreelistPtr
freelist_delete null = some null
freelist_delete freed = none
freelist_delete (live fl) = some freed

-- `realloc` to `n` words. Its argument is NULL or the words that follow the old block's; what the
-- header of a fresh block holds is overwritten by the caller.
pub realloc : FreelistPtr → ℕ → Option (List ℕ) → Option FreelistPtr
realloc freed n memory = none
realloc null n none = some null
realloc null n (some fresh) = some (live (record { size = 0; len = 0; vector = take n fresh }))
realloc (live fl) n none = some null
realloc (live fl) n (some fresh) = some (live (record fl { vector = take n (fl.vector ++ fresh) }))

-- What `freelist_resize` does with the pointer that `realloc` returned.
pub adopt : FreelistPtr → ℕ → ℕ → FreelistResult × FreelistPtr
adopt null new_len freespace = (mem_err, null)
adopt freed new_len freespace = (ok, freed)
adopt (live fl) new_len freespace = (ok, live (record fl { len = new_len; size = freespace }))

unfoldable pub freelist_resize :
    FreelistPtr → ℕ → Option (List ℕ) → Option (FreelistResult × FreelistPtr)
unfolding realloc adopt
freelist_resize freelist freespace memory =
    if freespace == 0
    then some (size_err, freelist)
    else elim (realloc freelist (calc_vector_len freespace) memory) [
      | none ↦ none
      | some block ↦ some (adopt block (calc_vector_len freespace) freespace)
    ]
