-- ===== src/Freelist/Lifecycle.antt =====
-- src/freelist.c: `freelist_new` and `freelist_resize`.
use waeio.Prelude.{
  ℕ, ◌+◌, ◌-◌, ◌*◌, ◌/◌, ◌%◌, ◌<◌, ◌≤◌, ◌≡◌, refl, arith, Option, some, none, List, length, get_or,
  take, All, IsWord, u32_mod, u32_max, if◌then◌else◌, ltb, bit, bit-ones, ◌++◌, true, false,
  Bool-cases, inl, inr, ltb→lt, ltb_false→le, length-append, length-take, ◌==◌, length-replicate,
  get_or-replicate, All-append, All-take, All-replicate, get_or-append_left, get_or-append_right,
  get_or-take, Bool,
}
use waeio.Freelist.{
  ok, size_err, mem_err, Freelist, FreelistPtr, null, live, all_free, freelist_new, freelist_resize,
  calc_vector_len,
}
use waeio.Freelist.View.{free, IsFreelist, calc_vector_len_bounds}

pub all_free-IsFreelist : (n : ℕ) → 0 < n → n < u32_mod → IsFreelist (all_free n)
unfolding all_free
all_free-IsFreelist n pos fits = record {
  positive = pos;
  fits = fits;
  len_eq = refl;
  same_length = length-replicate (calc_vector_len n) u32_max;
  words = All-replicate IsWord (calc_vector_len n) u32_max (omega arith);
}

-- Every bit of a new list is set.
pub free-all_free : (n j : ℕ) → j < 32 * (all_free n).len → free (all_free n) j ≡ 1
unfolding all_free free
free-all_free n j h =
    rw (get_or-replicate (calc_vector_len n) (j / 32) u32_max 0 (omega arith))
      (bit-ones 32 (j % 32) (omega arith))

-- The three outcomes of `freelist_new` for a 32-bit size: FREELIST_SIZE_ERR for the size 0, with
-- `*fl` untouched; FREELIST_MEM_ERR and a null pointer if `malloc` fails; and otherwise a list of
-- that size which satisfies the invariant and in which every entry below the size is free.
pub freelist_new_cases :
    (n : ℕ) (malloc_succeeds : Bool) (old : FreelistPtr)
    → n < u32_mod
    → (freelist_new 0 malloc_succeeds old ≡ (size_err, old))
      × (0 < n → freelist_new n false old ≡ (mem_err, null))
      × (0 < n
          → (fl : Freelist) × (freelist_new n true old ≡ (ok, live fl))
            × (fl.size ≡ n)
            × IsFreelist fl
            × ((j : ℕ) → j < n → free fl j ≡ 1))
unfolding freelist_new
freelist_new_cases n malloc_succeeds old fits = (
  refl,
  λ pos. ground arith,
  λ pos. (
    all_free n,
    ground arith,
    unfold all_free in refl,
    all_free-IsFreelist n pos fits,
    λ j h. free-all_free n j (below_len pos h),
  ),
)
  where
    below_len : {j : ℕ} → 0 < n → j < n → j < 32 * (all_free n).len
    below_len pos h =
        let inv = all_free-IsFreelist n pos fits in
        let len : (all_free n).len ≡ calc_vector_len n = unfold all_free in refl in
        omega (arith, len, calc_vector_len_bounds n fits)

module _ (fl : Freelist) (n : ℕ) (fresh : List ℕ) (inv : IsFreelist fl) (pos : 0 < n)
    (fits : n < u32_mod) (room : calc_vector_len n ≤ length fl.vector + length fresh)
    (words : All IsWord fresh) where
  resized : Freelist
  resized = record {
    size = n;
    len = calc_vector_len n;
    vector = take (calc_vector_len n) (fl.vector ++ fresh);
  }

  freelist_resize_lem : freelist_resize (live fl) n (some fresh) ≡ some (ok, live resized)
  unfolding freelist_resize resized
  freelist_resize_lem = let nonzero : (n == 0) ≡ false = ground arith in rw nonzero

  resized-IsFreelist : IsFreelist resized
  unfolding resized
  resized-IsFreelist = record {
    positive = pos;
    fits = fits;
    len_eq = refl;
    same_length = omega (
      arith,
      room,
      length-take (calc_vector_len n) (fl.vector ++ fresh),
      length-append fl.vector fresh,
    );
    words = All-take IsWord _ _ (All-append IsWord fl.vector fresh inv.words words);
  }

  -- What follows the old words is whatever the new memory holds.
  abbrev new_memory : ℕ → ℕ
  new_memory j = bit (get_or fresh (j / 32 - fl.len) 0) (j % 32)

  free-resized :
      (j : ℕ)
      → j < 32 * calc_vector_len n
      → free resized j ≡ (if ltb j (32 * fl.len) then free fl j else new_memory j)
  unfolding resized free
  free-resized j h =
      rw (get_or-take (calc_vector_len n) (fl.vector ++ fresh) (j / 32) 0 (omega arith))
        (elim (Bool-cases (ltb j (32 * fl.len))) [
          | inl old ↦
              let inside : j / 32 < length fl.vector =
                omega (arith, ltb→lt _ _ old, inv.same_length) in
              rw (old, get_or-append_left fl.vector fresh (j / 32) 0 inside)
          | inr new ↦
              let place : j / 32 ≡ length fl.vector + (j / 32 - fl.len) =
                omega (arith, ltb_false→le _ _ new, inv.same_length) in
              rw (new, get_or-append_right fl.vector fresh (j / 32 - fl.len) (j / 32) 0 place)
        ])

  -- A resize to a 32-bit size for which `realloc` finds memory returns FREELIST_OK and a list of
  -- the new size that satisfies the invariant. Of the words that both sizes have every bit is kept;
  -- the bits of words that only the new size has are those of the memory, whatever it holds.
  pub freelist_resize_keeps :
      (fl' : Freelist) × (freelist_resize (live fl) n (some fresh) ≡ some (ok, live fl'))
      × (fl'.size ≡ n)
      × IsFreelist fl'
      × ((j : ℕ)
          → j < 32 * calc_vector_len n
          → free fl' j ≡ (if ltb j (32 * fl.len) then free fl j else new_memory j))
  freelist_resize_keeps =
      (resized, freelist_resize_lem, unfold resized in refl, resized-IsFreelist, free-resized)

-- The failures of `freelist_resize`: the size 0 changes nothing, and if `realloc` fails the
-- caller's pointer is overwritten by a null pointer, so that the old list is lost.
pub freelist_resize_fails :
    (fl : Freelist) (n : ℕ) (memory : Option (List ℕ))
    → (freelist_resize (live fl) 0 memory ≡ some (size_err, live fl))
      × (0 < n → freelist_resize (live fl) n none ≡ some (mem_err, null))
unfolding freelist_resize
freelist_resize_fails fl n memory = (refl, λ pos. ground arith)
