-- ===== src/Freelist/Bounds.antt =====
-- src/freelist.c: which entries `freelist_next` can hand out.
use waeio.Prelude.{ℕ, ◌*◌, ◌%◌, ◌<◌, ◌≤◌, ◌≡◌, ◌⊎◌, inl, inr, arith, ◌≢◌}
use waeio.Freelist.{Freelist, calc_vector_len, freelist_next}
use waeio.Freelist.View.{free, IsFreelist, Eligible, calc_vector_len_bounds}
use waeio.Freelist.Next.{Found, Exhausted, freelist_next_cases}

-- Sizes that fill their last word, or have one word only.
abbrev pub IsAligned : ℕ → Type 0
IsAligned size = (size ≤ 32) ⊎ (size % 32 ≡ 0)

calc_vector_len_aligned : (n : ℕ) → n % 32 ≡ 0 → 32 * calc_vector_len n ≡ n
unfolding calc_vector_len
calc_vector_len_aligned n h = ground arith

-- At an aligned size the eligible entries are the free ones below the size.
pub Eligible-lt :
    (fl : Freelist) (e : ℕ) → IsFreelist fl → IsAligned fl.size → Eligible fl e → e < fl.size
Eligible-lt fl e inv (inl small) h =
    omega (arith, inv.len_eq, calc_vector_len_bounds fl.size inv.fits, h.0, h.1)
Eligible-lt fl e inv (inr whole) h =
    omega (arith, inv.len_eq, calc_vector_len_aligned fl.size whole, h.0)

pub Eligible-of_free :
    (fl : Freelist) (e : ℕ)
    → IsFreelist fl
    → IsAligned fl.size
    → e < fl.size
    → free fl e ≡ 1
    → Eligible fl e
Eligible-of_free fl e inv (inl small) below one =
    (omega (arith, inv.len_eq, calc_vector_len_bounds fl.size inv.fits), omega arith, one)
Eligible-of_free fl e inv (inr whole) below one = (
  omega (arith, inv.len_eq, calc_vector_len_bounds fl.size inv.fits),
  omega (arith, whole, inv.positive, below),
  one,
)

-- At a size that is at most 32 or a multiple of 32 a call of `freelist_next` hands out the least
-- free entry below the size, or reports FREELIST_FULL when there is none.
pub freelist_next_aligned :
    (fl : Freelist) (entry : ℕ)
    → IsFreelist fl
    → IsAligned fl.size
    → ((f : Found fl (freelist_next fl entry)) × (f.taken < fl.size)
        × ((j : ℕ) → j < f.taken → free fl j ≢ 1))
      ⊎ (Exhausted fl entry (freelist_next fl entry) × ((j : ℕ) → j < fl.size → free fl j ≢ 1))
freelist_next_aligned fl entry inv al = elim (freelist_next_cases fl inv entry) [
  | inl f ↦
      let below = Eligible-lt fl f.taken inv al f.eligible in
      inl (
        f,
        below,
        λ j h one. f.least j h (Eligible-of_free fl j inv al (omega (arith, h, below)) one),
      )
  | inr x ↦ inr (x, λ j h one. x.1 j (Eligible-of_free fl j inv al h one))
]
