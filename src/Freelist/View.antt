-- ===== src/Freelist/View.antt =====
-- src/freelist.c: the set of free entries that the vector stands for, the invariant of the
-- structure, and how a write of one word changes the set.
use waeio.Prelude.{
  ℕ, ◌+◌, ◌*◌, ◌/◌, ◌%◌, ◌<◌, ◌≤◌, ◌≡◌, ◌∙◌, arith, length, get_or, set, All, IsWord, bit, u32_mod,
  if◌then◌else◌, ◌==◌, get_or-set_self, get_or-set_ne, Bool-cases, inl, inr, ==_iff, ◌≢◌, bit_or,
  bit_and, shl_one, not32, bit-bit_or, bit-bit_and, bit-shl_one, bit-not32, bit-le-one, refl, ap,
  sym, get_or_ext, bit_ext, All-get_or,
}
use waeio.Freelist.{Freelist, calc_vector_len}

-- 1 if entry `e` is free, and 0 otherwise.
unfoldable pub free : Freelist → ℕ → ℕ
free fl e = bit (get_or fl.vector (e / 32) 0) (e % 32)

-- The invariant: the vector has the words that the size needs.
pub record IsFreelist (fl : Freelist) : Type 0 where
  pub positive : 0 < fl.size
  pub fits : fl.size < u32_mod
  pub len_eq : fl.len ≡ calc_vector_len fl.size
  pub same_length : length fl.vector ≡ fl.len
  pub words : All IsWord fl.vector

-- The entries that `freelist_next` looks at: its test is on the index within the word.
abbrev pub Eligible : Freelist → ℕ → Type 0
Eligible fl e = (e < 32 * fl.len) × (e % 32 < fl.size) × (free fl e ≡ 1)

pub calc_vector_len_bounds :
    (n : ℕ) → n < u32_mod → (n ≤ 32 * calc_vector_len n) × (32 * calc_vector_len n < n + 32)
unfolding calc_vector_len
calc_vector_len_bounds n h = ground arith

pub free_at :
    (fl : Freelist) (i k e : ℕ) → e ≡ 32 * i + k → k < 32 → free fl e ≡ bit (get_or fl.vector i 0) k
unfolding free
free_at fl i k e q h =
    let p : e / 32 ≡ i = omega arith in let r : e % 32 ≡ k = omega arith in rw (p, r)

pub free-le-one : (fl : Freelist) (e : ℕ) → free fl e ≤ 1
unfolding free
free-le-one fl e = bit-le-one (get_or fl.vector (e / 32) 0) (e % 32)

-- Lists of one size have vectors of one length.
pub len-eq_of_size :
    (x y : Freelist) → IsFreelist x → IsFreelist y → x.size ≡ y.size → x.len ≡ y.len
len-eq_of_size x y ix iy e = ix.len_eq ∙ ap calc_vector_len e ∙ sym iy.len_eq

-- An entry below the size lies in the vector.
pub lt-len_of_lt-size : (fl : Freelist) (e : ℕ) → IsFreelist fl → e < fl.size → e < 32 * fl.len
lt-len_of_lt-size fl e inv h = omega (arith, inv.len_eq, calc_vector_len_bounds fl.size inv.fits)

-- A write of word `i` that changes digit `k` to `v` changes the set at entry `32 * i + k` alone.
pub free-set :
    (fl : Freelist) (i k w' v e : ℕ)
    → e ≡ 32 * i + k
    → k < 32
    → i < length fl.vector
    → ((d : ℕ) → d < 32 → bit w' d ≡ (if k == d then v else bit (get_or fl.vector i 0) d))
    → (j : ℕ)
    → free (record fl { vector = set fl.vector i w' }) j ≡ (if e == j then v else free fl j)
unfolding free
free-set fl i k w' v e q hk inside digits j = elim (Bool-cases (i == j / 32)) [
  | inl same ↦
      let p : i ≡ j / 32 = (==_iff _ _).0 same in
      rw (← p) (
        rw (get_or-set_self fl.vector i w' 0 inside) (digits (j % 32) (omega arith) ∙ ground arith))
  | inr other ↦
      let ne : (i ≢ j / 32) = ground arith in
      rw (get_or-set_ne fl.vector i (j / 32) w' 0 ne) (ground arith)
]

-- `|= 1 << b` sets a digit, and `&= ~(1 << b)` clears it.
pub bit-set_bit : (w b i : ℕ) → bit (bit_or w (shl_one b)) i ≡ (if b == i then 1 else bit w i)
bit-set_bit w b i = ground (arith, bit-bit_or w (shl_one b) i, bit-shl_one b i, bit-le-one w i)

pub bit-clear_bit :
    (w b i : ℕ)
    → b < 32
    → i < 32
    → bit (bit_and w (not32 (shl_one b))) i ≡ (if b == i then 0 else bit w i)
bit-clear_bit w b i hb hi =
    ground (arith, bit-bit_and w (not32 (shl_one b)) i, bit-not32 b i hb hi, bit-le-one w i)

-- Lists of one size with the same free set are equal, word for word.
pub Freelist_ext :
    (x y : Freelist)
    → IsFreelist x
    → IsFreelist y
    → x.size ≡ y.size
    → ((j : ℕ) → free x j ≡ free y j)
    → x ≡ y
Freelist_ext x y ix iy size_eq same =
    let len_eq : x.len ≡ y.len = len-eq_of_size x y ix iy size_eq in
    λ i. record { size = size_eq i; len = len_eq i; vector = vectors len_eq i }
  where
    digits : (i k : ℕ) → k < 32 → bit (get_or x.vector i 0) k ≡ bit (get_or y.vector i 0) k
    digits i k h =
        sym (free_at x i k (32 * i + k) refl h)
        ∙ same (32 * i + k)
        ∙ free_at y i k (32 * i + k) refl h

    vectors : x.len ≡ y.len → x.vector ≡ y.vector
    vectors len_eq =
        let lengths = ix.same_length ∙ len_eq ∙ sym iy.same_length in
        get_or_ext 0 x.vector y.vector lengths λ i h.
          bit_ext 32 _ _ (All-get_or IsWord x.vector i 0 ix.words h)
            (All-get_or IsWord y.vector i 0 iy.words (omega (arith, lengths, h)))
            (λ k hk. digits i k hk)
