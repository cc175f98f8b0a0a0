-- ===== src/Freelist/Words.antt =====
-- src/freelist.c: what `__builtin_ffs` finds in a word, and the test and the write of one round of
-- `freelist_next`.
use waeio.Prelude.{
  ℕ, zero, suc, ◌/◌, ◌<◌, ◌≡◌, refl, ◌∙◌, ltb, ltb→lt, ltb_false→le, ◌⊎◌, inl, inr, true, false,
  arith, bit, Bool-cases, u32_mod,
}
use waeio.Freelist.{ffs_digits, ffs, takes}

-- A result of 0 means that no digit is set.
ffs_digits-zero : (n w : ℕ) → ffs_digits n w ≡ 0 → (i : ℕ) → i < n → bit w i ≡ 0
unfolding ffs_digits bit
ffs_digits-zero zero w e i h = absurd (omega arith)
ffs_digits-zero (suc n) w e zero h = ground arith
ffs_digits-zero (suc n) w e (suc i) h = ffs_digits-zero n (w / 2) (ground arith) i (omega arith)

-- Any other result is one more than the index of the lowest set digit.
ffs_digits-suc :
    (n w k : ℕ) → ffs_digits n w ≡ suc k → (k < n) × (bit w k ≡ 1) × ((i : ℕ) → i < k → bit w i ≡ 0)
unfolding ffs_digits bit
ffs_digits-suc zero w k e = absurd (omega arith)
ffs_digits-suc (suc n) w zero e = (omega arith, ground arith, λ i h. absurd (omega arith))
ffs_digits-suc (suc n) w (suc k) e =
    let above : ffs_digits n (w / 2) ≡ suc k = ground arith in
    let ih = ffs_digits-suc n (w / 2) k above in (omega (arith, ih.0), ih.1, below ih.2)
  where
    below : ((i : ℕ) → i < k → bit (w / 2) i ≡ 0) → (i : ℕ) → i < suc k → bit w i ≡ 0
    below ih zero h = ground arith
    below ih (suc i) h = ih i (omega arith)

pub takes_iff : (size k : ℕ) → size < u32_mod → k < 32 → takes size (suc k) ≡ ltb k size
unfolding takes
takes_iff size k fits h = ground arith

-- What a round finds in the word `w`: the lowest set digit, with an index below the size; or, if
-- the round passes the word over, no set digit with an index below the size.
pub record Taken (size w : ℕ) : Type 0 where
  pub index : ℕ
  pub test : takes size (ffs w) ≡ true
  pub answer : ffs w ≡ suc index
  pub in_word : index < 32
  pub below_size : index < size
  pub is_set : bit w index ≡ 1
  pub lowest : (i : ℕ) → i < index → bit w i ≡ 0

abbrev pub PassedOver : ℕ → ℕ → Type 0
PassedOver size w = (takes size (ffs w) ≡ false) × ((i : ℕ) → i < 32 → i < size → bit w i ≡ 0)

pub takes_cases : (size w : ℕ) → size < u32_mod → Taken size w ⊎ PassedOver size w
unfolding ffs
takes_cases size w fits = go (ffs_digits 32 w) refl
  where
    go : (ans : ℕ) → ffs_digits 32 w ≡ ans → Taken size w ⊎ PassedOver size w
    go zero e = inr (rw e (unfold takes in refl), λ i h _. ffs_digits-zero 32 w e i h)
    go (suc k) e =
        let s = ffs_digits-suc 32 w k e in
        let test = takes_iff size k fits s.0 in
        elim (Bool-cases (ltb k size)) [
          | inl t ↦ inl (record {
            index = k;
            test = rw e (test ∙ t);
            answer = e;
            in_word = s.0;
            below_size = ltb→lt k size t;
            is_set = s.1;
            lowest = s.2;
          })
          | inr t ↦ inr (rw e (test ∙ t), λ i h below. s.2 i (omega (arith, ltb_false→le k size t)))
        ]
