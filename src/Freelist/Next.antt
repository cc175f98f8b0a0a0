-- ===== src/Freelist/Next.antt =====
-- src/freelist.c: `freelist_next` takes the least entry that it looks at and that is free.
use waeio.Prelude.{
  ℕ, zero, suc, ◌+◌, ◌*◌, ◌/◌, ◌%◌, ◌<◌, ◌≤◌, ◌≡◌, refl, ◌∙◌, ◌⊎◌, inl, inr, arith, Option, some,
  length, get_or, IsWord, u32_mod, add32, sub32, mul32, if◌then◌else◌, ◌==◌, get_elem?-eq-get_or,
  length-set, Bool-cases, ltb, ltb→lt, ltb_false→le, All-set, All-get_or, bit_and-word,
}
use waeio.Freelist.{
  FreelistResult, ok, full, Freelist, ffs, takes, clear_bit, next_loop, freelist_next, int_width,
}
use waeio.Freelist.Words.{Taken, PassedOver, takes_cases}
use waeio.Freelist.View.{
  free, IsFreelist, Eligible, calc_vector_len_bounds, free-set, free_at, bit-clear_bit,
}

-- A successful call: `*entry` gets the least eligible entry, which alone leaves the set.
pub record Found (fl : Freelist) (result : Option (FreelistResult × Freelist × ℕ)) : Type 0 where
  pub taken : ℕ
  pub rest : Freelist
  pub returns : result ≡ some (ok, rest, taken)
  pub eligible : Eligible fl taken
  pub least : (j : ℕ) → j < taken → ¬ Eligible fl j
  pub same_size : rest.size ≡ fl.size
  pub invariant : IsFreelist rest
  pub removed : (j : ℕ) → free rest j ≡ (if taken == j then 0 else free fl j)

-- A call that finds the list full: nothing changes, and no eligible entry was there.
abbrev pub Exhausted : Freelist → ℕ → Option (FreelistResult × Freelist × ℕ) → Type 0
Exhausted fl entry result = (result ≡ some (full, fl, entry)) × ((j : ℕ) → ¬ Eligible fl j)

module _ (fl : Freelist) (inv : IsFreelist fl) (entry : ℕ) where
  len_bound : 32 * fl.len < u32_mod + 32
  len_bound = omega (arith, inv.len_eq, inv.fits, calc_vector_len_bounds fl.size inv.fits)

  abbrev word : ℕ → ℕ
  word i = get_or fl.vector i 0

  next_loop-suc :
      (left i : ℕ)
      → i < fl.len
      → next_loop (suc left) i fl entry ≡ (
          if takes fl.size (ffs (word i))
          then some (
            ok,
            clear_bit fl i (word i) (sub32 (ffs (word i)) 1),
            add32 (sub32 (ffs (word i)) 1) (mul32 int_width i),
          )
          else next_loop left (i + 1) fl entry)
  unfolding next_loop
  next_loop-suc left i h =
      rw (get_elem?-eq-get_or fl.vector i 0 (omega (arith, inv.same_length, h)), next_loop)

  -- The entry that a round at word `i` hands out, as the code computes it.
  entry_of : (i k : ℕ) → i < fl.len → k < 32 → add32 k (mul32 int_width i) ≡ 32 * i + k
  entry_of i k h hk = omega (arith, len_bound)

  cleared : ℕ → ℕ → Freelist
  cleared i k = clear_bit fl i (word i) k

  cleared-IsFreelist : (i k : ℕ) → i < fl.len → IsFreelist (cleared i k)
  unfolding cleared clear_bit
  cleared-IsFreelist i k h = record {
    positive = inv.positive;
    fits = inv.fits;
    len_eq = inv.len_eq;
    same_length = length-set fl.vector i _ ∙ inv.same_length;
    words =
        let inside : i < length fl.vector = omega (arith, inv.same_length) in
        All-set IsWord fl.vector i _ inv.words
          (bit_and-word (word i) _ (All-get_or IsWord fl.vector i 0 inv.words inside));
  }

  returned :
      (left i : ℕ) (t : Taken fl.size (word i))
      → i < fl.len
      → (if takes fl.size (ffs (word i))
          then some (
            ok,
            clear_bit fl i (word i) (sub32 (ffs (word i)) 1),
            add32 (sub32 (ffs (word i)) 1) (mul32 int_width i),
          )
          else next_loop left (i + 1) fl entry)
        ≡ some (ok, cleared i t.index, 32 * i + t.index)
  unfolding cleared
  returned left i t h =
      let index : sub32 (ffs (word i)) 1 ≡ t.index = omega (arith, t.answer, t.in_word) in
      rw (t.test, index, entry_of i t.index h t.in_word)

  least-Taken :
      (i : ℕ) (t : Taken fl.size (word i))
      → ((j : ℕ) → j / 32 < i → ¬ Eligible fl j)
      → (j : ℕ) → j < 32 * i + t.index
      → ¬ Eligible fl j
  least-Taken i t before j below e = elim (Bool-cases (ltb (j / 32) i)) [
    | inl earlier ↦ before j (ltb→lt _ _ earlier) e
    | inr same ↦
        let far : i ≤ j / 32 = ltb_false→le _ _ same in
        let in_word : j % 32 < t.index = omega (arith, far, below, t.in_word) in
        let place : j ≡ 32 * i + j % 32 = omega (arith, far, below, t.in_word) in
        let at = free_at fl i (j % 32) j place (omega (arith, in_word, t.in_word)) in
        omega (arith, at, e.2, t.lowest (j % 32) in_word)
  ]

  next_loop_taken :
      (left i : ℕ)
      → i < fl.len
      → (t : Taken fl.size (word i)) → ((j : ℕ) → j / 32 < i → ¬ Eligible fl j)
      → Found fl (next_loop (suc left) i fl entry)
  unfolding cleared
  next_loop_taken left i h t before = record {
    taken = 32 * i + t.index;
    rest = cleared i t.index;
    returns = next_loop-suc left i h ∙ returned left i t h;
    eligible = (
      omega (arith, h, t.in_word),
      omega (arith, t.in_word, t.below_size),
      free_at fl i t.index _ refl t.in_word ∙ t.is_set,
    );
    least = λ j below e. least-Taken i t before j below e;
    same_size = unfold clear_bit in refl;
    invariant = cleared-IsFreelist i t.index h;
    removed =
        unfold clear_bit in
        free-set fl i t.index _ 0 _ refl t.in_word (omega (arith, inv.same_length))
          (λ d hd. bit-clear_bit (word i) t.index d t.in_word hd);
  }

  passed :
      (i : ℕ)
      → PassedOver fl.size (word i)
      → ((j : ℕ) → j / 32 < i → ¬ Eligible fl j)
      → (j : ℕ) → j / 32 < i + 1
      → ¬ Eligible fl j
  passed i none_set before j below e = elim (Bool-cases (ltb (j / 32) i)) [
    | inl earlier ↦ before j (ltb→lt _ _ earlier) e
    | inr same ↦
        let far : i ≤ j / 32 = ltb_false→le _ _ same in
        let at = free_at fl i (j % 32) j (omega (arith, far, below)) (omega arith) in
        omega (arith, at, e.2, none_set.1 (j % 32) (omega arith) e.1)
  ]

  next_loop_cases :
      (left i : ℕ)
      → i + left ≡ fl.len
      → ((j : ℕ) → j / 32 < i → ¬ Eligible fl j)
      → Found fl (next_loop left i fl entry) ⊎ Exhausted fl entry (next_loop left i fl entry)
  next_loop_cases zero i end before =
      inr (unfold next_loop in refl, λ j e. before j (omega (arith, e.0)) e)
  next_loop_cases (suc left) i end before =
      let h : i < fl.len = omega arith in
      elim (takes_cases fl.size (word i) inv.fits) [
        | inl t ↦ inl (next_loop_taken left i h t before)
        | inr p ↦
            rw (next_loop-suc left i h, p.0)
              (next_loop_cases left (i + 1) (omega arith) (passed i p before))
      ]

  -- On a list that satisfies the invariant `freelist_next` reads inside the vector only. It either
  -- returns FREELIST_OK with the least eligible entry, which alone leaves the free set, and keeps
  -- the size and the invariant; or returns FREELIST_FULL, changes neither the list nor `*entry`,
  -- and no eligible entry was free.
  pub freelist_next_cases :
      Found fl (freelist_next fl entry) ⊎ Exhausted fl entry (freelist_next fl entry)
  freelist_next_cases =
      let run = next_loop_cases fl.len 0 (omega arith) (λ j h. absurd (omega arith)) in
      unfold freelist_next in run
