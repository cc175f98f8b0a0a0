-- ===== src/Freelist/Fill.antt =====
-- src/freelist.c and test/freelist_tests.c: the entries that a new list hands out, and how many.
use waeio.Prelude.{
  ℕ, false, zero, suc, ◌+◌, ◌*◌, ◌%◌, ◌<◌, ◌≤◌, ◌≡◌, refl, ◌∙◌, ◌≢◌, inl, inr, arith, Option, some,
  none, List, [], ◌∷◌, u32_mod, if◌then◌else◌, ltb, leb, Bool-cases, ap, leb→le, lt→leb_false,
  ltb→lt, ltb_false→le, leb_false→lt,
}
use native.Mathlib.Nat.{zero-add}
use waeio.Freelist.{
  FreelistResult, ok, full, ob_entry, Freelist, all_free, calc_vector_len, freelist_next,
  freelist_reclaim,
}
use waeio.Freelist.View.{free, IsFreelist, Eligible, calc_vector_len_bounds, len-eq_of_size}
use waeio.Freelist.Next.{Found, freelist_next_cases}
use waeio.Freelist.Reclaim.{freelist_reclaim_cases}
use waeio.Freelist.Lifecycle.{all_free-IsFreelist, free-all_free}

-- One round of `fill_list`: `none` is a failed assertion or a fault. The entry is kept.
pub fill_round :
    Option (FreelistResult × Freelist × ℕ)
    → (Freelist → Option (List ℕ × Freelist))
    → Option (List ℕ × Freelist)
fill_round (some (ok, fl, e)) rest = elim (rest fl) [
  | none ↦ none
  | some (es, fl') ↦ some (e ∷ es, fl')
]
fill_round _ rest = none

-- `fill_list`, with the entries that it is given, in order.
unfoldable pub fill_list : ℕ → Freelist → Option (List ℕ × Freelist)
unfolding fill_round
fill_list zero fl = some ([], fl)
fill_list (suc capacity) fl = fill_round (freelist_next fl 0) (λ fl'. fill_list capacity fl')

-- k, k + 1, …, k + m - 1
abbrev pub range_from : ℕ → ℕ → List ℕ
range_from k zero = []
range_from k (suc m) = k ∷ range_from (k + 1) m

-- The number of eligible entries of a list of size `n`.
abbrev pub capacity : ℕ → ℕ
capacity n = if leb n 32 then n else 32 * calc_vector_len n

-- A list of size `n` whose entries below `k` are taken, and no others.
pub record IsFilled (n k : ℕ) (fl : Freelist) : Type 0 where
  pub invariant : IsFreelist fl
  pub size_eq : fl.size ≡ n
  pub taken : (j : ℕ) → j < k → free fl j ≡ 0
  pub left : (j : ℕ) → k ≤ j → j < 32 * fl.len → free fl j ≡ 1

pub all_free-IsFilled : (n : ℕ) → 0 < n → n < u32_mod → IsFilled n 0 (all_free n)
all_free-IsFilled n pos word = record {
  invariant = all_free-IsFreelist n pos word;
  size_eq = unfold all_free in refl;
  taken = λ j h. absurd (omega arith);
  left = λ j _ h. free-all_free n j h;
}

module _ {n k : ℕ} {fl : Freelist} (f : IsFilled n k fl) where
  fits : n < u32_mod
  fits = omega (arith, f.size_eq, f.invariant.fits)

  len_is : fl.len ≡ calc_vector_len n
  len_is = f.invariant.len_eq ∙ ap calc_vector_len f.size_eq

  next-Eligible : k < capacity n → Eligible fl k
  next-Eligible h =
      let in_range : (k < 32 * calc_vector_len n) × (k % 32 < n) = elim (Bool-cases (leb n 32)) [
        | inl small ↦
            let below : k < n = rw small at h in
            let le = leb→le _ _ small in
            (omega (arith, below, calc_vector_len_bounds n fits), omega (arith, below, le))
        | inr large ↦
            let below : k < 32 * calc_vector_len n = rw large at h in
            (below, omega (arith, leb_false→lt _ _ large))
      ] in
      let inside : k < 32 * fl.len = omega (arith, in_range.0, len_is) in
      (inside, omega (arith, in_range.1, f.size_eq), f.left k (omega arith) inside)

  Eligible-lt-capacity : (j : ℕ) → Eligible fl j → (k ≤ j) × (j < capacity n)
  Eligible-lt-capacity j e = (
    elim (Bool-cases (ltb j k)) [
      | inl early ↦ absurd (ground (arith, f.taken j, e.2))
      | inr late ↦ ground arith
    ],
    elim (Bool-cases (leb n 32)) [
      | inl small ↦
          let le = leb→le _ _ small in
          rw small (omega (arith, e.0, e.1, len_is, f.size_eq, le, calc_vector_len_bounds n fits))
      | inr large ↦ rw large (omega (arith, e.0, len_is))
    ],
  )

-- The call that takes `k` leaves one entry more taken.
IsFilled-next :
    (n k : ℕ) (fl : Freelist)
    → IsFilled n k fl
    → (x : Found fl (freelist_next fl 0)) → x.taken ≡ k
    → IsFilled n (k + 1) x.rest
IsFilled-next n k fl f x is_k = record {
  invariant = x.invariant;
  size_eq = x.same_size ∙ f.size_eq;
  taken = λ j h. ground (arith, x.removed j, f.taken j);
  left = λ j h inside.
      let same_len = len-eq_of_size x.rest fl x.invariant f.invariant x.same_size in
      let old = f.left j (omega arith) (omega (arith, same_len)) in
      ground (arith, x.removed j, old);
}

-- The next entry is `k`, as long as `k` is below the capacity.
next-IsFilled :
    (n k : ℕ) (fl : Freelist)
    → IsFilled n k fl
    → k < capacity n
    → (fl' : Freelist) × (freelist_next fl 0 ≡ some (ok, fl', k)) × IsFilled n (k + 1) fl'
next-IsFilled n k fl f h = elim (freelist_next_cases fl f.invariant 0) [
  | inl x ↦
      let e = next-Eligible f h in
      let lo = (Eligible-lt-capacity f x.taken x.eligible).0 in
      let is_k : x.taken ≡ k = elim (Bool-cases (ltb k x.taken)) [
        | inl far ↦ absurd (x.least k (ltb→lt _ _ far) e)
        | inr near ↦ omega (arith, lo, ltb_false→le _ _ near)
      ] in
      (x.rest, rw (← is_k) x.returns, IsFilled-next n k fl f x is_k)
  | inr x ↦ absurd (x.1 k (next-Eligible f h))
]

fill_list-suc :
    (m k : ℕ) (fl fl' fl'' : Freelist) (es : List ℕ)
    → freelist_next fl 0 ≡ some (ok, fl', k)
    → fill_list m fl' ≡ some (es, fl'')
    → fill_list (suc m) fl ≡ some (k ∷ es, fl'')
unfolding fill_list
fill_list-suc m k fl fl' fl'' es p q = rw (p, fill_round, q)

fill_list-IsFilled :
    (n k m : ℕ) (fl : Freelist)
    → IsFilled n k fl
    → k + m ≤ capacity n
    → (fl' : Freelist) × (fill_list m fl ≡ some (range_from k m, fl')) × IsFilled n (k + m) fl'
fill_list-IsFilled n k zero fl f h =
    (fl, unfold fill_list in refl, let e : k + 0 ≡ k = omega arith in rw e f)
fill_list-IsFilled n k (suc m) fl f h =
    let s = next-IsFilled n k fl f (omega arith) in
    let r = fill_list-IsFilled n (k + 1) m s.0 s.2 (omega arith) in
    let e : k + suc m ≡ k + 1 + m = omega arith in
    (r.0, fill_list-suc m k fl s.0 r.0 (range_from (k + 1) m) s.1 r.1, rw e r.2)

-- A new list of a 32-bit size `n` hands out the entries 0, 1, 2, … in this order, without a
-- failure, up to its capacity, which is `n` for `n` at most 32 and otherwise `n` rounded up to a
-- multiple of 32. The call after that reports FREELIST_FULL.
pub fill_list-all_free :
    (n m : ℕ)
    → 0 < n
    → n < u32_mod
    → m ≤ capacity n
    → (fl : Freelist) × (fill_list m (all_free n) ≡ some (range_from 0 m, fl))
      × (m ≡ capacity n → freelist_next fl 0 ≡ some (full, fl, 0))
fill_list-all_free n m pos word h =
    let r = fill_list-IsFilled n 0 m (all_free n) (all_free-IsFilled n pos word) (omega arith) in
    (r.0, r.1, exhausted r.0 (rw zero-add at r.2))
  where
    exhausted :
        (fl : Freelist) → IsFilled n m fl → m ≡ capacity n → freelist_next fl 0 ≡ some (full, fl, 0)
    exhausted fl f e = elim (freelist_next_cases fl f.invariant 0) [
      | inl x ↦ absurd (omega (arith, Eligible-lt-capacity f x.taken x.eligible, e))
      | inr x ↦ x.0
    ]

-- For every 32-bit size above 32 that is no multiple of 32 a new list goes wrong: when its `n`
-- entries are handed out it hands out entry `n`, which is not below its size, instead of
-- reporting FREELIST_FULL; and `freelist_reclaim` then refuses to take that entry back.
pub freelist_next_overruns :
    (n : ℕ)
    → 32 < n
    → n < u32_mod
    → n % 32 ≢ 0
    → (fl : Freelist) × (past : Freelist) × (fill_list n (all_free n) ≡ some (range_from 0 n, fl))
      × (freelist_next fl 0 ≡ some (ok, past, n))
      × (freelist_reclaim past n ≡ some (ob_entry, past))
freelist_next_overruns n large word uneven =
    let r =
      fill_list-IsFilled n 0 n (all_free n) (all_free-IsFilled n (omega arith) word)
        (omega (arith, room)) in
    let s = next-IsFilled n n r.0 (rw zero-add at r.2) room in (r.0, s.0, r.1, s.1, refused s.0 s.2)
  where
    room : n < capacity n
    room =
        let big : leb n 32 ≡ false = lt→leb_false _ _ large in
        rw big (omega (arith, uneven, calc_vector_len_bounds n word))

    refused : (fl : Freelist) → IsFilled n (n + 1) fl → freelist_reclaim fl n ≡ some (ob_entry, fl)
    refused fl f = elim (freelist_reclaim_cases fl n f.invariant) [
      | inl out ↦ out.1
      | inr within ↦ absurd (omega (arith, within.0, f.size_eq))
    ]
