-- ===== src/Freelist/Reclaim.antt =====
-- src/freelist.c: `freelist_reclaim` puts one entry back, and undoes `freelist_next`.
use waeio.Prelude.{
  ℕ, ◌/◌, ◌%◌, ◌<◌, ◌≤◌, ◌≡◌, refl, ◌∙◌, ◌⊎◌, inl, inr, arith, Option, some, length, get_or, IsWord,
  sub32, mul32, if◌then◌else◌, ◌==◌, leb, set, get_elem?-eq-get_or, length-set, All-set, All-get_or,
  bit_or, bit_or-word, shl_one, shl_one-word, false, Bool-cases, ==_iff, leb→le, leb_false→lt,
  lt→leb_false, ap,
}
use waeio.Freelist.{
  FreelistResult, ok, ob_entry, Freelist, freelist_next, freelist_reclaim, int_width,
}
use waeio.Freelist.View.{
  free, IsFreelist, Eligible, Freelist_ext, free-set, bit-set_bit, free-le-one, len-eq_of_size,
  lt-len_of_lt-size,
}
use waeio.Freelist.Next.{Found, freelist_next_cases}

-- A successful call: the entry alone enters the set.
pub record Reclaimed (fl : Freelist) (entry : ℕ) (result : Option (FreelistResult × Freelist))
    : Type 0 where
  pub rest : Freelist
  pub returns : result ≡ some (ok, rest)
  pub same_size : rest.size ≡ fl.size
  pub invariant : IsFreelist rest
  pub added : (j : ℕ) → free rest j ≡ (if entry == j then 1 else free fl j)

module _ (fl : Freelist) (entry : ℕ) (inv : IsFreelist fl) (below : entry < fl.size) where
  inside : entry / 32 < length fl.vector
  inside = omega (arith, inv.same_length, lt-len_of_lt-size fl entry inv below)

  marked : Freelist
  marked = record fl {
    vector =
        set fl.vector (entry / 32)
          (bit_or (get_or fl.vector (entry / 32) 0) (shl_one (entry % 32)));
  }

  freelist_reclaim_inside : freelist_reclaim fl entry ≡ some (ok, marked)
  unfolding freelist_reclaim marked
  freelist_reclaim_inside =
      let in_range : leb fl.size entry ≡ false = lt→leb_false _ _ below in
      let index : sub32 entry (mul32 int_width (entry / int_width)) ≡ entry % 32 =
        omega (arith, below, inv.fits) in
      rw (in_range, get_elem?-eq-get_or fl.vector (entry / 32) 0 inside, index)

  marked-Reclaimed : Reclaimed fl entry (freelist_reclaim fl entry)
  unfolding marked
  marked-Reclaimed = record {
    rest = marked;
    returns = freelist_reclaim_inside;
    same_size = refl;
    invariant = record {
      positive = inv.positive;
      fits = inv.fits;
      len_eq = inv.len_eq;
      same_length = length-set fl.vector (entry / 32) _ ∙ inv.same_length;
      words = All-set IsWord fl.vector (entry / 32) _ inv.words (
          bit_or-word _ _ (All-get_or IsWord fl.vector (entry / 32) 0 inv.words inside)
            (shl_one-word (entry % 32) (omega arith)));
    };
    added =
        free-set fl (entry / 32) (entry % 32) _ 1 entry (omega arith) (omega arith) inside
          (λ d h. bit-set_bit _ (entry % 32) d);
  }

-- FREELIST_OB_ENTRY is returned, with no change, exactly for an entry that is not below the size.
-- For any other the access is inside the vector, the entry alone enters the free set, and size and
-- invariant are kept.
pub freelist_reclaim_cases :
    (fl : Freelist) (entry : ℕ)
    → IsFreelist fl
    → ((fl.size ≤ entry) × (freelist_reclaim fl entry ≡ some (ob_entry, fl)))
      ⊎ ((entry < fl.size) × Reclaimed fl entry (freelist_reclaim fl entry))
freelist_reclaim_cases fl entry inv = elim (Bool-cases (leb fl.size entry)) [
  | inl out ↦ inl (leb→le _ _ out, unfold freelist_reclaim in rw out refl)
  | inr within ↦
      let below : entry < fl.size = leb_false→lt _ _ within in
      inr (below, marked-Reclaimed fl entry inv below)
]

-- Reclaiming the entry that a call of `freelist_next` took gives the list back, word for word, if
-- the entry is below the size.
pub reclaim-next :
    (fl : Freelist)
    → IsFreelist fl
    → (f : Found fl (freelist_next fl 0)) → f.taken < fl.size
    → freelist_reclaim f.rest f.taken ≡ some (ok, fl)
reclaim-next fl inv f below =
    let r = marked-Reclaimed f.rest f.taken f.invariant (rw f.same_size below) in
    r.returns
    ∙ ap (λ (x : Freelist). some (ok, x))
        (Freelist_ext r.rest fl r.invariant inv (r.same_size ∙ f.same_size)
          (λ j. ground (arith, r.added j, f.removed j, f.eligible.2)))

-- On a full list a reclaimed entry is the next one that is handed out, and the list is then full
-- again, word for word as before.
pub next-reclaim :
    (fl : Freelist) (entry : ℕ)
    → IsFreelist fl
    → ((j : ℕ) → ¬ Eligible fl j)
    → entry < fl.size
    → entry % 32 < fl.size
    → (mid : Freelist) × (freelist_reclaim fl entry ≡ some (ok, mid))
      × (freelist_next mid 0 ≡ some (ok, fl, entry))
next-reclaim fl entry inv exhausted below in_word =
    let r = marked-Reclaimed fl entry inv below in (r.rest, r.returns, again r)
  where
    not_free : free fl entry ≡ 0
    not_free = elim (Bool-cases (free fl entry == 0)) [
      | inl e ↦ (==_iff _ _).0 e
      | inr e ↦
          let one : free fl entry ≡ 1 = ground (arith, free-le-one fl entry) in
          absurd (exhausted entry (lt-len_of_lt-size fl entry inv below, in_word, one))
    ]

    back_in : (r : Reclaimed fl entry (freelist_reclaim fl entry)) → Eligible r.rest entry
    back_in r = (
      lt-len_of_lt-size r.rest entry r.invariant (rw r.same_size below),
      rw r.same_size in_word,
      ground (arith, r.added entry),
    )

    taken_is :
        (r : Reclaimed fl entry (freelist_reclaim fl entry))
        → (f : Found r.rest (freelist_next r.rest 0)) → f.taken ≡ entry
    taken_is r f = elim (Bool-cases (f.taken == entry)) [
      | inl e ↦ (==_iff _ _).0 e
      | inr e ↦
          let same_len = len-eq_of_size r.rest fl r.invariant inv r.same_size in
          let was : free fl f.taken ≡ 1 = ground (arith, r.added f.taken, f.eligible) in
          absurd (
            exhausted f.taken (
              omega (arith, same_len, f.eligible.0),
              omega (arith, r.same_size, f.eligible.1),
              was,
            ))
    ]

    again :
        (r : Reclaimed fl entry (freelist_reclaim fl entry))
        → freelist_next r.rest 0 ≡ some (ok, fl, entry)
    again r = elim (freelist_next_cases r.rest r.invariant 0) [
      | inl f ↦
          let same : f.taken ≡ entry = taken_is r f in
          let back : f.rest ≡ fl =
            Freelist_ext f.rest fl f.invariant inv (f.same_size ∙ r.same_size)
              (λ j. ground (arith, r.added j, f.removed j, not_free)) in
          f.returns ∙ rw (back, same)
      | inr full_again ↦ absurd (full_again.1 entry (back_in r))
    ]
