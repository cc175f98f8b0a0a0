-- ===== src/Hostgen/Errno.antt =====
-- utils/hostgen.c: the cases of the generated `host_strerror`.
use waeio.Prelude.{
  ℕ, zero, suc, ◌<◌, ◌≡◌, ◌≢◌, refl, sym, ◌∙◌, ap, ◌⊎◌, inl, inr, arith, Bool, true, false, List,
  [], ◌∷◌, All, length, get_or, set, replicate, length-set, length-replicate, get_or-set_self,
  subst, if◌then◌else◌, get_or-set_ne, ◌==◌, ==_iff, Bool-cases, Outcome, done, read_in_range,
  write_in_range,
}
use Prim.Native.String
use Prim.Native.String.{String}
use waeio.Hostgen.{
  ErrnoItem, errno_items_count, join, print_case, emit_cases, emit_errno_c, around_cases,
}

-- The two lines of a case, for each of several items.
unfoldable pub case_lines : (ℕ → String) → List ErrnoItem → List String
case_lines strerror [] = []
case_lines strerror (x ∷ xs) =
    String.◌++◌ "    case HOST_" (String.◌++◌ x.name ":\n")
    ∷ String.◌++◌ "      return \"" (String.◌++◌ (strerror x.code) "\";\n")
    ∷ case_lines strerror xs

-- The items with another number than `c`.
unfoldable pub without : ℕ → List ErrnoItem → List ErrnoItem
without c [] = []
without c (x ∷ xs) = if x.code == c then without c xs else x ∷ without c xs

-- The first item of each number.
unfoldable pub firsts : List ErrnoItem → List ErrnoItem
firsts [] = []
firsts (x ∷ xs) = x ∷ without x.code (firsts xs)

-- The items whose numbers are not marked.
unfoldable unmarked_of : List Bool → List ErrnoItem → List ErrnoItem
unmarked_of seen [] = []
unmarked_of seen (x ∷ xs) =
    if get_or seen x.code false then unmarked_of seen xs else x ∷ unmarked_of seen xs

-- Marking a number is leaving it out.
unmarked_of-without :
    (seen : List Bool) (c : ℕ) (xs : List ErrnoItem)
    → c < length seen
    → unmarked_of seen (without c xs) ≡ unmarked_of (set seen c true) xs
unfolding unmarked_of without
unmarked_of-without seen c [] inside = refl
unmarked_of-without seen c (x ∷ xs) inside =
    let ih = unmarked_of-without seen c xs inside in
    elim (Bool-cases (x.code == c)) [
      | inl same ↦
          let q = (==_iff x.code c).0 same in
          let marked : get_or (set seen c true) x.code false ≡ true =
            ap (λ k. get_or (set seen c true) k false) q
            ∙ get_or-set_self seen c true false inside in
          rw (same, marked) ih
      | inr other ↦
          let ne : (c ≢ x.code) = ground arith in
          let kept = get_or-set_ne seen c x.code true false ne in rw (other, kept, ih) refl
    ]

-- What is marked need not be left out.
unmarked_of-marked :
    (seen : List Bool) (c : ℕ) (xs : List ErrnoItem)
    → get_or seen c false ≡ true
    → unmarked_of seen (without c xs) ≡ unmarked_of seen xs
unfolding unmarked_of without
unmarked_of-marked seen c [] old = refl
unmarked_of-marked seen c (x ∷ xs) old =
    let ih = unmarked_of-marked seen c xs old in
    elim (Bool-cases (x.code == c)) [
      | inl same ↦
          let q = (==_iff x.code c).0 same in
          let marked : get_or seen x.code false ≡ true = ap (λ k. get_or seen k false) q ∙ old in
          rw (same, marked) ih
      | inr other ↦ rw (other, ih) refl
    ]

-- No two of the items have one number.
unfoldable pub Distinct : List ErrnoItem → Type 0
Distinct [] = Unit {0}
Distinct (x ∷ xs) = All (λ (y : ErrnoItem). y.code ≢ x.code) xs × Distinct xs

-- Some item has the number `c`.
unfoldable pub HasCode : ℕ → List ErrnoItem → Type 0
HasCode c [] = ⊥
HasCode c (x ∷ xs) = (x.code ≡ c) ⊎ HasCode c xs

All-map :
    {P Q : ErrnoItem → Type 0}
    → ((x : ErrnoItem) → P x → Q x)
    → (xs : List ErrnoItem) → All P xs
    → All Q xs
All-map f [] ps = tt
All-map f (x ∷ xs) ps = (f x ps.0, All-map f xs ps.1)

unmarked : (n i : ℕ) → get_or (replicate n false) i false ≡ false
unmarked zero i = refl
unmarked (suc n) zero = refl
unmarked (suc n) (suc i) = unmarked n i

-- Nothing is marked at the start.
unmarked_of-replicate : (n : ℕ) (xs : List ErrnoItem) → unmarked_of (replicate n false) xs ≡ xs
unfolding unmarked_of
unmarked_of-replicate n [] = refl
unmarked_of-replicate n (x ∷ xs) = rw (unmarked n x.code, unmarked_of-replicate n xs) refl

module _ (strerror : ℕ → String) where
  record Cases (seen : List Bool) (items : List ErrnoItem) (result : Outcome (List String))
      : Type 0 where
    kept : List ErrnoItem
    kept_is : kept ≡ unmarked_of seen (firsts items)
    returns : result ≡ done (case_lines strerror kept)
    fresh : All (λ (x : ErrnoItem). get_or seen x.code false ≡ false) kept
    distinct : Distinct kept
    covers : All (λ (x : ErrnoItem). (get_or seen x.code false ≡ true) ⊎ HasCode x.code kept) items

  emit_cases-Cases :
      (seen : List Bool) (items : List ErrnoItem)
      → All (λ (x : ErrnoItem). x.code < length seen) items
      → Cases seen items (emit_cases strerror seen items)
  unfolding emit_cases case_lines Distinct HasCode print_case join firsts unmarked_of
  emit_cases-Cases seen [] small = record {
    kept = [];
    kept_is = refl;
    returns = refl;
    fresh = tt;
    distinct = tt;
    covers = tt;
  }
  emit_cases-Cases seen (x ∷ xs) small =
      let c = x.code in
      let seen' = set seen c true in
      let here = read_in_range seen c false small.0 in
      let there = write_in_range seen c true small.0 in
      elim (Bool-cases (get_or seen c false)) [
        | inl old ↦
            let ih = emit_cases-Cases seen xs small.1 in
            record {
              kept = ih.kept;
              kept_is = rw old (ih.kept_is ∙ sym (unmarked_of-marked seen x.code (firsts xs) old));
              returns = rw (here, there, old) ih.returns;
              fresh = ih.fresh;
              distinct = ih.distinct;
              covers = (inl old, ih.covers);
            }
        | inr new ↦
            let marked : get_or seen' c false ≡ true = get_or-set_self seen c true false small.0 in
            let apart : (k : ℕ) → c ≢ k → get_or seen' k false ≡ get_or seen k false =
              λ k ne. get_or-set_ne seen c k true false ne in
            let ih =
              emit_cases-Cases seen' xs
                (All-map (λ y h. rw (length-set seen c true) h) xs small.1) in
            let other : (y : ErrnoItem) → get_or seen' y.code false ≡ false → c ≢ y.code =
              λ y h q. cc (h, marked, ap (λ k. get_or seen' k false) q) in
            record {
              kept = x ∷ ih.kept;
              kept_is = rw new (
                  ap (λ l. x ∷ l)
                    (ih.kept_is ∙ sym (unmarked_of-without seen x.code (firsts xs) small.0)));
              returns = rw (here, there, new, ih.returns) refl;
              fresh = (new, All-map (λ y h. sym (apart y.code (other y h)) ∙ h) ih.kept ih.fresh);
              distinct = (All-map (λ y h q. other y h (sym q)) ih.kept ih.fresh, ih.distinct);
              covers = (
                inr (inl refl),
                All-map
                    (λ y h. elim h [
                      | inr has ↦ inr (inr has)
                      | inl was ↦ elim (Bool-cases (c == y.code)) [
                        | inl same ↦ inr (inl ((==_iff _ _).0 same))
                        | inr differs ↦
                            let ne : (c ≢ y.code) = ground arith in
                            inl (sym (apart y.code ne) ∙ was)
                      ]
                    ])
                    xs ih.covers,
              );
            }
      ]

  -- If every number is below ERRNO_ITEMS, `emit_errno_c` marks inside its array, and the switch that
  -- it prints has, in order, for the first item of each number and for no other, a line with the case
  -- of its name and a line that returns the message of its number. No two of these items have one
  -- number, and every item's number is that of one of them.
  pub emit_errno_c_cases :
      (items : List ErrnoItem)
      → All (λ (x : ErrnoItem). x.code < errno_items_count) items
      → (emit_errno_c strerror items ≡ done (around_cases (case_lines strerror (firsts items))))
        × Distinct (firsts items)
        × All (λ (x : ErrnoItem). HasCode x.code (firsts items)) items
  unfolding emit_errno_c
  emit_errno_c_cases items small =
      let blank = replicate errno_items_count false in
      let x =
        emit_cases-Cases blank items
          (All-map (λ y h. rw (length-replicate errno_items_count false) h) items small) in
      let q = x.kept_is ∙ unmarked_of-replicate errno_items_count (firsts items) in
      (
        rw x.returns (ap (λ l. done (around_cases (case_lines strerror l))) q),
        subst Distinct q x.distinct,
        All-map
            (λ y h. elim h [
              | inl was ↦ cc (was, unmarked errno_items_count y.code)
              | inr has ↦ subst (HasCode y.code) q has
            ])
            items x.covers,
      )
