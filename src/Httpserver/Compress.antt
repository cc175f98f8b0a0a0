-- ===== src/Httpserver/Compress.antt =====
-- examples/httpserver: what is left of the array of connections once it is compressed.
use waeio.Prelude.{
  ℕ, zero, suc, ◌+◌, ◌-◌, ◌<◌, ◌≤◌, ◌≡◌, refl, ap, subst, ◌∙◌, arith, Bool, inl, inr, List, [], ◌∷◌,
  length, get_or, set, length-set, get_or-set_self, get_or-set_ne, if◌then◌else◌, Bool-cases,
  Outcome, done, read_in_range, write_in_range,
}
use waeio.Httpserver.{shift, compress}

-- The keys that `closed` does not hold of, in order, and how many they are.
unfoldable pub open_keys {ℓ} : {K : Type ℓ} → (K → Bool) → List K → List K
open_keys closed [] = []
open_keys closed (k ∷ ks) = if closed k then open_keys closed ks else k ∷ open_keys closed ks

length-open_keys {ℓ} :
    {K : Type ℓ} (closed : K → Bool) (ks : List K) → length (open_keys closed ks) ≤ length ks
unfolding open_keys
length-open_keys closed [] = omega arith
length-open_keys closed (k ∷ ks) =
    let ih = length-open_keys closed ks in
    elim (Bool-cases (closed k)) [
      | inl gone ↦ rw gone (omega (arith, ih))
      | inr stays ↦ rw stays (omega (arith, ih))
    ]

-- An entry counts by its key, which is a part that moves; `none_here` stands for entries beyond the
-- array and is never read.
module _ {A K : Type 0} (key : A → K) (closed : K → Bool) (copy : A → A → A)
    (moves : (here next : A) → key (copy here next) ≡ key next) (none_here : A) where
  -- The keys of `count` entries from `i` on.
  unfoldable pub keys_from : ℕ → ℕ → List A → List K
  keys_from zero i xs = []
  keys_from (suc count) i xs = key (get_or xs i none_here) ∷ keys_from count (i + 1) xs

  abbrev is_closed : A → Bool
  is_closed x = closed (key x)

  length-keys_from : (count i : ℕ) (xs : List A) → length (keys_from count i xs) ≡ count
  unfolding keys_from
  length-keys_from zero i xs = refl
  length-keys_from (suc count) i xs = ap suc (length-keys_from count (i + 1) xs)

  pub no_more_open :
      (count i : ℕ) (xs : List A) → length (open_keys closed (keys_from count i xs)) ≤ count
  no_more_open count i xs =
      omega (arith, length-open_keys closed (keys_from count i xs), length-keys_from count i xs)

  keys_from_ext :
      (count i : ℕ) (xs ys : List A)
      → ((j : ℕ) → i ≤ j → get_or ys j none_here ≡ get_or xs j none_here)
      → keys_from count i ys ≡ keys_from count i xs
  unfolding keys_from
  keys_from_ext zero i xs ys h = refl
  keys_from_ext (suc count) i xs ys h =
      rw (h i (omega arith), keys_from_ext count (i + 1) xs ys (λ j le. h j (omega arith))) refl

  record Shifted (count i : ℕ) (xs : List A) (result : Outcome (List A)) : Type 0 where
    after : List A
    returns : result ≡ done after
    same_length : length after ≡ length xs
    before : (j : ℕ) → j < i → get_or after j none_here ≡ get_or xs j none_here
    moved : keys_from count i after ≡ keys_from count (i + 1) xs

  shift-Shifted :
      (count i : ℕ) (xs : List A)
      → i + count < length xs
      → Shifted count i xs (shift is_closed copy count i xs)
  unfolding shift keys_from
  shift-Shifted zero i xs h = record {
    after = xs;
    returns = refl;
    same_length = refl;
    before = λ j lt. refl;
    moved = refl;
  }
  shift-Shifted (suc count) i xs h =
      let next = get_or xs (i + 1) none_here in
      let xs' = set xs i (copy (get_or xs i none_here) next) in
      let size : length xs' ≡ length xs = length-set xs i _ in
      let ih = shift-Shifted count (i + 1) xs' (omega (arith, h, size)) in
      let here : get_or xs' i none_here ≡ copy (get_or xs i none_here) next =
        get_or-set_self xs i _ none_here (omega (arith, h)) in
      let behind : keys_from count (i + 1 + 1) xs' ≡ keys_from count (i + 1 + 1) xs =
        keys_from_ext count (i + 1 + 1) xs xs'
          (λ j le. get_or-set_ne xs i j _ none_here (omega (arith, le))) in
      record {
        after = ih.after;
        returns =
            rw
              (
                read_in_range xs (i + 1) none_here (omega (arith, h)),
                read_in_range xs i none_here (omega (arith, h)),
                write_in_range xs i (copy (get_or xs i none_here) next) (omega (arith, h)),
              )
              ih.returns;
        same_length = ih.same_length ∙ size;
        before = λ j lt.
            ih.before j (omega (arith, lt)) ∙ get_or-set_ne xs i j _ none_here (omega (arith, lt));
        moved =
            rw
              (
                ih.before i (omega arith),
                here,
                moves (get_or xs i none_here) next,
                ih.moved,
                behind,
              )
              refl;
      }

  -- `nfds'` entries are left of the `nfds` in `xs`: those from `i` on that were open.
  pub record Compressed (left i : ℕ) (xs : List A) (nfds : ℕ) (result : Outcome (List A × ℕ))
      : Type 0 where
    pub after : List A
    pub nfds' : ℕ
    pub returns : result ≡ done (after, nfds')
    pub same_length : length after ≡ length xs
    pub before : (j : ℕ) → j < i → get_or after j none_here ≡ get_or xs j none_here
    pub size_is : i + length (open_keys closed (keys_from left i xs)) ≡ nfds'
    pub open_is : keys_from (nfds' - i) i after ≡ open_keys closed (keys_from left i xs)

  compress-Compressed :
      (left i : ℕ) (xs : List A) (nfds : ℕ)
      → i + left ≡ nfds
      → nfds ≤ length xs
      → Compressed left i xs nfds (compress is_closed copy left i xs nfds)
  unfolding compress keys_from open_keys
  compress-Compressed zero i xs nfds e h =
      let none_left : nfds - i ≡ 0 = omega (arith, e) in
      record {
        after = xs;
        nfds' = nfds;
        returns = refl;
        same_length = refl;
        before = λ j lt. refl;
        size_is = omega (arith, e);
        open_is = rw none_left refl;
      }
  compress-Compressed (suc left) i xs nfds e h =
      let inside = read_in_range xs i none_here (omega (arith, e, h)) in
      elim (Bool-cases (closed (key (get_or xs i none_here)))) [
        | inl gone ↦
            let s = shift-Shifted left i xs (omega (arith, e, h)) in
            let ih =
              compress-Compressed left i s.after (nfds - 1) (omega (arith, e))
                (omega (arith, e, h, s.same_length)) in
            record {
              after = ih.after;
              nfds' = ih.nfds';
              returns = rw (inside, gone, s.returns) ih.returns;
              same_length = ih.same_length ∙ s.same_length;
              before = λ j lt. ih.before j lt ∙ s.before j lt;
              size_is = rw (gone, ← s.moved) ih.size_is;
              open_is = rw (gone, ← s.moved) ih.open_is;
            }
        | inr stays ↦
            let ih = compress-Compressed left (i + 1) xs nfds (omega (arith, e)) h in
            let more : ih.nfds' - i ≡ suc (ih.nfds' - (i + 1)) = omega (arith, ih.size_is) in
            record {
              after = ih.after;
              nfds' = ih.nfds';
              returns = rw (inside, stays) ih.returns;
              same_length = ih.same_length;
              before = λ j lt. ih.before j (omega (arith, lt));
              size_is = rw stays (omega (arith, ih.size_is));
              open_is = rw (more, stays, ih.before i (omega arith), ih.open_is) refl;
            }
      ]

  -- Compressing the first `nfds` entries of an array makes no access out of range: it keeps the keys
  -- of the entries that are not closed, in their order, and sets the count to their number.
  pub compress_keeps :
      (xs : List A) (nfds : ℕ)
      → nfds ≤ length xs
      → (after : List A) × (nfds' : ℕ) × (compress (λ x. closed (key x)) copy nfds 0 xs nfds
          ≡ done (after, nfds'))
        × (length after ≡ length xs)
        × (nfds' ≡ length (open_keys closed (keys_from nfds 0 xs)))
        × (keys_from nfds' 0 after ≡ open_keys closed (keys_from nfds 0 xs))
  compress_keeps xs nfds h =
      let x = compress-Compressed nfds 0 xs nfds (omega arith) h in
      let all : x.nfds' - 0 ≡ x.nfds' = omega arith in
      (
        x.after,
        x.nfds',
        x.returns,
        x.same_length,
        omega (arith, x.size_is),
        subst (λ n. keys_from n 0 x.after ≡ open_keys closed (keys_from nfds 0 xs)) all x.open_is,
      )
