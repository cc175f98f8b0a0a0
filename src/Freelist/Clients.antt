-- ===== src/Freelist/Clients.antt =====
-- src/freelist.c: a client that takes and returns entries, in any order, owns each entry at most
-- once, and no entry gets lost.
use waeio.Prelude.{
  ℕ, ◌+◌, ◌<◌, ◌≤◌, ◌≡◌, refl, ◌∙◌, arith, List, [], ◌∷◌, some, if◌then◌else◌, ◌==◌, u32_mod,
  Bool-cases, inl, inr,
}
use waeio.Freelist.{Freelist, FreelistResult, ok, full, all_free, freelist_next, freelist_reclaim}
use waeio.Freelist.View.{free, IsFreelist, free-le-one, lt-len_of_lt-size}
use waeio.Freelist.Next.{Found, freelist_next_cases}
use waeio.Freelist.Reclaim.{Reclaimed, freelist_reclaim_cases}
use waeio.Freelist.Bounds.{IsAligned, Eligible-lt}
use waeio.Freelist.Lifecycle.{all_free-IsFreelist, free-all_free}

abbrev pub count : ℕ → List ℕ → ℕ
count e [] = 0
count e (x ∷ xs) = (if x == e then 1 else 0) + count e xs

abbrev pub remove : ℕ → List ℕ → List ℕ
remove e [] = []
remove e (x ∷ xs) = if x == e then xs else x ∷ remove e xs

-- A list together with the entries that its client holds.
pub record Client : Type 0 where
  pub list : Freelist
  pub owned : List ℕ

-- What a client may do: call `freelist_next`, or return an entry that it holds.
pub data Step (c : Client) : Client → Type 0 where
  take :
      (fl : Freelist) (e : ℕ)
      → freelist_next c.list 0 ≡ some (ok, fl, e)
      → Step c (record { list = fl; owned = e ∷ c.owned })
  refuse :
      (fl : Freelist) (e : ℕ)
      → freelist_next c.list 0 ≡ some (full, fl, e)
      → Step c (record { list = fl; owned = c.owned })
  give :
      (e : ℕ) (code : FreelistResult) (fl : Freelist)
      → 0 < count e c.owned
      → freelist_reclaim c.list e ≡ some (code, fl)
      → Step c (record { list = fl; owned = remove e c.owned })

pub data Reach (c : Client) : Client → Type 0 where
  here : Reach c c
  next : {d e : Client} → Reach c d → Step d e → Reach c e

-- Each entry below the size is either free or owned, and owned once; nothing else is owned.
pub record IsConserved (size : ℕ) (c : Client) : Type 0 where
  pub invariant : IsFreelist c.list
  pub size_eq : c.list.size ≡ size
  pub balance : (e : ℕ) → e < size → free c.list e + count e c.owned ≡ 1
  pub bounded : (e : ℕ) → size ≤ e → count e c.owned ≡ 0

count-remove :
    (e j : ℕ) (xs : List ℕ)
    → 0 < count e xs
    → count j (remove e xs) + (if e == j then 1 else 0) ≡ count j xs
count-remove e j [] h = absurd (omega arith)
count-remove e j (x ∷ xs) h = elim (Bool-cases (x == e)) [
  | inl same ↦ ground arith
  | inr other ↦
      let deeper : 0 < count e xs = ground arith in
      rw other (omega (arith, count-remove e j xs deeper))
]

take-IsConserved :
    {size : ℕ} {c : Client}
    → IsAligned size
    → IsConserved size c
    → (x : Found c.list (freelist_next c.list 0))
    → IsConserved size (record { list = x.rest; owned = x.taken ∷ c.owned })
take-IsConserved {size} {c} al v x =
    let al' : IsAligned c.list.size = rw v.size_eq al in
    let below : x.taken < size =
      omega (arith, Eligible-lt c.list x.taken v.invariant al' x.eligible, v.size_eq) in
    record {
      invariant = x.invariant;
      size_eq = x.same_size ∙ v.size_eq;
      balance = λ e h. ground (arith, x.removed e, v.balance e h, x.eligible);
      bounded = λ e h. ground (arith, v.bounded e h, below);
    }

-- A client cannot hold an entry that the list would refuse.
give-IsConserved :
    {size : ℕ} {c : Client} (e : ℕ)
    → IsConserved size c
    → 0 < count e c.owned
    → (x : Reclaimed c.list e (freelist_reclaim c.list e))
    → IsConserved size (record { list = x.rest; owned = remove e c.owned })
give-IsConserved {c} e v held x = record {
  invariant = x.invariant;
  size_eq = x.same_size ∙ v.size_eq;
  balance = λ j h.
      ground (arith, x.added j, v.balance j h, free-le-one c.list j, count-remove e j c.owned held);
  bounded = λ j h. omega (arith, v.bounded j h, count-remove e j c.owned held);
}

Step-IsConserved :
    {size : ℕ} {c d : Client} → IsAligned size → Step c d → IsConserved size c → IsConserved size d
Step-IsConserved {c} al (take fl e h) v = elim (freelist_next_cases c.list v.invariant 0) [
  | inl x ↦
      let p : x.rest ≡ fl = cc (x.returns) in
      let q : x.taken ≡ e = cc (x.returns) in rw (← p, ← q) (take-IsConserved al v x)
  | inr x ↦ cc (x.0)
]
Step-IsConserved {c} al (refuse fl e h) v = elim (freelist_next_cases c.list v.invariant 0) [
  | inl x ↦ cc (x.returns)
  | inr x ↦ let p : c.list ≡ fl = cc (x.0) in rw (← p) v
]
Step-IsConserved {c} al (give e code fl held h) v =
    elim (freelist_reclaim_cases c.list e v.invariant) [
      | inl out ↦ absurd (omega (arith, out.0, held, v.size_eq, v.bounded e))
      | inr x ↦ let p : x.1.rest ≡ fl = cc (x.1.returns) in rw (← p) (give-IsConserved e v held x.1)
    ]

Reach-IsConserved :
    {size : ℕ} {c d : Client} → IsAligned size → IsConserved size c → Reach c d → IsConserved size d
Reach-IsConserved al v here = v
Reach-IsConserved al v (next r s) = Step-IsConserved al s (Reach-IsConserved al v r)

-- From a new list of a 32-bit size that is at most 32 or a multiple of 32, whatever calls a client
-- makes, returning only entries that it holds: the invariant is kept, each entry below the size is
-- either free or held exactly once, and no other entry is ever held.
pub Reach-all_free :
    (size : ℕ) (d : Client)
    → 0 < size
    → size < u32_mod
    → IsAligned size
    → Reach (record { list = all_free size; owned = [] }) d
    → IsConserved size d
Reach-all_free size d pos fits al r =
    Reach-IsConserved al
      (record {
        invariant = inv;
        size_eq = size_is;
        balance = λ e h. omega (
          arith,
          free-all_free size e
              (lt-len_of_lt-size (all_free size) e inv (omega (arith, h, size_is))),
        );
        bounded = λ e h. refl;
      })
      r
  where
    inv : IsFreelist (all_free size)
    inv = all_free-IsFreelist size pos fits

    size_is : (all_free size).size ≡ size
    size_is = unfold all_free in refl
