-- ===== src/Httpserver/WasioFiber/Safe.antt =====
-- examples/httpserver/httpserver_wasio_fiber.c: code that stays within the arrays, and what it may take out
-- of use.
use waeio.Prelude.{
  ℕ, ◌+◌, ◌<◌, ◌≤◌, ◌≡◌, ◌⊎◌, refl, sym, ap, ◌∙◌, subst, arith, inl, inr, Bool, true, false, length,
  get_or, set, length-set, sub32, Outcome, done, aborted, ◌>>=◌, ◌>>◌, assert, read_in_range,
  write_in_range,
}
use waeio.Wasio.{Pollfd}
use waeio.Wasio.Poll.Bounds.{IsWfd}
use waeio.Httpserver.WasioFiber.{Server, with_wasio, update_entry, lose_entry}
use waeio.Httpserver.WasioFiber.Commands.{none_here}

module _ {W M : Type 0} where
  -- The entries in use lie within both arrays, which have `cap` places.
  pub record Fits (cap : ℕ) (s : Server W M) : Type 0 where
    pub wfd : IsWfd s.wasio.wfd
    pub capacity_is : s.wasio.wfd.capacity ≡ cap
    pub fibers_room : length s.fibers ≡ cap

  -- An assertion fails, or the code has a result, with a server within its bounds that has at most
  -- `lost` entries fewer in use than `n`.
  unfoldable pub Safe : {A : Type 0} → ℕ → (A → Server W M) → ℕ → ℕ → Outcome A → Type 0
  Safe {A} cap server lost n o =
      (o ≡ aborted)
      ⊎ ((a : A) × (o ≡ done a) × Fits cap (server a) × (n ≤ (server a).wasio.wfd.length + lost))

  module _ (cap : ℕ) where
    pub returns-Safe :
        {A : Type 0} (f : A → Server W M) (lost n : ℕ) (a : A)
        → Fits cap (f a)
        → n ≤ (f a).wasio.wfd.length + lost
        → Safe cap f lost n (done a)
    unfolding Safe
    returns-Safe f lost n a fits le = inr (a, refl, fits, le)

    pub weaken-Safe :
        {A : Type 0} (f : A → Server W M) (lost n n' lost' : ℕ) (o : Outcome A)
        → Safe cap f lost n o
        → n' + lost ≤ n + lost'
        → Safe cap f lost' n' o
    unfolding Safe
    weaken-Safe f lost n n' lost' o (inl q) le = inl q
    weaken-Safe f lost n n' lost' o (inr (a, q, fits, fewer)) le =
        inr (a, q, fits, omega (arith, fewer, le))

    pub forget-Safe :
        {A : Type 0} (f : A → Server W M) (lost n : ℕ) (o : Outcome A)
        → Safe cap f lost n o
        → Safe cap f 0 0 o
    unfolding Safe
    forget-Safe f lost n o (inl q) = inl q
    forget-Safe f lost n o (inr (a, q, fits, fewer)) = inr (a, q, fits, omega arith)

    pub bind-Safe :
        {A B : Type 0} (f : A → Server W M) (g : B → Server W M) (lost more n : ℕ) (o : Outcome A)
        (k : A → Outcome B)
        → Safe cap f lost n o
        → ((a : A)
            → Fits cap (f a)
            → n ≤ (f a).wasio.wfd.length + lost
            → Safe cap g more (f a).wasio.wfd.length (k a))
        → Safe cap g (lost + more) n (o >>= k)
    unfolding Safe
    bind-Safe f g lost more n o k (inl q) next = inl (ap (λ x. x >>= k) q)
    bind-Safe f g lost more n o k (inr (a, q, fits, le)) next =
        subst (λ x. Safe cap g (lost + more) n (x >>= k)) (sym q)
          (weaken-Safe g more (f a).wasio.wfd.length n (lost + more) (k a) (next a fits le)
            (omega (arith, le)))

    pub reads-Safe :
        {A B : Type 0} (g : B → Server W M) (lost n : ℕ) (o : Outcome A) (k : A → Outcome B) (a : A)
        → o ≡ done a
        → Safe cap g lost n (k a)
        → Safe cap g lost n (o >>= k)
    reads-Safe g lost n o k a q next = subst (λ x. Safe cap g lost n (x >>= k)) (sym q) next

    pub assert-Safe :
        {B : Type 0} (g : B → Server W M) (lost n : ℕ) (b : Bool) (k : Outcome B)
        → Safe cap g lost n k
        → Safe cap g lost n (assert b >> k)
    unfolding Safe
    assert-Safe g lost n true k next = next
    assert-Safe g lost n false k next = inl refl

    -- An assignment to a field of an entry.
    pub update_entry-Safe :
        (i : ℕ) (change : Pollfd → Pollfd) (s : Server W M)
        → Fits cap s
        → i < cap
        → Safe cap (λ t. t) 0 s.wasio.wfd.length (update_entry s i change)
    unfolding update_entry
    update_entry-Safe i change s f below =
        let wfd = s.wasio.wfd in
        let inside : i < length wfd.fds = omega (arith, below, f.wfd.room, f.capacity_is) in
        let fds = set wfd.fds i (change (get_or wfd.fds i none_here)) in
        rw
          (
            read_in_range wfd.fds i none_here inside,
            write_in_range wfd.fds i (change (get_or wfd.fds i none_here)) inside,
          )
          (returns-Safe (λ t. t) 0 wfd.length
            (with_wasio s (record (s.wasio) { wfd = record wfd { fds = fds } }))
            (record {
              wfd = record {
                within = f.wfd.within;
                room = length-set wfd.fds i _ ∙ f.wfd.room;
                word = f.wfd.word;
              };
              capacity_is = f.capacity_is;
              fibers_room = f.fibers_room;
            })
            (omega arith))

    pub lose_entry-Fits :
        (s : Server W M)
        → Fits cap s
        → 0 < s.wasio.wfd.length
        → Fits cap (lose_entry s) × (s.wasio.wfd.length ≤ (lose_entry s).wasio.wfd.length + 1)
    lose_entry-Fits s f used =
        let one_less : sub32 s.wasio.wfd.length 1 + 1 ≡ s.wasio.wfd.length =
          omega (arith, used, f.wfd.within, f.wfd.word) in
        (
          record {
            wfd = record {
              within = omega (arith, one_less, f.wfd.within);
              room = f.wfd.room;
              word = f.wfd.word;
            };
            capacity_is = f.capacity_is;
            fibers_room = f.fibers_room;
          },
          omega (arith, one_less),
        )
