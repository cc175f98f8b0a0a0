-- ===== src/Wasio/Table/Wrap.antt =====
-- src/wasio_host.c: `wasio_wrap` binds the least free virtual descriptor.
use waeio.Prelude.{
  ℕ, ◌+◌, ◌<◌, ◌≡◌, ◌≢◌, refl, sym, ◌∙◌, ap, ◌⊎◌, inl, inr, arith, ℤ, pos, minus_one, Option, some,
  none, length, get_or, set, if◌then◌else◌, ◌==◌, add32, Bool-cases, ==_iff, length-set,
  get_or-set_self, get_or-set_ne, Outcome, done, read_in_range, write_in_range,
}
use waeio.Freelist.{Freelist, FreelistResult, live, freelist_next}
use waeio.Freelist.View.{free}
use waeio.Freelist.Next.{Found}
use waeio.Freelist.Bounds.{freelist_next_aligned}
use waeio.Wasio.{WasioResult, ok, efull, Pollfd}
use waeio.Wasio.Table.{Wfd, State, unused, deref, wrap_with, wasio_wrap}
use waeio.Wasio.Table.Invariant.{
  IsTable, set-Agrees, free_count, free_count_change, free_count-none, lookup, lookup-free,
}

-- The table after `e` has been bound to `fd`, where `list` is the freelist without `e`.
abbrev pub bound : Wfd → Freelist → ℕ → ℤ → Wfd
bound wfd list e fd = record wfd {
  length = wfd.length + 1;
  fl = live list;
  vfds = set wfd.vfds e (record (get_or wfd.vfds e unused) { fd = fd });
  fds = set wfd.fds e fd;
}

module _ {wfd : Wfd} (t : IsTable wfd) (result : Option (FreelistResult × Freelist × ℕ))
    (x : Found t.list result) (below : x.taken < wfd.capacity) where
  count_after : free_count wfd.capacity x.rest + 1 ≡ free_count wfd.capacity t.list
  count_after =
      omega (
        arith,
        free_count_change wfd.capacity x.taken 0 t.list x.rest x.removed below,
        x.eligible.2,
      )

  pub length-lt-capacity : wfd.length < wfd.capacity
  length-lt-capacity = omega (arith, count_after, t.counted)

  -- An entry that is still free was free before, and is another.
  still_free : (j : ℕ) → free x.rest j ≡ 1 → (x.taken ≢ j) × (free t.list j ≡ 1)
  still_free j one = ground (arith, x.removed j)

  pub bound-IsTable : (fd : ℤ) → IsTable (bound wfd x.rest x.taken fd)
  bound-IsTable fd = record {
    list = x.rest;
    list_is = refl;
    invariant = x.invariant;
    size_eq = x.same_size ∙ t.size_eq;
    aligned = t.aligned;
    vfds_room = length-set wfd.vfds x.taken _ ∙ t.vfds_room;
    fds_room = length-set wfd.fds x.taken fd ∙ t.fds_room;
    unused_fd = λ j h one.
        let w = still_free j one in
        get_or-set_ne wfd.fds x.taken j fd minus_one w.0 ∙ t.unused_fd j h w.1;
    agrees =
        set-Agrees wfd x.taken _ fd (omega (arith, below, t.vfds_room))
          (omega (arith, below, t.fds_room)) refl t.agrees;
    counted = omega (arith, count_after, t.counted);
  }

  pub lookup-bound :
      (fd : ℤ) (j : ℕ)
      → lookup x.rest (set wfd.fds x.taken fd) j
        ≡ (if x.taken == j then some fd else lookup t.list wfd.fds j)
  unfolding lookup
  lookup-bound fd j = elim (Bool-cases (x.taken == j)) [
    | inl same ↦
        let q : x.taken ≡ j = (==_iff _ _).0 same in
        let inside : x.taken < length wfd.fds = omega (arith, below, t.fds_room) in
        ground (
          arith,
          x.removed j,
          ap (λ k. get_or (set wfd.fds x.taken fd) k minus_one) (sym q)
              ∙ get_or-set_self wfd.fds x.taken fd minus_one inside,
        )
    | inr other ↦
        let ne : (x.taken ≢ j) = ground arith in
        ground (arith, x.removed j, get_or-set_ne wfd.fds x.taken j fd minus_one ne)
  ]

-- A call that binds a fresh virtual descriptor: in the map from virtual descriptors to the host's
-- it alone gains an image, and only the table changes.
pub record Wrapped {W : Type 0} (s : State W) (t : IsTable s.wfd) (fd : ℤ)
    (result : Outcome (WasioResult × ℤ × State W)) : Type 0 where
  pub entry : ℕ
  pub wfd : Wfd
  pub returns : result ≡ done (ok, pos entry, record s { wfd = wfd })
  pub below : entry < s.wfd.capacity
  pub fresh : lookup t.list s.wfd.fds entry ≡ none
  pub least : (j : ℕ) → j < entry → free t.list j ≢ 1
  pub table : IsTable wfd
  pub binds :
      (j : ℕ)
      → lookup table.list wfd.fds j ≡ (if entry == j then some fd else lookup t.list s.wfd.fds j)
  pub polled : (get_or wfd.vfds entry unused).fd ≡ fd
  pub longer : wfd.length ≡ s.wfd.length + 1
  pub same_capacity : wfd.capacity ≡ s.wfd.capacity

module _ {W : Type 0} (s : State W) (t : IsTable s.wfd) (fd out : ℤ) where
  wrap_with-ok :
      (x : Found t.list (freelist_next t.list 0))
      → x.taken < s.wfd.capacity
      → wrap_with s fd out (FreelistResult.ok, x.rest, x.taken)
        ≡ done (ok, pos x.taken, record s { wfd = bound s.wfd x.rest x.taken fd })
  unfolding wrap_with
  wrap_with-ok x below =
      let short = length-lt-capacity t (freelist_next t.list 0) x below in
      let next : add32 s.wfd.length 1 ≡ s.wfd.length + 1 =
        omega (arith, short, t.size_eq, t.invariant.fits) in
      let inside : x.taken < length s.wfd.fds = omega (arith, below, t.fds_room) in
      let inside' : x.taken < length s.wfd.vfds = omega (arith, below, t.vfds_room) in
      rw (
        read_in_range s.wfd.vfds x.taken unused inside',
        write_in_range s.wfd.vfds x.taken _ inside',
        write_in_range s.wfd.fds x.taken fd inside,
        next,
      )

  wasio_wrap-eq :
      (taken : FreelistResult × Freelist × ℕ)
      → freelist_next t.list 0 ≡ some taken
      → wasio_wrap s fd out ≡ wrap_with s fd out taken
  unfolding wasio_wrap
  wasio_wrap-eq taken e = rw (t.list_is, deref, e)

  same_wfd : record (s.wfd) { fl = live t.list } ≡ s.wfd
  same_wfd = λ i. record (s.wfd) { fl = sym t.list_is i }

  full_count : ((j : ℕ) → j < s.wfd.capacity → free t.list j ≢ 1) → s.wfd.length ≡ s.wfd.capacity
  full_count h = omega (arith, t.counted, free_count-none s.wfd.capacity t.list h)

  found-Wrapped :
      (x : Found t.list (freelist_next t.list 0))
      → x.taken < s.wfd.capacity
      → ((j : ℕ) → j < x.taken → free t.list j ≢ 1)
      → Wrapped s t fd (wasio_wrap s fd out)
  unfolding bound-IsTable
  found-Wrapped x below least = record {
    entry = x.taken;
    wfd = bound s.wfd x.rest x.taken fd;
    returns = wasio_wrap-eq _ x.returns ∙ wrap_with-ok x below;
    below = below;
    fresh = lookup-free t.list s.wfd.fds x.taken x.eligible.2;
    least = least;
    table = bound-IsTable t (freelist_next t.list 0) x below fd;
    binds = lookup-bound t (freelist_next t.list 0) x below fd;
    polled =
        ap (λ (p : Pollfd). p.fd)
          (get_or-set_self s.wfd.vfds x.taken _ unused (omega (arith, below, t.vfds_room)));
    longer = refl;
    same_capacity = refl;
  }

  -- On a table that satisfies the invariant `wasio_wrap` makes no access out of range. It binds the
  -- least free virtual descriptor to `fd`, keeps every other binding, and counts one more; or, when
  -- every descriptor is in use, it returns WASIO_EFULL and changes nothing.
  pub wasio_wrap_cases :
      Wrapped s t fd (wasio_wrap s fd out)
      ⊎ ((s.wfd.length ≡ s.wfd.capacity) × (wasio_wrap s fd out ≡ done (efull, out, s)))
  wasio_wrap_cases = elim (freelist_next_aligned t.list 0 t.invariant (rw t.size_eq t.aligned)) [
    | inl (x, small, least) ↦ inl (found-Wrapped x (omega (arith, small, t.size_eq)) least)
    | inr (x, none_free) ↦ inr (
      full_count (λ j h. none_free j (omega (arith, h, t.size_eq))),
      wasio_wrap-eq _ x.0 ∙ unfold wrap_with in rw same_wfd,
    )
  ]
