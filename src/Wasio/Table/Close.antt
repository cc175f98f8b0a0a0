-- ===== src/Wasio/Table/Close.antt =====
-- src/wasio_host.c: `wasio_close` unbinds a virtual descriptor.
use waeio.Prelude.{
  ℕ, ◌+◌, ◌-◌, ◌<◌, ◌≡◌, ◌≢◌, refl, sym, ◌∙◌, ap, ◌⊎◌, inl, inr, arith, pos, minus_one, none,
  length, get_or, set, if◌then◌else◌, ◌==◌, sub32, eq_ℤ, Bool-cases, ==_iff, eq_ℤ→eq, length-set,
  get_or-set_self, get_or-set_ne, Outcome, done, read_in_range, write_in_range,
}
use waeio.Freelist.{Freelist, live, freelist_reclaim}
use waeio.Freelist.View.{free, free-le-one}
use waeio.Freelist.Reclaim.{Reclaimed, freelist_reclaim_cases}
use waeio.Wasio.{WasioResult, ok, Host, translate_error, Reply}
use waeio.Wasio.Table.{Wfd, State, unused, deref, release, reclaimed, wasio_close, after}
use waeio.Wasio.Table.Invariant.{
  IsTable, unused_vfd, set-Agrees, free_count, free_count_change, free_count-le, lookup,
}

-- The table after `e` has been unbound, where `list` is the freelist with `e`.
abbrev pub unbound : Wfd → Freelist → ℕ → Wfd
unbound wfd list e = record wfd {
  length = wfd.length - 1;
  fl = live list;
  vfds = set wfd.vfds e (record (get_or wfd.vfds e unused) { fd = minus_one; revents = 0 });
  fds = set wfd.fds e minus_one;
}

module _ {wfd : Wfd} (t : IsTable wfd) (e : ℕ) (below : e < wfd.capacity)
    (in_use : free t.list e ≡ 0) (x : Reclaimed t.list e (freelist_reclaim t.list e)) where
  count_after : free_count wfd.capacity x.rest ≡ free_count wfd.capacity t.list + 1
  count_after =
      omega (arith, free_count_change wfd.capacity e 1 t.list x.rest x.added below, in_use)

  pub length-pos : 0 < wfd.length
  length-pos = omega (arith, count_after, t.counted, free_count-le wfd.capacity x.rest)

  freed_before : (j : ℕ) → e ≢ j → free x.rest j ≡ 1 → free t.list j ≡ 1
  freed_before j ne one = ground (arith, x.added j)

  pub unbound-IsTable : IsTable (unbound wfd x.rest e)
  unbound-IsTable = record {
    list = x.rest;
    list_is = refl;
    invariant = x.invariant;
    size_eq = x.same_size ∙ t.size_eq;
    aligned = t.aligned;
    vfds_room = length-set wfd.vfds e _ ∙ t.vfds_room;
    fds_room = length-set wfd.fds e minus_one ∙ t.fds_room;
    unused_fd = λ j h one. elim (Bool-cases (e == j)) [
      | inl same ↦
          let q : e ≡ j = (==_iff _ _).0 same in
          rw (← q)
            (get_or-set_self wfd.fds e minus_one minus_one (omega (arith, below, t.fds_room)))
      | inr other ↦
          let ne : (e ≢ j) = ground arith in
          get_or-set_ne wfd.fds e j minus_one minus_one ne ∙ t.unused_fd j h (freed_before j ne one)
    ];
    agrees =
        set-Agrees wfd e _ minus_one (omega (arith, below, t.vfds_room))
          (omega (arith, below, t.fds_room)) refl t.agrees;
    counted = omega (arith, count_after, t.counted, length-pos);
  }

  pub lookup-unbound :
      (j : ℕ)
      → lookup x.rest (set wfd.fds e minus_one) j
        ≡ (if e == j then none else lookup t.list wfd.fds j)
  unfolding lookup
  lookup-unbound j = elim (Bool-cases (e == j)) [
    | inl same ↦ ground (arith, x.added j)
    | inr other ↦
        let ne : (e ≢ j) = ground arith in
        ground (arith, x.added j, get_or-set_ne wfd.fds e j minus_one minus_one ne)
  ]

-- A close that unbinds `e`: the map loses the image of `e` alone.
pub record Closed {W : Type 0} {old : Wfd} (t : IsTable old) (s' : State W) (e : ℕ)
    (result : Outcome (WasioResult × State W)) : Type 0 where
  pub wfd : Wfd
  pub held : free t.list e ≡ 0
  pub returns : result ≡ done (ok, record s' { wfd = wfd })
  pub table : IsTable wfd
  pub unbinds :
      (j : ℕ) → lookup table.list wfd.fds j ≡ (if e == j then none else lookup t.list old.fds j)
  pub shorter : wfd.length + 1 ≡ old.length
  pub same_capacity : wfd.capacity ≡ old.capacity

module _ {W : Type 0} (s : State W) (t : IsTable s.wfd) (e : ℕ) (below : e < s.wfd.capacity) where
  release-eq :
      (in_use : free t.list e ≡ 0)
      → (x : Reclaimed t.list e (freelist_reclaim t.list e))
      → release s (pos e) ≡ done (ok, record s { wfd = unbound s.wfd x.rest e })
  unfolding release
  release-eq in_use x =
      let held = length-pos t e below in_use x in
      let previous : sub32 s.wfd.length 1 ≡ s.wfd.length - 1 =
        omega (arith, held, t.counted, t.size_eq, t.invariant.fits) in
      let inside : e < length s.wfd.fds = omega (arith, below, t.fds_room) in
      let inside' : e < length s.wfd.vfds = omega (arith, below, t.vfds_room) in
      rw (
        read_in_range s.wfd.vfds e unused inside',
        write_in_range s.wfd.vfds e _ inside',
        write_in_range s.wfd.fds e minus_one inside,
        t.list_is,
        deref,
        x.returns,
        reclaimed,
        previous,
      )

  pub release-Closed : free t.list e ≡ 0 → Closed t s e (release s (pos e))
  unfolding unbound-IsTable
  release-Closed in_use = elim (freelist_reclaim_cases t.list e t.invariant) [
    | inl out ↦ absurd (omega (arith, out.0, below, t.size_eq))
    | inr (_, x) ↦ record {
      wfd = unbound s.wfd x.rest e;
      held = in_use;
      returns = release-eq in_use x;
      table = unbound-IsTable t e below in_use x;
      unbinds = lookup-unbound t e below in_use x;
      shorter = omega (arith, length-pos t e below in_use x);
      same_capacity = refl;
    }
  ]

-- What close(2) documents: there is no descriptor -1 to close.
pub record ClosesOpen {W : Type 0} (host : Host W) : Type 0 where
  pub refuses : (w : W) → (host.close w minus_one).answer ≢ pos 0

module _ {W : Type 0} (host : Host W) (law : ClosesOpen host) (s : State W) (t : IsTable s.wfd)
    (e : ℕ) (below : e < s.wfd.capacity) where
  abbrev reply : Reply W
  reply = host.close s.world (get_or s.wfd.vfds e unused).fd

  wasio_close-eq : wasio_close host s (pos e) ≡ (
      if eq_ℤ reply.answer (pos 0)
      then release (after host s reply) (pos e)
      else done (translate_error host (after host s reply).host_errno, after host s reply))
  unfolding wasio_close
  wasio_close-eq = rw (read_in_range s.wfd.vfds e unused (omega (arith, below, t.vfds_room)))

  in_use_of_closed : reply.answer ≡ pos 0 → free t.list e ≡ 0
  in_use_of_closed closed = elim (Bool-cases (free t.list e == 1)) [
    | inl yes_free ↦
        let one : free t.list e ≡ 1 = (==_iff _ _).0 yes_free in
        absurd (
          law.refuses s.world
            (sym (ap (λ fd. (host.close s.world fd).answer) (unused_vfd t e below one)) ∙ closed))
    | inr not_free ↦ ground (arith, free-le-one t.list e)
  ]

  -- For a virtual descriptor of the table, and a host that has no descriptor -1, `wasio_close`
  -- makes no access out of range and its assertion holds. If the host refuses, the error is passed
  -- on and the table stays; otherwise the descriptor was bound, it alone is unbound, and the count
  -- of descriptors falls by one.
  pub wasio_close_cases :
      ((reply.answer ≢ pos 0)
        × (wasio_close host s (pos e)
            ≡ done (translate_error host (after host s reply).host_errno, after host s reply)))
      ⊎ ((reply.answer ≡ pos 0) × Closed t (after host s reply) e (wasio_close host s (pos e)))
  wasio_close_cases = elim (Bool-cases (eq_ℤ reply.answer (pos 0))) [
    | inl closed ↦
        let zero_answer : reply.answer ≡ pos 0 = eq_ℤ→eq reply.answer (pos 0) closed in
        inr (
          zero_answer,
          rw (wasio_close-eq, closed)
              (release-Closed (after host s reply) t e below (in_use_of_closed zero_answer)),
        )
    | inr refused ↦
        inl (λ q. cc (refused, ap (λ a. eq_ℤ a (pos 0)) q), rw (wasio_close-eq, refused))
  ]
