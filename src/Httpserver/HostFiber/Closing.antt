-- ===== src/Httpserver/HostFiber/Closing.antt =====
-- examples/httpserver/httpserver_fiber.c: the last loop of `main`, and the flag that compresses the arrays.
use waeio.Prelude.{
  ℕ, zero, suc, ◌+◌, ◌*◌, ◌/◌, ◌%◌, Bool-cases, ◌<◌, ◌≤◌, ◌≡◌, ◌≢◌, ◌⊎◌, refl, sym, ap, ◌∙◌, subst,
  arith, inl, inr, true, false, minus_one, eq_ℤ, eq_ℤ-ne, ltb, lt→ltb, List, length, get_or, set,
  sub32, u32_mod, done, some, read_in_range, write_in_range, get_or-set_self, length-set, bit_and,
  ◌==◌,
}
use waeio.Wasio.{Pollfd, Host}
use waeio.Waeio.{fiber_yield}
use waeio.Httpserver.WasioFiber.{FiberClosure, fiber_kill_signal}
use waeio.Httpserver.HostFiber.{
  Server, Platform, heard, close_entry, close_all, resume_entry, visit, handle_command,
  update_entry,
}
use waeio.Httpserver.HostFiber.Bounds.{none_here, no_fiber, Fits}

-- A fiber that is told to stop leaves the arrays alone.
pub record StopsQuietly {W M : Type 0} (env : Platform W M) : Type 0 where
  pub same_fds :
      (s : Server W M) (fiber : ℕ) → (env.fiber_resume s fiber fiber_kill_signal).1.fds ≡ s.fds
  pub same_fibers :
      (s : Server W M) (fiber : ℕ)
      → (env.fiber_resume s fiber fiber_kill_signal).1.fibers ≡ s.fibers
  pub same_nfds :
      (s : Server W M) (fiber : ℕ) → (env.fiber_resume s fiber fiber_kill_signal).1.nfds ≡ s.nfds

half_of : (n : ℕ) → (0 + 2 * ((n + 1) / 2) ≡ n) ⊎ (0 + 2 * ((n + 1) / 2) ≡ n + 1)
half_of n = elim (Bool-cases (n % 2 == 0)) [
  | inl q ↦ inl (ground arith)
  | inr q ↦ inr (ground arith)
]

module _ {W M : Type 0} (host : Host W) (env : Platform W M) where
  -- The fiber of entry `i` has been told to stop, and the entry's descriptor been closed.
  abbrev pub stopped_at : ℕ → Server W M → Server W M
  stopped_at i s =
      let r = env.fiber_resume s (get_or s.fibers i no_fiber).fiber fiber_kill_signal in
      record (heard r.1 (host.close r.1.world (get_or r.1.fds i none_here).fd)) {
        nfds = sub32 r.1.nfds 1;
      }

  -- The same for `count` entries from `i` on.
  unfoldable pub stop_each : ℕ → ℕ → Server W M → Server W M
  stop_each zero i s = s
  stop_each (suc count) i s = stop_each count (i + 1) (stopped_at i s)

  -- Entries from `i` to `nfds` that are all open.
  record AllOpen (i : ℕ) (s : Server W M) : Type 0 where
    fits : Fits host env s
    is_open : (j : ℕ) → j < s.nfds → (get_or s.fds j none_here).fd ≢ minus_one

  close_entry_lem :
      (i : ℕ) (s : Server W M)
      → StopsQuietly env
      → AllOpen i s
      → i < s.nfds
      → close_entry host env i s ≡ done (stopped_at i s)
  unfolding close_entry
  close_entry_lem i s law a below =
      let r = env.fiber_resume s (get_or s.fibers i no_fiber).fiber fiber_kill_signal in
      let live : eq_ℤ (get_or s.fds i none_here).fd minus_one ≡ false =
        eq_ℤ-ne _ _ (a.is_open i below) in
      let same : length r.1.fds ≡ length s.fds = ap length (law.same_fds s _) in
      rw
        (
          read_in_range s.fds i none_here (omega (arith, below, a.fits.within, a.fits.fds_room)),
          read_in_range s.fibers i no_fiber
              (omega (arith, below, a.fits.within, a.fits.fibers_room)),
          read_in_range r.1.fds i none_here
              (omega (arith, below, a.fits.within, a.fits.fds_room, same)),
          live,
        )
        refl

  AllOpen-next :
      (i : ℕ) (s : Server W M)
      → StopsQuietly env
      → env.max_connections < u32_mod
      → AllOpen i s
      → i < s.nfds
      → AllOpen (i + 1) (stopped_at i s) × ((stopped_at i s).nfds + 1 ≡ s.nfds)
  AllOpen-next i s law word a below =
      let fiber = (get_or s.fibers i no_fiber).fiber in
      let fewer : (stopped_at i s).nfds + 1 ≡ s.nfds =
        omega (arith, law.same_nfds s fiber, below, a.fits.within, word) in
      (
        record {
          fits = record {
            fds_room = ap length (law.same_fds s fiber) ∙ a.fits.fds_room;
            fibers_room = ap length (law.same_fibers s fiber) ∙ a.fits.fibers_room;
            within = omega (arith, fewer, a.fits.within);
          };
          is_open = λ j lt.
              subst (λ (l : List Pollfd). (get_or l j none_here).fd ≢ minus_one)
                (sym (law.same_fds s fiber)) (a.is_open j (omega (arith, lt, fewer)));
        },
        fewer,
      )

  none_left : (i n : ℕ) → (i + 2 * 0 ≡ n) ⊎ (i + 2 * 0 ≡ n + 1) → ltb i n ≡ false
  none_left i n (inl q) = ground arith
  none_left i n (inr q) = ground arith

  close_all_from :
      (count fuel i : ℕ) (s : Server W M)
      → StopsQuietly env
      → env.max_connections < u32_mod
      → AllOpen i s
      → count ≤ fuel
      → (i + 2 * count ≡ s.nfds) ⊎ (i + 2 * count ≡ s.nfds + 1)
      → (close_all host env fuel i s ≡ done (some (stop_each count i s)))
        × ((stop_each count i s).nfds + count ≡ s.nfds)
  unfolding close_all stop_each
  close_all_from zero zero i s law word a enough half =
      (rw (none_left i s.nfds half) refl, omega arith)
  close_all_from zero (suc fuel) i s law word a enough half =
      (rw (none_left i s.nfds half) refl, omega arith)
  close_all_from (suc count) zero i s law word a enough half = absurd (omega (arith, enough))
  close_all_from (suc count) (suc fuel) i s law word a enough half =
      let below : i < s.nfds = ground (arith) in
      let next = AllOpen-next i s law word a below in
      let ih =
        close_all_from count fuel (i + 1) (stopped_at i s) law word next.0 (omega (arith, enough))
          (elim half [
            | inl q ↦ inl (omega (arith, q, next.1))
            | inr q ↦ inr (omega (arith, q, next.1))
          ]) in
      (rw (lt→ltb _ _ below, close_entry_lem i s law a below) ih.0, omega (arith, ih.1, next.1))

  -- When every entry in use is open, and fibers that are told to stop leave the arrays alone, the
  -- last loop of `main` makes no access out of range, but since it raises `i` and lowers `nfds` in the
  -- same round it stops and closes only the first half of the entries, rounded up; the others, as
  -- many as half of the entries in use, rounded down, are still counted as open when it ends.
  pub close_all-half :
      (fuel : ℕ) (s : Server W M)
      → StopsQuietly env
      → env.max_connections < u32_mod
      → Fits host env s
      → ((j : ℕ) → j < s.nfds → (get_or s.fds j none_here).fd ≢ minus_one)
      → (s.nfds + 1) / 2 ≤ fuel
      → (close_all host env fuel 0 s ≡ done (some (stop_each ((s.nfds + 1) / 2) 0 s)))
        × ((stop_each ((s.nfds + 1) / 2) 0 s).nfds ≡ s.nfds / 2)
  close_all-half fuel s law word f open_all enough =
      let x =
        close_all_from ((s.nfds + 1) / 2) fuel 0 s law word
          (record { fits = f; is_open = open_all }) enough (half_of s.nfds) in
      (x.0, omega (arith, x.1))

  -- An entry whose fiber yielded, and that is marked closed.
  abbrev marked : ℕ → Server W M → Server W M
  marked i s =
      let waits = record (get_or s.fds i none_here) { events = env.pollin } in
      record s { fds = set (set s.fds i waits) i (record waits { fd = minus_one }) }

  -- Once an earlier entry of the round has set `compress_pollfd`, an entry that is readable and whose
  -- fiber yields, leaving the arrays alone, because it waits for more, is marked closed all the same: its
  -- descriptor, which nothing closes, is dropped from what is polled.
  pub visit_marks_live :
      (i : ℕ) (s s' : Server W M)
      → let clo = get_or s.fibers i no_fiber in
        i < length s.fds
        → i < length s.fibers
        → ((get_or s.fds i none_here).revents == 0) ≡ false
        → (bit_and (get_or s.fds i none_here).revents env.pollhup == 0) ≡ true
        → (bit_and (get_or s.fds i none_here).revents env.pollin == 0) ≡ false
        → env.fiber_resume s clo.fiber clo.fd ≡ (fiber_yield, s')
        → s'.fds ≡ s.fds
        → s'.fibers ≡ s.fibers
        → (after : Server W M) × (visit host env i true s ≡ done (true, true, after))
          × ((get_or after.fds i none_here).fd ≡ minus_one)
          × (after.world ≡ s'.world)
          × (after.nfds ≡ s'.nfds)
  unfolding visit resume_entry handle_command update_entry
  visit_marks_live i s s' inside inside' ready no_hup readable yields_there same_fds same_fibers =
      let waits = record (get_or s'.fds i none_here) { events = env.pollin } in
      let room : i < length s'.fds =
        subst (λ (l : List Pollfd). i < length l) (sym same_fds) inside in
      let room' : i < length (set s'.fds i waits) =
        omega (arith, room, length-set s'.fds i waits) in
      let fibers_room : i < length s'.fibers =
        subst (λ (l : List FiberClosure). i < length l) (sym same_fibers) inside' in
      (
        marked i s',
        rw
            (
              read_in_range s.fds i none_here inside,
              ready,
              no_hup,
              readable,
              read_in_range s.fibers i no_fiber inside',
              yields_there,
              read_in_range s'.fibers i no_fiber fibers_room,
              read_in_range s'.fds i none_here room,
              write_in_range s'.fds i waits room,
              read_in_range (set s'.fds i waits) i none_here room',
              get_or-set_self s'.fds i waits none_here room,
              write_in_range (set s'.fds i waits) i (record waits { fd = minus_one }) room',
            )
            refl,
        ap (λ (p : Pollfd). p.fd)
            (get_or-set_self (set s'.fds i waits) i (record waits { fd = minus_one }) none_here
              room'),
        refl,
        refl,
      )
