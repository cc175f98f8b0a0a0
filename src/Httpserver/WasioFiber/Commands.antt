-- ===== src/Httpserver/WasioFiber/Commands.antt =====
-- examples/httpserver/httpserver_wasio_fiber.c: how the arrays change when a fiber has finished.
use waeio.Prelude.{
  suc, [], ◌∷◌, ℕ, ◌+◌, ◌-◌, ◌<◌, ◌≤◌, ◌≡◌, refl, ap, arith, true, false, ℤ, minus_one, eq_ℤ,
  is_neg, List, length, get_or, set, get_or-set_self, get_or-set_ne, sub32, u32_mod, done,
  read_in_range, write_in_range,
}
use waeio.Wasio.{Pollfd, Host}
use waeio.Wasio.Poll.{wasio_close, after}
use waeio.Waeio.{fiber_ok}
use waeio.Httpserver.{compress}
use waeio.Httpserver.Compress.{keys_from, open_keys, compress_keeps}
use waeio.Httpserver.WasioFiber.{
  FiberClosure, Server, Platform, update_entry, retire, handle_command, set_closed, lose_entry,
  with_wasio, entry_closed, entry_copy, zip_entries, entry_fds, entry_fibers,
}

abbrev pub none_here : Pollfd
none_here = record { fd = minus_one; events = 0; revents = 0 }

module _ {W M : Type 0} (host : Host W) (env : Platform W M) where
  -- When the fiber of an entry that is not the last in use has finished, and the host closes its
  -- descriptor, `handle_command` marks the entry and lowers the length at once, before the array is
  -- compressed: the entry that was the last one in use is unchanged and now stands at the index
  -- `wfd.length`, behind those in use.
  pub handle_command_loses_last :
      (i : ℕ) (clo : FiberClosure) (s : Server W M)
      → s.wasio.wfd.length ≤ length s.wasio.wfd.fds
      → s.wasio.wfd.length < u32_mod
      → i + 1 < s.wasio.wfd.length
      → is_neg (host.close s.wasio.world clo.fd).answer ≡ false
      → (last : Server W M) × (handle_command host env i clo fiber_ok s ≡ done (true, last))
        × (last.wasio.wfd.length + 1 ≡ s.wasio.wfd.length)
        × ((get_or last.wasio.wfd.fds i none_here).fd ≡ minus_one)
        × (get_or last.wasio.wfd.fds last.wasio.wfd.length none_here
            ≡ get_or s.wasio.wfd.fds (s.wasio.wfd.length - 1) none_here)
  unfolding handle_command retire update_entry wasio_close
  handle_command_loses_last i clo s room word below closes =
      let fds = s.wasio.wfd.fds in
      let n = s.wasio.wfd.length in
      let closed = after host env.pollin s.wasio (host.close s.wasio.world clo.fd) in
      let gone = set_closed (get_or fds i none_here) in
      let one_less : sub32 n 1 ≡ n - 1 = omega (arith, word, below) in
      let inside : i < length fds = omega (arith, room, below) in
      (
        lose_entry (
            with_wasio (record s { memory = env.fiber_free s.memory clo.fiber })
              (record closed { wfd = record (closed.wfd) { fds = set fds i gone } })),
        rw (closes, read_in_range fds i none_here inside, write_in_range fds i gone inside) refl,
        omega (arith, one_less, below),
        ap (λ (p : Pollfd). p.fd) (get_or-set_self fds i gone none_here inside),
        rw one_less (get_or-set_ne fds i (n - 1) gone none_here (omega (arith, below))),
      )

pub length-zip_entries :
    (ps : List Pollfd) (cs : List FiberClosure)
    → length ps ≡ length cs
    → length (zip_entries ps cs) ≡ length ps
unfolding zip_entries
length-zip_entries [] cs e = refl
length-zip_entries (p ∷ ps) [] e = absurd (omega (arith, e))
length-zip_entries (p ∷ ps) (c ∷ cs) e = ap suc (length-zip_entries ps cs (omega (arith, e)))

pub length-entry_fds : (xs : List (Pollfd × FiberClosure)) → length (entry_fds xs) ≡ length xs
unfolding entry_fds
length-entry_fds [] = refl
length-entry_fds (x ∷ xs) = ap suc (length-entry_fds xs)

pub length-entry_fibers : (xs : List (Pollfd × FiberClosure)) → length (entry_fibers xs) ≡ length xs
unfolding entry_fibers
length-entry_fibers [] = refl
length-entry_fibers (x ∷ xs) = ap suc (length-entry_fibers xs)

-- The descriptor of an entry with its fiber.
abbrev pub fd_and_fiber : Pollfd × FiberClosure → ℤ × FiberClosure
fd_and_fiber x = (x.0.fd, x.1)

-- Compressing the first `n` entries of the two arrays, which have at least `n`, makes no access out
-- of range: what remains in use are the open descriptors among them, each together with its fiber,
-- in the order of the array, and the new count is their number.
pub compress_pairs :
    (xs : List (Pollfd × FiberClosure)) (beyond : Pollfd × FiberClosure) (n : ℕ)
    → n ≤ length xs
    → (after : List (Pollfd × FiberClosure)) × (n' : ℕ) × (compress entry_closed entry_copy n 0 xs n
        ≡ done (after, n'))
      × (n'
          ≡ length (
              open_keys
                (λ (k : ℤ × FiberClosure). eq_ℤ k.0 minus_one)
                (keys_from fd_and_fiber
                  (λ k. eq_ℤ k.0 minus_one)
                  entry_copy
                  (λ here next. refl)
                  beyond
                  n
                  0
                  xs)))
      × (keys_from fd_and_fiber
            (λ k. eq_ℤ k.0 minus_one)
            entry_copy
            (λ here next. refl)
            beyond
            n'
            0
            after
          ≡ open_keys
              (λ (k : ℤ × FiberClosure). eq_ℤ k.0 minus_one)
              (keys_from fd_and_fiber
                (λ k. eq_ℤ k.0 minus_one)
                entry_copy
                (λ here next. refl)
                beyond
                n
                0
                xs))
compress_pairs xs beyond n h =
    let x =
      compress_keeps fd_and_fiber (λ (k : ℤ × FiberClosure). eq_ℤ k.0 minus_one) entry_copy
        (λ here next. refl) beyond xs n h in
    (x.0, x.1, x.2, x.4, x.5)
