-- ===== src/Wasio/Table/Accept.antt =====
-- src/wasio_host.c: `wasio_listen` and `wasio_accept` bind the descriptor that the host returns.
use waeio.Prelude.{
  ℕ, ◌<◌, ◌≡◌, refl, sym, inl, inr, arith, ℤ, pos, negsuc, minus_one, is_neg, length, get_or, set,
  set_self, if◌then◌else◌, Outcome, done, ◌>>=◌, read_in_range, write_in_range,
}
use waeio.Wasio.{WasioResult, ok, efull, Host, Reply, translate_error}
use waeio.Wasio.Table.{State, unused, after, accept_with, wasio_wrap, wasio_listen, wasio_accept}
use waeio.Wasio.Table.Invariant.{IsTable, lookup}
use waeio.Wasio.Table.Wrap.{Wrapped, wasio_wrap_cases}

-- The outcomes of a call that asks the host for a descriptor and binds it; `r` is the host's reply
-- and `out` is what the caller's variable holds.
pub data Opened {W : Type 0} (host : Host W) (s : State W) (t : IsTable s.wfd) (r : Reply W)
    (out : ℤ) (result : Outcome (WasioResult × ℤ × State W)) : Type 0 where
  refused :
      (n : ℕ)
      → r.answer ≡ negsuc n
      → result ≡ done (translate_error host (after host s r).host_errno, out, after host s r)
      → Opened host s t r out result
  no_room :
      (fd : ℕ)
      → r.answer ≡ pos fd
      → s.wfd.length ≡ s.wfd.capacity
      → result ≡ done (efull, out, after host s r)
      → Opened host s t r out result
  opened :
      (fd : ℕ)
      → r.answer ≡ pos fd
      → Wrapped (after host s r) t (pos fd) result
      → Opened host s t r out result

module _ {W : Type 0} (host : Host W) (s : State W) (t : IsTable s.wfd) where
  listen_cases :
      (r : Reply W) (answer out : ℤ)
      → r.answer ≡ answer
      → Opened host s t r out (
          if is_neg answer
          then done (translate_error host (after host s r).host_errno, out, after host s r)
          else wasio_wrap (after host s r) answer out)
  listen_cases r (negsuc n) out e = refused n e refl
  listen_cases r (pos fd) out e = elim (wasio_wrap_cases (after host s r) t (pos fd) out) [
    | inl w ↦ opened fd e w
    | inr (full, q) ↦ no_room fd e full q
  ]

  -- On a table that satisfies the invariant `wasio_listen` makes no access out of range. It passes
  -- an error of the host on, with the table as it was; or reports WASIO_EFULL when every virtual
  -- descriptor is in use; or binds the least free one to the new socket.
  pub wasio_listen-Opened :
      (vfd port backlog : ℤ)
      → Opened host s t
          (host.listen s.world port backlog)
          vfd
          (wasio_listen host s vfd port backlog)
  unfolding wasio_listen
  wasio_listen-Opened vfd port backlog = listen_cases (host.listen s.world port backlog) _ vfd refl

  -- The two writes that `wasio_accept` adds to those of `wasio_wrap` store what is there.
  accept_with-Wrapped :
      (s' : State W) (t' : IsTable s'.wfd) (fd : ℤ) {result : Outcome (WasioResult × ℤ × State W)}
      → Wrapped s' t' fd result
      → Wrapped s' t' fd (result >>= accept_with host fd)
  accept_with-Wrapped s' t' fd {result} w = record {
    entry = w.entry;
    wfd = w.wfd;
    returns = again;
    below = w.below;
    fresh = w.fresh;
    least = w.least;
    table = w.table;
    binds = w.binds;
    polled = w.polled;
    longer = w.longer;
    same_capacity = w.same_capacity;
  }
    where
      inside : w.entry < length w.wfd.fds
      inside = omega (arith, w.below, w.table.fds_room, w.same_capacity)

      inside' : w.entry < length w.wfd.vfds
      inside' = omega (arith, w.below, w.table.vfds_room, w.same_capacity)

      translates : get_or w.wfd.fds w.entry minus_one ≡ fd
      translates = unfold lookup in ground (arith, w.binds w.entry)

      same_fds : set w.wfd.fds w.entry fd ≡ w.wfd.fds
      same_fds = set_self w.wfd.fds w.entry fd minus_one inside translates

      same_entry :
          record (get_or w.wfd.vfds w.entry unused) { fd = fd } ≡ get_or w.wfd.vfds w.entry unused
      same_entry = λ i. record (get_or w.wfd.vfds w.entry unused) { fd = sym (w.polled) i }

      same_vfds :
          set w.wfd.vfds w.entry (record (get_or w.wfd.vfds w.entry unused) { fd = fd })
          ≡ w.wfd.vfds
      same_vfds = set_self w.wfd.vfds w.entry _ unused inside' (sym same_entry)

      again : (result >>= accept_with host fd) ≡ done (ok, pos w.entry, record s' { wfd = w.wfd })
      again = rw w.returns (
          unfold accept_with in
          rw (
            write_in_range w.wfd.fds w.entry fd inside,
            read_in_range w.wfd.vfds w.entry unused inside',
            write_in_range w.wfd.vfds w.entry _ inside',
            same_fds,
            same_vfds,
          ))

  accept_cases :
      (r : Reply W) (answer out : ℤ)
      → r.answer ≡ answer
      → Opened host s t r out (
          if is_neg answer
          then done (translate_error host (after host s r).host_errno, out, after host s r)
          else (wasio_wrap (after host s r) answer out >>= accept_with host answer))
  accept_cases r (negsuc n) out e = refused n e refl
  accept_cases r (pos fd) out e = elim (wasio_wrap_cases (after host s r) t (pos fd) out) [
    | inl w ↦ opened fd e (accept_with-Wrapped (after host s r) t (pos fd) w)
    | inr (full, q) ↦ no_room fd e full (rw q (unfold accept_with in refl))
  ]

  -- On a table that satisfies the invariant `wasio_accept` for a virtual descriptor `e` of the table
  -- makes no access out of range. The host accepts on the descriptor that `e` translates to: its
  -- error is passed on, with the table as it was; or WASIO_EFULL is reported when every virtual
  -- descriptor is in use; or the least free one is bound to the new connection.
  pub wasio_accept-Opened :
      (e : ℕ) (new_conn : ℤ)
      → e < s.wfd.capacity
      → let r = host.accept s.world (get_or s.wfd.fds e minus_one) in
        Opened host s t r new_conn (wasio_accept host s (pos e) new_conn)
  unfolding wasio_accept
  wasio_accept-Opened e new_conn below =
      rw (read_in_range s.wfd.fds e minus_one (omega (arith, below, t.fds_room)))
        (accept_cases (host.accept s.world (get_or s.wfd.fds e minus_one)) _ new_conn refl)
