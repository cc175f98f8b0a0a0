-- ===== src/Wasio/Wasi.antt =====
-- src/wasio_wasi.c: the backend on the functions of the C library. Its structure has the members of
-- the one in Wasio/Table.antt. Descriptors lie in the range of an `int`, so the casts keep them.
pub mod Wrap
pub mod Accept
use waeio.Prelude.{
  ℕ, Bool, true, false, ℤ, pos, negsuc, minus_one, is_neg, eq_ℤ, to_nat, List, [], Option, add32,
  sub32, replicate, if◌then◌else◌, bit_or, Outcome, done, fault, ◌>>=◌, or_fault, read, write,
}
use waeio.Freelist.{
  FreelistResult, Freelist, FreelistPtr, live, freelist_new, freelist_delete, freelist_next,
  freelist_reclaim,
}
use waeio.Wasio.{WasioResult, ok, error, efull, Pollfd}
use waeio.Wasio.Table.{Wfd, deref, reclaimed}

-- The functions of the C library that the backend calls, and its masks.
pub record System (W : Type 0) : Type 0 where
  pub pollin : ℕ
  pub pollout : ℕ
  pub accept : W → ℤ → ℤ × W
  pub recv : W → ℤ → ℕ → ℤ × List ℕ × W
  pub send : W → ℤ → List ℕ → ℕ → ℤ × W
  pub close : W → ℤ → ℤ × W
  pub poll : W → List Pollfd → ℕ → ℤ → ℤ × List Pollfd × W

-- The structure and the state of the system.
pub record State (W : Type 0) : Type 0 where
  pub wfd : Wfd
  pub world : W

-- What `wasio_wrap` does with the outcome of `freelist_next`.
pub wrap_with : Wfd → ℤ → ℤ → FreelistResult × Freelist × ℕ → Outcome (WasioResult × ℤ × Wfd)
wrap_with wfd preopened_fd vfd (FreelistResult.ok, fl, entry) = do
  old ← read wfd.vfds (pos entry)
  vfds ← write wfd.vfds (pos entry) (record old { fd = minus_one })
  fds ← write wfd.fds (pos entry) preopened_fd
  done (
    ok,
    pos entry,
    record wfd { fl = live fl; vfds = vfds; fds = fds; length = add32 wfd.length 1 },
  )
wrap_with wfd preopened_fd vfd (_, fl, entry) = done (efull, vfd, record wfd { fl = live fl })

-- `vfd` is what the caller's variable holds.
unfoldable pub wasio_wrap : Wfd → ℤ → ℤ → Outcome (WasioResult × ℤ × Wfd)
unfolding wrap_with
wasio_wrap wfd preopened_fd vfd = do
  fl ← deref wfd.fl
  taken ← or_fault (freelist_next fl 0)
  wrap_with wfd preopened_fd vfd taken

-- `WASIO_OK` and the other results as numbers.
abbrev pub code : WasioResult → ℤ
code ok = pos 0
code error = pos 1
code efull = pos 2
code WasioResult.eagain = pos 3
code WasioResult.econn = pos 4

unfoldable pub wasio_finalize : Wfd → Outcome Wfd
wasio_finalize wfd = do
  fl ← or_fault (freelist_delete wfd.fl)
  done (record wfd { fl = fl; length = 0; vfds = []; fds = [] })

unfoldable pub wasio_mark_ready : Wfd → ℤ → Outcome (WasioResult × Wfd)
wasio_mark_ready wfd vfd = do
  fd ← read wfd.fds vfd
  old ← read wfd.vfds vfd
  vfds ← write wfd.vfds vfd (record old { fd = fd })
  done (ok, record wfd { vfds = vfds })

-- The assignments of `wasio_close` after the system has closed the descriptor.
pub release : Wfd → ℤ → Outcome (WasioResult × Wfd)
release wfd vfd = do
  old ← read wfd.vfds vfd
  vfds ← write wfd.vfds vfd (record old { fd = minus_one })
  fds ← write wfd.fds vfd minus_one
  fl ← deref wfd.fl
  back ← or_fault (freelist_reclaim fl (to_nat vfd))
  fl' ← reclaimed back
  done (ok, record wfd { vfds = vfds; fds = fds; length = sub32 wfd.length 1; fl = live fl' })

module _ {W : Type 0} (sys : System W) where
  -- The assignments of `wasio_init` to a structure whose blocks were given.
  pub initialised : ℕ → FreelistPtr → Wfd
  initialised capacity fl = record {
    capacity = capacity;
    length = 0;
    fl = fl;
    vfds =
        replicate capacity
          (record { fd = minus_one; events = bit_or sys.pollin sys.pollout; revents = 0 });
    fds = replicate capacity minus_one;
  }

  pub init_with : Wfd → ℕ → FreelistResult × FreelistPtr → Bool → Bool → Outcome (WasioResult × Wfd)
  init_with wfd capacity (FreelistResult.ok, fl) true true = done (ok, initialised capacity fl)
  init_with wfd capacity (FreelistResult.ok, fl) true false = fault
  init_with wfd capacity (FreelistResult.ok, fl) false fds_memory = fault
  init_with wfd capacity (_, fl) vfds_memory fds_memory = done (efull, record wfd { fl = fl })

  -- The Booleans are the outcomes of the three calls of `malloc`.
  unfoldable pub wasio_init : Wfd → ℕ → Bool → Bool → Bool → Outcome (WasioResult × Wfd)
  unfolding initialised init_with
  wasio_init wfd capacity fl_memory vfds_memory fds_memory =
      init_with wfd capacity (freelist_new capacity fl_memory wfd.fl) vfds_memory fds_memory

  -- The third part of the result is `*evlen`.
  unfoldable pub wasio_poll : State W → ℕ → ℤ → WasioResult × ℕ × State W
  wasio_poll s evlen timeout =
      let r = sys.poll s.world s.wfd.vfds s.wfd.capacity timeout in
      let s' : State W = record { wfd = record (s.wfd) { vfds = r.1 }; world = r.2 } in
      if is_neg r.0 then (error, evlen, s') else (ok, to_nat r.0, s')

  -- `wasio_accept` after `wasio_wrap`; `new_conn` is what `*new_conn_vfd` holds by then.
  unfoldable pub accept_with : State W → ℤ → ℤ → Outcome (WasioResult × ℤ × State W)
  accept_with s vfd new_conn = do
    fd ← read s.wfd.fds vfd
    let r = sys.accept s.world fd
    if is_neg r.0 then done (ok, new_conn, record s { world = r.1 }) else do
      old ← read s.wfd.vfds new_conn
      vfds ← write s.wfd.vfds new_conn (record old { fd = r.0 })
      done (ok, new_conn, record { wfd = record (s.wfd) { vfds = vfds }; world = r.1 })

  unfoldable pub wasio_accept : State W → ℤ → ℤ → Outcome (WasioResult × ℤ × State W)
  unfolding wasio_wrap accept_with
  wasio_accept s vfd new_conn = do
    wrapped ← wasio_wrap s.wfd minus_one new_conn
    let s' = record s { wfd = wrapped.2 }
    if is_neg (code wrapped.0) then done (error, wrapped.1, s') else accept_with s' vfd wrapped.1

  -- The parts of the result: the code, `*recvlen`, the bytes stored into the buffer, the state.
  unfoldable pub wasio_recv : State W → ℤ → ℕ → ℕ → Outcome (WasioResult × ℕ × List ℕ × State W)
  wasio_recv s vfd len recvlen = do
    fd ← read s.wfd.fds vfd
    let r = sys.recv s.world fd len
    let s' = record s { world = r.2 }
    if is_neg r.0 then done (error, recvlen, r.1, s') else done (ok, to_nat r.0, r.1, s')

  unfoldable pub wasio_send : State W → ℤ → List ℕ → ℕ → ℕ → Outcome (WasioResult × ℕ × State W)
  wasio_send s vfd buf len sendlen = do
    entry ← read s.wfd.vfds vfd
    let r = sys.send s.world entry.fd buf len
    let s' = record s { world = r.1 }
    if is_neg r.0 then done (error, sendlen, s') else done (ok, to_nat r.0, s')

  -- Result of `wasio_close`: nothing is unbound when the system refuses.
  pub close_with : State W → ℤ → Outcome (WasioResult × Wfd) → Outcome (WasioResult × State W)
  close_with s vfd r = r >>= λ p. done (p.0, record s { wfd = p.1 })

  unfoldable pub wasio_close : State W → ℤ → Outcome (WasioResult × State W)
  unfolding release close_with
  wasio_close s vfd = do
    entry ← read s.wfd.vfds vfd
    let r = sys.close s.world entry.fd
    let s' = record s { world = r.1 }
    if eq_ℤ r.0 (pos 0) then close_with s' vfd (release s'.wfd vfd) else done (error, s')
