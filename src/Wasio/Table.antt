-- ===== src/Wasio/Table.antt =====
-- src/wasio_host.c: the backend with virtual descriptors, allocated by a freelist and translated by
-- two arrays, on top of the functions that the host exports. A `short` is a number, for masks below
-- 2 ^ 15, and a virtual descriptor is never so large that its cast to a signed type changes it.
pub mod Invariant
pub mod Wrap
pub mod Close
pub mod Accept
pub mod Notify
pub mod Calls
pub mod Spec
pub mod Polling
pub mod View
pub mod Moves
pub mod Runs
pub mod Results
use Prim.Native.String.{String}
use waeio.Prelude.{
  ℕ, ◌+◌, Bool, true, false, ℤ, pos, negsuc, minus_one, is_neg, eq_ℤ, to_nat, List, [], ◌∷◌, Option,
  some, none, ltb, add32, sub32, replicate, if◌then◌else◌, bit_or, Outcome, done, fault, aborted,
  ◌>>=◌, ◌>>◌, assert, or_fault, read, write,
}
use waeio.Freelist.{
  Freelist, FreelistResult, FreelistPtr, null, freed, live, freelist_new, freelist_delete,
  freelist_next, freelist_reclaim,
}
use waeio.Wasio.{
  WasioResult, ok, error, efull, Pollfd, Reply, PollReply, RecvReply, Host, errno_after,
  translate_error,
}

-- The structure that the functions take, with the members that src/wasio_host.c uses: the freelist,
-- and for each virtual descriptor the entry that is polled and the host's descriptor. The
-- `struct wasio_pollfd` of inc/wasio.h declares other members, a capacity, a length and `fds` alone.
pub record Wfd : Type 0 where
  pub capacity : ℕ
  pub length : ℕ
  pub fl : FreelistPtr
  pub vfds : List Pollfd
  pub fds : List ℤ

-- The structure, the globals `host_errno`, `pollin` and `pollout`, and the state of the host.
pub record State (W : Type 0) : Type 0 where
  pub wfd : Wfd
  pub host_errno : ℤ
  pub pollin : ℕ
  pub pollout : ℕ
  pub world : W

-- What an instance of the module `host_poll` exports under a name.
abbrev pub Exports : Type 0
Exports = String → ℕ

-- The names under which `host_pollin` and `host_pollout` are imported.
abbrev pub host_pollin_import : String
host_pollin_import = "pollin"

abbrev pub host_pollout_import : String
host_pollout_import = "pollin"

-- The entry for an unused descriptor.
abbrev pub unused : Pollfd
unused = record { fd = minus_one; events = 0; revents = 0 }

-- The list that the structure's pointer leads to.
abbrev pub deref : FreelistPtr → Outcome Freelist
deref null = fault
deref freed = fault
deref (live fl) = done fl

module _ {W : Type 0} (exports : Exports) (s : State W) (capacity : ℕ) where
  -- The assignments of `wasio_init` to a structure whose blocks were given.
  pub initialised : FreelistPtr → State W
  initialised fl = record s {
    wfd = record {
      capacity = capacity;
      length = 0;
      fl = fl;
      vfds = replicate capacity unused;
      fds = replicate capacity minus_one;
    };
    pollin = exports host_pollin_import;
    pollout = exports host_pollout_import;
  }

  pub init_with : FreelistResult × FreelistPtr → Bool → Bool → Outcome (WasioResult × State W)
  init_with (FreelistResult.ok, fl) true true = done (ok, initialised fl)
  init_with (FreelistResult.ok, fl) true false = fault
  init_with (FreelistResult.ok, fl) false fds_memory = fault
  init_with (_, fl) vfds_memory fds_memory =
      done (efull, record s { wfd = record (s.wfd) { fl = fl } })

  -- The Booleans are the outcomes of the three calls of `malloc`; the code does not test the last
  -- two, and writes through the pointers.
  unfoldable pub wasio_init : Bool → Bool → Bool → Outcome (WasioResult × State W)
  unfolding initialised init_with
  wasio_init fl_memory vfds_memory fds_memory =
      init_with (freelist_new capacity fl_memory s.wfd.fl) vfds_memory fds_memory

-- The three blocks are freed.
unfoldable pub wasio_finalize : Wfd → Outcome Wfd
wasio_finalize wfd = do
  fl ← or_fault (freelist_delete wfd.fl)
  done (record wfd { fl = fl; length = 0; vfds = []; fds = [] })

-- `assert(freelist_reclaim(...) == FREELIST_OK)`
pub reclaimed : FreelistResult × Freelist → Outcome Freelist
reclaimed (FreelistResult.ok, fl) = done fl
reclaimed (_, fl) = aborted

module _ {W : Type 0} where
  -- What `wasio_wrap` does with the outcome of `freelist_next`; `vfd` is what the caller's variable
  -- holds.
  pub wrap_with :
      State W → ℤ → ℤ → FreelistResult × Freelist × ℕ → Outcome (WasioResult × ℤ × State W)
  wrap_with s preopened_fd vfd (FreelistResult.ok, fl, entry) = do
    old ← read s.wfd.vfds (pos entry)
    vfds ← write s.wfd.vfds (pos entry) (record old { fd = preopened_fd })
    fds ← write s.wfd.fds (pos entry) preopened_fd
    done (
      ok,
      pos entry,
      record s {
        wfd = record (s.wfd) {
          fl = live fl;
          vfds = vfds;
          fds = fds;
          length = add32 s.wfd.length 1;
        };
      },
    )
  wrap_with s preopened_fd vfd (_, fl, entry) =
      done (efull, vfd, record s { wfd = record (s.wfd) { fl = live fl } })

  unfoldable pub wasio_wrap : State W → ℤ → ℤ → Outcome (WasioResult × ℤ × State W)
  unfolding wrap_with
  wasio_wrap s preopened_fd vfd = do
    fl ← deref s.wfd.fl
    taken ← or_fault (freelist_next fl 0)
    wrap_with s preopened_fd vfd taken

  -- `wfd->vfds[vfd].fd = (int)wfd->fds[vfd]; wfd->vfds[vfd].events |= mask`
  unfoldable pub notify : State W → ℤ → ℕ → Outcome (WasioResult × State W)
  notify s vfd mask = do
    fd ← read s.wfd.fds vfd
    old ← read s.wfd.vfds vfd
    vfds ← write s.wfd.vfds vfd (record old { fd = fd; events = bit_or old.events mask })
    done (ok, record s { wfd = record (s.wfd) { vfds = vfds } })

  unfoldable pub wasio_notify_recv : State W → ℤ → Outcome (WasioResult × State W)
  unfolding notify
  wasio_notify_recv s vfd = notify s vfd s.pollin

  unfoldable pub wasio_notify_send : State W → ℤ → Outcome (WasioResult × State W)
  unfolding notify
  wasio_notify_send s vfd = notify s vfd s.pollout

  -- The assignments of `wasio_close` after the host has closed the descriptor.
  unfoldable pub release : State W → ℤ → Outcome (WasioResult × State W)
  unfolding reclaimed
  release s vfd = do
    old ← read s.wfd.vfds vfd
    vfds ← write s.wfd.vfds vfd (record old { fd = minus_one; revents = 0 })
    fds ← write s.wfd.fds vfd minus_one
    fl ← deref s.wfd.fl
    back ← or_fault (freelist_reclaim fl (to_nat vfd))
    fl' ← reclaimed back
    done (
      ok,
      record s {
        wfd = record (s.wfd) {
          fl = live fl';
          vfds = vfds;
          fds = fds;
          length = sub32 s.wfd.length 1;
        };
      },
    )

module _ {W : Type 0} (host : Host W) where
  -- The state after an imported function has returned.
  abbrev pub after : State W → Reply W → State W
  after s r = record s { host_errno = errno_after s.host_errno r.errno; world = r.world }

  unfoldable pub wasio_listen : State W → ℤ → ℤ → ℤ → Outcome (WasioResult × ℤ × State W)
  unfolding wasio_wrap
  wasio_listen s vfd port backlog =
      let r = host.listen s.world port backlog in
      let s' = after s r in
      if is_neg r.answer
      then done (translate_error host s'.host_errno, vfd, s')
      else wasio_wrap s' r.answer vfd

  -- The assignments of `wasio_accept` after `wasio_wrap`.
  pub accept_with : ℤ → WasioResult × ℤ × State W → Outcome (WasioResult × ℤ × State W)
  accept_with ans (ok, new_conn, s) = do
    fds ← write s.wfd.fds new_conn ans
    old ← read s.wfd.vfds new_conn
    vfds ← write s.wfd.vfds new_conn (record old { fd = ans })
    done (ok, new_conn, record s { wfd = record (s.wfd) { fds = fds; vfds = vfds } })
  accept_with ans (res, new_conn, s) = done (res, new_conn, s)

  unfoldable pub wasio_accept : State W → ℤ → ℤ → Outcome (WasioResult × ℤ × State W)
  unfolding wasio_wrap accept_with
  wasio_accept s vfd new_conn = do
    fd ← read s.wfd.fds vfd
    let r = host.accept s.world fd
    let s' = after s r
    if is_neg r.answer
        then done (translate_error host s'.host_errno, new_conn, s')
        else wasio_wrap s' r.answer new_conn >>= accept_with r.answer

  -- The third part of the result is `*evlen`.
  unfoldable pub wasio_poll : State W → ℕ → ℤ → WasioResult × ℕ × State W
  wasio_poll s evlen timeout =
      let r = host.poll s.world s.wfd.vfds s.wfd.capacity timeout in
      let s' = after (record s { wfd = record (s.wfd) { vfds = r.fds } }) r.reply in
      if is_neg r.reply.answer
      then (translate_error host s'.host_errno, evlen, s')
      else (ok, to_nat r.reply.answer, s')

  -- The parts of the result: the code, `*recvlen`, the bytes stored into the buffer, the state.
  unfoldable pub wasio_recv : State W → ℤ → ℕ → ℕ → Outcome (WasioResult × ℕ × List ℕ × State W)
  wasio_recv s vfd len recvlen = do
    fd ← read s.wfd.fds vfd
    let r = host.recv s.world fd len
    let s' = after s r.reply
    if is_neg r.reply.answer
        then done (translate_error host s'.host_errno, recvlen, r.bytes, s')
        else done (ok, to_nat r.reply.answer, r.bytes, s')

  unfoldable pub wasio_send : State W → ℤ → List ℕ → ℕ → ℕ → Outcome (WasioResult × ℕ × State W)
  wasio_send s vfd buf len sendlen = do
    fd ← read s.wfd.fds vfd
    let r = host.send s.world fd buf len
    let s' = after s r
    if is_neg r.answer
        then done (translate_error host s'.host_errno, sendlen, s')
        else done (ok, to_nat r.answer, s')

  unfoldable pub wasio_close : State W → ℤ → Outcome (WasioResult × State W)
  unfolding release
  wasio_close s vfd = do
    entry ← read s.wfd.vfds vfd
    let r = host.close s.world entry.fd
    let s' = after s r
    if eq_ℤ r.answer (pos 0) then release s' vfd else done (translate_error host s'.host_errno, s')
