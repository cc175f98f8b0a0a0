-- ===== src/Wasio/Poll.antt =====
-- src/wasio/host_poll.c: the backend whose descriptors are the host's own, kept in one array of
-- poll entries.
pub mod Bounds
pub mod Runs
use waeio.Prelude.{
  ℕ, ◌+◌, Bool, true, false, ℤ, pos, negsuc, is_neg, eq_ℤ, to_nat, List, [], Option, none, some,
  ltb, leb, add32, replicate, if◌then◌else◌, Outcome, done, ◌>>=◌, ◌>>◌, assert, write,
}
use waeio.Wasio.{
  WasioResult, ok, error, econn, Pollfd, Reply, PollReply, RecvReply, Host, errno_after,
  translate_error,
}

-- `struct wasio_pollfd`; the list is the block that `fds` points to.
pub record Wfd : Type 0 where
  pub capacity : ℕ
  pub length : ℕ
  pub fds : List Pollfd

-- The structure, the global `host_errno`, and the state of the host.
pub record State (W : Type 0) : Type 0 where
  pub wfd : Wfd
  pub host_errno : ℤ
  pub world : W

-- WASIO_STATIC_INITIALIZER: a static array is filled with zeros.
unfoldable pub static_initializer : ℕ → Wfd
static_initializer max_conns = record {
  capacity = max_conns;
  length = 0;
  fds = replicate max_conns (record { fd = pos 0; events = 0; revents = 0 });
}

-- `wfd->fds[wfd->length++] = entry`
unfoldable pub push_entry : Wfd → Pollfd → Outcome Wfd
push_entry wfd entry = do
  fds ← write wfd.fds (pos wfd.length) entry
  done (record wfd { length = add32 wfd.length 1; fds = fds })

-- `malloc` gives NULL or a block with arbitrary contents.
unfoldable pub wasio_init : Wfd → ℕ → Option (List Pollfd) → WasioResult × Wfd
wasio_init wfd capacity none = (error, record wfd { fds = [] })
wasio_init wfd capacity (some block) = (ok, record { capacity = capacity; length = 0; fds = block })

unfoldable pub wasio_finalize : Wfd → Wfd
wasio_finalize wfd = record { capacity = 0; length = 0; fds = [] }

module _ {W : Type 0} (host : Host W) (pollin : ℕ) where
  -- The state after an imported function has returned.
  abbrev pub after : State W → Reply W → State W
  after s r = record s { host_errno = errno_after s.host_errno r.errno; world = r.world }

  -- What `wasio_listen` and `wasio_accept` do with the host's answer; `out` is what the caller's
  -- descriptor variable holds.
  unfoldable pub add_descriptor : State W → ℤ → ℤ → Outcome (WasioResult × ℤ × State W)
  add_descriptor s answer out =
      if is_neg answer then done (translate_error host s.host_errno, out, s) else do
        wfd ← push_entry s.wfd (record { fd = answer; events = pollin; revents = 0 })
        assert (leb wfd.length wfd.capacity)
        done (ok, answer, record s { wfd = wfd })

  unfoldable pub wasio_listen : State W → ℤ → ℤ → ℤ → Outcome (WasioResult × ℤ × State W)
  unfolding add_descriptor
  wasio_listen s vfd port backlog = do
    assert (ltb s.wfd.length s.wfd.capacity)
    let r = host.listen s.world port backlog
    add_descriptor (after s r) r.answer vfd

  unfoldable pub wasio_accept : State W → ℤ → ℤ → Outcome (WasioResult × ℤ × State W)
  unfolding add_descriptor
  wasio_accept s vfd new_conn = do
    assert (ltb s.wfd.length s.wfd.capacity)
    let r = host.accept s.world vfd
    add_descriptor (after s r) r.answer new_conn

  -- The third part of the result is `*nready`.
  unfoldable pub wasio_poll : State W → ℕ → ℤ → WasioResult × ℕ × State W
  wasio_poll s nready timeout =
      let r = host.poll s.world s.wfd.fds s.wfd.length timeout in
      let s' = after (record s { wfd = record (s.wfd) { fds = r.fds } }) r.reply in
      if is_neg r.reply.answer
      then (translate_error host s'.host_errno, nready, s')
      else (ok, to_nat r.reply.answer, s')

  -- The parts of the result: the code, `*recvlen`, the bytes stored into the buffer, the state.
  unfoldable pub wasio_recv : State W → ℤ → ℕ → ℕ → WasioResult × ℕ × List ℕ × State W
  wasio_recv s vfd len recvlen =
      let r = host.recv s.world vfd len in
      let s' = after s r.reply in
      if eq_ℤ r.reply.answer (pos 0)
      then (econn, recvlen, r.bytes, s')
      else if is_neg r.reply.answer
      then (translate_error host s'.host_errno, recvlen, r.bytes, s')
      else (ok, to_nat r.reply.answer, r.bytes, s')

  unfoldable pub wasio_send : State W → ℤ → List ℕ → ℕ → ℕ → WasioResult × ℕ × State W
  wasio_send s vfd buf len sendlen =
      let r = host.send s.world vfd buf len in
      let s' = after s r in
      if is_neg r.answer
      then (translate_error host s'.host_errno, sendlen, s')
      else (ok, to_nat r.answer, s')

  unfoldable pub wasio_close : State W → ℤ → WasioResult × State W
  wasio_close s vfd =
      let r = host.close s.world vfd in
      let s' = after s r in
      if is_neg r.answer then (translate_error host s'.host_errno, s') else (ok, s')
