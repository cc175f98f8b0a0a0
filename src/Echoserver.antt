-- ===== src/Echoserver.antt =====
-- examples/echoserver/echoserver.c, on the backend of src/wasio_host.c and without its prints. The macro
-- WASIO_EVENT_FOREACH, which the repository does not define, is a parameter: the virtual descriptors
-- that its body runs for.
pub mod Echo
pub mod Safe
pub mod Events
mod Tests
use waeio.Prelude.{
  ℕ, zero, suc, ◌-◌, ◌==◌, Bool, true, false, ◌&&◌, ◌||◌, ℤ, pos, minus_one, eq_ℤ, List, [], ◌∷◌,
  length, take, Option, some, none, add32, sub32, ltb, if◌then◌else◌, Outcome, done, fault, aborted,
  ◌>>=◌, ◌>>◌, ◌>>?◌, assert, read, write, replicate,
}
use waeio.Wasio.{WasioResult, ok, error, efull, eagain, econn, Host}
use waeio.Wasio.Table.{
  State, Exports, Wfd, wasio_init, wasio_listen, wasio_accept, wasio_poll, wasio_recv, wasio_send,
  wasio_close, wasio_notify_recv, wasio_notify_send, wasio_finalize,
}
use waeio.Driver.{write_bytes}
use waeio.Httpserver.Response.{bytes}
use waeio.Httpserver.Request.{eq_bytes}
use waeio.Httpserver.WasioFiber.{is_ok}

abbrev pub max_clients : ℕ
max_clients = 512

abbrev pub buffer_size : ℕ
buffer_size = 4096

-- The variables of `main`: the buffer of a descriptor, or NULL.
pub record Server (W : Type 0) : Type 0 where
  pub wasio : State W
  pub nclients : ℕ
  pub buffers : List (Option (List ℕ))
  pub keep_going : Bool

-- `ans == WASIO_ERROR`
abbrev pub is_error : WasioResult → Bool
is_error error = true
is_error _ = false

module _ {W : Type 0} where
  -- `assert(wasio_notify_...(...) == WASIO_OK)`
  unfoldable pub notified : Server W → Outcome (WasioResult × State W) → Outcome (Server W)
  notified s o = do r ← o; assert (is_ok r.0); done (record s { wasio = r.1 })

module _ {W : Type 0} (host : Host W) where
  -- A close whose result is not looked at.
  unfoldable pub closed : ℤ → Server W → Outcome (Server W)
  closed vfd s = wasio_close host s.wasio vfd >>= λ r. done (record s { wasio = r.1 })

  -- `while (nclients > 0) wasio_close(wfd, nclients--)`
  unfoldable pub close_clients : ℕ → Server W → Outcome (Server W)
  close_clients zero s = done (record s { nclients = 0 })
  close_clients (suc n) s = closed (pos (suc n)) s >>= close_clients n

  -- The listener's descriptor is ready.
  unfoldable pub accept_client : ℤ → ℤ → Server W → Outcome (Server W)
  accept_client sockfd clientfd s = do
    r ← wasio_accept host s.wasio sockfd clientfd
    assert (is_ok r.0)
    let s' = record s { wasio = r.2; nclients = add32 s.nclients 1 }
    t ← notified s' (wasio_notify_recv s'.wasio r.1)
    notified t (wasio_notify_recv t.wasio sockfd)

  -- What was received has been sent back, with the result `r`.
  unfoldable pub echoed : ℕ → ℕ → Server W → WasioResult × ℕ × State W → Outcome (Server W)
  echoed vfd nrecv s r =
      let s' = record s { wasio = r.2 } in
      let waits = notified s' (wasio_notify_send s'.wasio (pos vfd)) in
      let blocked =
        is_error r.0 && (eq_ℤ r.2.host_errno host.eagain || eq_ℤ r.2.host_errno host.ewouldblock) in
      let finished = closed (pos vfd) s' in
      if blocked || (is_ok r.0 && ltb r.1 nrecv) then waits else finished

  unfoldable pub echo : ℕ → List ℕ → ℕ → Server W → Outcome (Server W)
  echo vfd buffer nrecv s = wasio_send host s.wasio (pos vfd) buffer nrecv 0 >>= echoed vfd nrecv s

  -- A client's descriptor is ready and has no buffer; `block` is what `malloc` gives for one. The
  -- result is whether the loop over the events goes on, and the server.
  unfoldable pub receive : ℕ → Option (List ℕ) → Server W → Outcome (Bool × Server W)
  receive vfd none s = fault
  receive vfd (some block) s = do
    r ← wasio_recv host s.wasio (pos vfd) buffer_size 0
    assert (is_ok r.0)
    buffer ← write_bytes block 0 r.2
    buffers ← write s.buffers (pos vfd) (some buffer)
    let s' = record s { wasio = r.3; buffers = buffers }
    let quits =
        close_clients s'.nclients (record s' { keep_going = false }) >>= λ t. done (false, t)
    let echoes = echo vfd buffer r.1 s' >>= λ t. done (true, t)
    if eq_bytes (take 4 buffer) (bytes "quit") then quits else echoes

  -- A client's descriptor is ready and has a buffer.
  unfoldable pub send_back : ℕ → List ℕ → Server W → Outcome (Server W)
  send_back vfd buffer s = do
    r ← wasio_send host s.wasio (pos vfd) buffer buffer_size 0
    assert (is_ok r.0)
    buffers ← write s.buffers (pos vfd) none
    s' ← closed (pos vfd) (record s { wasio = r.2; buffers = buffers })
    done (record s' { nclients = sub32 s'.nclients 1 })

  unfoldable pub serve :
      ℕ → Option (List ℕ) → Option (List ℕ) → Server W → Outcome (Bool × Server W)
  serve vfd block none s = receive vfd block s
  serve vfd block (some buffer) s = send_back vfd buffer s >>= λ s'. done (true, s')

module _ {W : Type 0} (host : Host W) (malloc : ℕ → Option (List ℕ)) (sockfd clientfd : ℤ) where
  -- The body of the loop over the events.
  unfoldable pub event : ℕ → Server W → Outcome (Bool × Server W)
  event vfd s =
      let accepted = accept_client host sockfd clientfd s >>= λ s'. done (true, s') in
      let served = read s.buffers (pos vfd) >>= λ buffer. serve host vfd (malloc vfd) buffer s in
      if eq_ℤ (pos vfd) sockfd then accepted else served

  unfoldable pub events : List ℕ → Server W → Outcome (Server W)
  events [] s = done s
  events (vfd ∷ vfds) s =
      event vfd s >>= λ r. (let rest = events vfds r.1 in if r.0 then rest else done r.1)

  module _ (event_foreach : State W → ℕ → List ℕ) where
    -- One round: whether the code leaves the loop at once, and the server.
    unfoldable pub round : Server W → Outcome (Bool × Server W)
    round s =
        let r = wasio_poll host s.wasio 0 (pos 1000) in
        let s' = record s { wasio = r.2 } in
        let handled = events (event_foreach r.2 r.1) s' >>= λ t. done (false, t) in
        if is_ok r.0 then handled else done (true, s')

    unfoldable pub loop : ℕ → Server W → Outcome (Option (Server W))
    loop zero s = if s.keep_going then done none else done (some s)
    loop (suc rounds) s =
        let more =
          round s >>= λ r. (let rest = loop rounds r.1 in if r.0 then done (some r.1) else rest) in
        if s.keep_going then more else done (some s)

module _ {W : Type 0} (host : Host W) (exports : Exports) (malloc : ℕ → Option (List ℕ))
    (clientfd : ℤ) (event_foreach : State W → ℕ → List ℕ) where
  -- The structure of the backend at the end. The Booleans are the outcomes of `malloc` in `wasio_init`;
  -- `sockfd` is what the variable holds before `wasio_listen`.
  unfoldable pub main : State W → ℤ → Bool → Bool → Bool → ℕ → Outcome (Option Wfd)
  main wasio sockfd fl_memory vfds_memory fds_memory rounds = do
    init ← wasio_init exports wasio max_clients fl_memory vfds_memory fds_memory
    assert (is_ok init.0)
    listens ← wasio_listen host init.1 sockfd (pos 8080) (pos 64)
    assert (is_ok listens.0 && eq_ℤ listens.1 (pos 0))
    let empty : Server W = record {
      wasio = listens.2;
      nclients = 0;
      buffers = replicate max_clients none;
      keep_going = true;
    }
    s ← notified empty (wasio_notify_recv empty.wasio listens.1)
    loop host malloc listens.1 clientfd event_foreach rounds s >>? λ t.
        closed host listens.1 t >>= λ u. wasio_finalize u.wasio.wfd >>= λ wfd. done (some wfd)
