-- ===== src/Httpserver/Bespoke.antt =====
-- examples/httpserver/httpserver_bespoke.c: the server without fibers, on the functions of the host. The
-- parser is a parameter, and so are the masks of the platform. The loops that ask the host until it
-- has no more take fuel, and give `none` when it runs out.
pub mod Closing
pub mod Accepting
pub mod Draining
pub mod Talking
pub mod Receiving
pub mod Serving
pub mod Workload
pub mod Rounds
mod Tests
use waeio.Prelude.{
  ℕ, zero, suc, ◌+◌, ◌==◌, Bool, true, false, not, ◌||◌, ℤ, pos, minus_one, is_neg, eq_ℤ, to_nat,
  List, Option, some, none, add32, bit_and, replicate, if◌then◌else◌, Outcome, done, ◌>>=◌, ◌>>?◌,
  assert, read, write,
}
use waeio.Wasio.{Pollfd, Host, Reply, errno_after}
use waeio.Driver.{write_bytes}
use waeio.Httpserver.{compress}
use waeio.Httpserver.Request.{Http, respond}

-- The variables of `main`, with `host_errno` and the state of the host.
pub record Server (W : Type 0) : Type 0 where
  pub world : W
  pub host_errno : ℤ
  pub fds : List Pollfd
  pub nfds : ℕ
  pub end_server : Bool
  pub compress_array : Bool
  pub reqbuf : List ℕ
  pub resbuf : List ℕ

abbrev pub buffer_size : ℕ
buffer_size = 4096

-- How much is received at a time.
abbrev pub recv_size : ℕ
recv_size = 2048

-- `3 * 60 * 1000`
abbrev pub poll_timeout : ℤ
poll_timeout = pos 180000

-- `fds[i].fd == -1`
abbrev pub fd_closed : Pollfd → Bool
fd_closed entry = eq_ℤ entry.fd minus_one

-- `fds[j].fd = fds[j+1].fd`
abbrev pub fd_copy : Pollfd → Pollfd → Pollfd
fd_copy here next = record here { fd = next.fd }

module _ {W : Type 0} where
  -- The state after an imported function has returned.
  abbrev pub heard : Server W → Reply W → Server W
  heard s r = record s { world = r.world; host_errno = errno_after s.host_errno r.errno }

  -- A new connection at the end of the array, whose bound the code does not test.
  unfoldable pub add_connection : ℕ → Server W → ℤ → Outcome (Server W)
  add_connection pollin s new_sd = do
    old ← read s.fds (pos s.nfds)
    fds ← write s.fds (pos s.nfds) (record old { fd = new_sd; events = pollin })
    done (record s { fds = fds; nfds = add32 s.nfds 1 })

  -- The removal of closed entries.
  unfoldable pub compress_fds : Server W → Outcome (Server W)
  compress_fds s = do
    let removed = compress fd_closed fd_copy s.nfds 0 s.fds s.nfds >>= λ r.
        done (record s { fds = r.0; nfds = r.1; compress_array = false })
    if s.compress_array then removed else done s

module _ {W : Type 0} (host : Host W) where
  -- The statements after the loop that receives, when `close_conn` is set.
  unfoldable pub close_client : ℕ → Bool → Server W → Outcome (Server W)
  close_client i close_conn s = do
    entry ← read s.fds (pos i)
    let r = host.close s.world entry.fd
    let closed = write s.fds (pos i) (record entry { fd = minus_one }) >>= λ fds.
        done (record (heard s r) { fds = fds; compress_array = true })
    if close_conn then closed else done s

  -- The last loop, for `count` entries from `i` on.
  unfoldable pub close_all : ℕ → ℕ → Server W → Outcome (Server W)
  close_all zero i s = done s
  close_all (suc count) i s = do
    entry ← read s.fds (pos i)
    close_all count (i + 1) (if is_neg entry.fd then s else heard s (host.close s.world entry.fd))

module _ {W : Type 0} (host : Host W) (pollin : ℕ) (listen_sd : ℤ) where
  -- The loop that accepts, for at most `fuel` calls of the host.
  unfoldable pub accept_all : ℕ → Server W → Outcome (Option (Server W))
  accept_all zero s = done none
  accept_all (suc fuel) s =
      let r = host.accept s.world listen_sd in
      let s' = heard s r in
      let more = add_connection pollin s' r.answer >>= accept_all fuel in
      if is_neg r.answer
      then if eq_ℤ s'.host_errno host.ewouldblock
        then done (some s')
        else done (some (record s' { end_server = true }))
      else more

module _ {W : Type 0} (host : Host W) (http : Http) where
  -- A request has been received for entry `i`: whether the loop goes on, `close_conn`, and the state.
  unfoldable pub answer_request : ℕ → Bool → Server W → Outcome (Bool × Bool × Server W)
  answer_request i close_conn s = do
    r ← respond http assert s.resbuf buffer_size (http.parse s.reqbuf)
    let s' = record s { resbuf = r.0.1; end_server = s.end_server || r.1 }
    entry ← read s'.fds (pos i)
    let sent = host.send s'.world entry.fd s'.resbuf (to_nat r.0.0)
    if eq_ℤ r.0.0 minus_one
        then done (false, true, s')
        else if is_neg sent.answer
        then done (false, true, heard s' sent)
        else done (true, close_conn || r.1, heard s' sent)

  -- The loop that receives, for at most `fuel` calls of the host.
  unfoldable pub receive_all : ℕ → ℕ → Bool → Server W → Outcome (Option (Bool × Server W))
  receive_all zero i close_conn s = done none
  receive_all (suc fuel) i close_conn s = do
    entry ← read s.fds (pos i)
    let r = host.recv s.world entry.fd recv_size
    reqbuf ← write_bytes s.reqbuf 0 r.bytes
    let s' = record (heard s r.reply) { reqbuf = reqbuf }
    let served = answer_request i close_conn s' >>= λ next.
        (let rest = receive_all fuel i next.1 next.2 in
          if next.0 then rest else done (some (next.1, next.2)))
    if is_neg r.reply.answer
        then done (some (close_conn || not (eq_ℤ s'.host_errno host.eagain), s'))
        else if to_nat r.reply.answer == 0
        then done (some (true, s'))
        else served

  -- A client's entry that is readable.
  unfoldable pub serve_client : ℕ → ℕ → Server W → Outcome (Option (Server W))
  serve_client fuel i s =
      receive_all fuel i false s >>? λ r. close_client host i r.0 r.1 >>= λ s'. done (some s')

module _ {W : Type 0} (host : Host W) (pollin : ℕ) (http : Http) (listen_sd : ℤ) where
  -- Entry `i`: whether the loop over the entries goes on, and the state.
  unfoldable pub visit : ℕ → ℕ → Server W → Outcome (Option (Bool × Server W))
  visit fuel i s = do
    entry ← read s.fds (pos i)
    let accepted = accept_all host pollin listen_sd fuel s >>? λ s'. done (some (true, s'))
    let served = serve_client host http fuel i s >>? λ s'. done (some (true, s'))
    if entry.revents == 0
        then done (some (true, s))
        else if bit_and entry.revents pollin == 0
        then done (some (false, record s { end_server = true }))
        else if eq_ℤ entry.fd listen_sd
        then accepted
        else served

  -- The loop over `count` entries from `i` on.
  unfoldable pub visit_all : ℕ → ℕ → ℕ → Server W → Outcome (Option (Server W))
  visit_all fuel zero i s = done (some s)
  visit_all fuel (suc count) i s = visit fuel i s >>? λ r.
      (let rest = visit_all fuel count (i + 1) r.1 in if r.0 then rest else done (some r.1))

  -- One round of the request loop: whether there is another, and the state.
  unfoldable pub request_round : ℕ → Server W → Outcome (Option (Bool × Server W))
  request_round fuel s =
      let r = host.poll s.world s.fds s.nfds poll_timeout in
      let s' = record (heard s r.reply) { fds = r.fds } in
      let visited = visit_all fuel s'.nfds 0 s' >>? λ t.
      compress_fds t >>= λ t'. done (some (not t'.end_server, t')) in
      if is_neg r.reply.answer || (to_nat r.reply.answer == 0)
      then done (some (false, s'))
      else visited

  unfoldable pub request_loop : ℕ → ℕ → Server W → Outcome (Option (Server W))
  request_loop zero fuel s = done none
  request_loop (suc rounds) fuel s = request_round fuel s >>? λ r.
      (let rest = request_loop rounds fuel r.1 in if r.0 then rest else done (some r.1))

-- The exit status and the state of the host. `reqbuf` and `resbuf` are what the buffers hold before
-- they are used.
unfoldable pub main :
    {W : Type 0} (host : Host W) (pollin : ℕ) (http : Http) (max_connections : ℕ)
    (reqbuf resbuf : List ℕ) (errno : ℤ)
    → W
    → ℕ
    → ℕ
    → Outcome (Option (ℤ × W))
main host pollin http max_connections reqbuf resbuf errno world rounds fuel =
    let r = host.listen world (pos 8080) (pos 1000) in
    let zeroed = replicate max_connections (record { fd = pos 0; events = 0; revents = 0 }) in
    let started =
      write zeroed (pos 0) (record { fd = r.answer; events = pollin; revents = 0 }) >>= λ fds.
      request_loop host pollin http r.answer rounds fuel (record {
        world = r.world;
        host_errno = errno_after errno r.errno;
        fds = fds;
        nfds = 1;
        end_server = false;
        compress_array = false;
        reqbuf = reqbuf;
        resbuf = resbuf;
      })
      >>? λ s. close_all host s.nfds 0 s >>= λ s'. done (some (pos 0, s'.world)) in
    if is_neg r.answer then done (some (minus_one, r.world)) else started
