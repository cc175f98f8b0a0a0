-- ===== src/Httpserver/HostFiber.antt =====
-- examples/httpserver/httpserver_fiber.c: the server on fibers and the functions of the host, in a build
-- without DEBUG, where `wassert` is empty. The fiber library is a parameter. A fiber gets its
-- descriptor, or the signal to stop, as the value it is resumed with.
pub mod Coroutines
pub mod Bounds
pub mod Growing
pub mod Listening
pub mod Closing
pub mod Safe
pub mod Entries
pub mod Rounds
pub mod Talking
pub mod Receiving
mod Tests
use waeio.Prelude.{
  ℕ, zero, suc, ◌+◌, ◌*◌, ◌==◌, Bool, true, false, ◌||◌, ℤ, pos, minus_one, is_neg, eq_ℤ, to_nat,
  List, Option, some, none, bit_and, sub32, ltb, replicate, if◌then◌else◌, Outcome, done, ◌>>=◌,
  ◌>>?◌, read, write,
}
use waeio.Wasio.{Pollfd, Host, Reply, errno_after}
use waeio.Waeio.{FiberResult, fiber_ok, fiber_error, fiber_yield}
use waeio.Httpserver.{compress}
use waeio.Httpserver.WasioFiber.{
  FiberClosure, fiber_kill_signal, set_closed, zip_entries, entry_fds, entry_fibers, entry_closed,
  entry_copy,
}

-- The globals, with `host_errno`, the state of the host and the memory of the fibers.
pub record Server (W M : Type 0) : Type 0 where
  pub world : W
  pub host_errno : ℤ
  pub fds : List Pollfd
  pub nfds : ℕ
  pub fibers : List FiberClosure
  pub end_server : Bool
  pub memory : M

-- The masks, and the fibers: what a fiber leaves when it stops is its status and the server.
pub record Platform (W M : Type 0) : Type 0 where
  pub pollin : ℕ
  pub pollhup : ℕ
  pub max_connections : ℕ
  pub fiber_alloc : M → ℕ × M
  pub fiber_free : M → ℕ → M
  pub fiber_resume : Server W M → ℕ → ℤ → FiberResult × Server W M

-- `timeout`, 30 seconds
abbrev pub poll_timeout : ℤ
poll_timeout = pos 30000

module _ {W M : Type 0} where
  -- The state after an imported function has returned.
  abbrev pub heard : Server W M → Reply W → Server W M
  heard s r = record s { world = r.world; host_errno = errno_after s.host_errno r.errno }

  -- An assignment to a field of `fds[i]`.
  unfoldable pub update_entry : ℕ → (Pollfd → Pollfd) → Server W M → Outcome (Server W M)
  update_entry i change s = do
    old ← read s.fds (pos i)
    fds ← write s.fds (pos i) (change old)
    done (record s { fds = fds })

  -- `fds[i].fd = -1` and `nfds--`
  unfoldable pub drop_entry : ℕ → Server W M → Outcome (Server W M)
  drop_entry i s = do s' ← update_entry i set_closed s; done (record s' { nfds = sub32 s'.nfds 1 })

  -- The compression of the two arrays, which have one size.
  unfoldable pub compress_pollfd : Server W M → Outcome (Server W M)
  compress_pollfd s = do
    r ← compress entry_closed entry_copy s.nfds 0 (zip_entries s.fds s.fibers) s.nfds
    done (record s { fds = entry_fds r.0; fibers = entry_fibers r.0; nfds = r.1 })

module _ {W M : Type 0} (host : Host W) (env : Platform W M) where
  -- The statements for a fiber that has stopped for good.
  unfoldable pub retire : ℕ → FiberClosure → Server W M → Outcome (Server W M)
  retire i clo s =
      drop_entry i (
        heard (record s { memory = env.fiber_free s.memory clo.fiber }) (host.close s.world clo.fd))

  unfoldable pub handle_command :
      ℕ → FiberClosure → FiberResult → Server W M → Outcome (Bool × Server W M)
  handle_command i clo fiber_ok s = retire i clo s >>= λ s'. done (true, s')
  handle_command i clo fiber_yield s =
      update_entry i (λ entry. record entry { events = env.pollin }) s >>= λ s'. done (false, s')
  handle_command i clo fiber_error s =
      retire i clo s >>= λ s'. done (true, record s' { end_server = true })

  -- The peer of an entry has hung up.
  unfoldable pub hang_up : ℕ → Server W M → Outcome (Server W M)
  hang_up i s = do
    clo ← read s.fibers (pos i)
    fibers ← write s.fibers (pos i) (record clo { fd = minus_one })
    drop_entry i (record s { memory = env.fiber_free s.memory clo.fiber; fibers = fibers })

  -- The fiber of a readable entry runs. The results are the flag and the server.
  unfoldable pub resume_entry : ℕ → Bool → Server W M → Outcome (Bool × Server W M)
  resume_entry i flag s = do
    clo ← read s.fibers (pos i)
    let r = env.fiber_resume s clo.fiber clo.fd
    clo' ← read r.1.fibers (pos i)
    handled ← handle_command i clo' r.0 r.1
    let marked = update_entry i set_closed handled.1 >>= λ s'. done (true, s')
    if handled.0 || flag then marked else done (false, handled.1)

  -- Entry `i` in the loop over the entries: whether the loop goes on, the flag `compress_pollfd`,
  -- and the server.
  unfoldable pub visit : ℕ → Bool → Server W M → Outcome (Bool × Bool × Server W M)
  visit i flag s = do
    entry ← read s.fds (pos i)
    let gone = hang_up i s >>= λ s'. done (true, true, s')
    let ran = resume_entry i flag s >>= λ r. done (true, r.0, r.1)
    if entry.revents == 0
        then done (true, flag, s)
        else if bit_and entry.revents env.pollhup == 0
        then if bit_and entry.revents env.pollin == 0
          then done (false, flag, record s { end_server = true })
          else ran
        else gone

  -- The loop over the entries, from `i`, for `count` of them.
  unfoldable pub visit_all : ℕ → ℕ → Bool → Server W M → Outcome (Bool × Server W M)
  visit_all zero i flag s = done (flag, s)
  visit_all (suc count) i flag s = do
    r ← visit i flag s
    let rest = visit_all count (i + 1) r.1 r.2
    if r.0 then rest else done (r.1, r.2)

  -- One round of the request loop: whether the code leaves the loop, and the server.
  unfoldable pub request_round : Server W M → Outcome (Bool × Server W M)
  request_round s =
      let r = host.poll s.world s.fds s.nfds poll_timeout in
      let s' = record (heard s r.reply) { fds = r.fds } in
      let visited = visit_all s'.nfds 0 false s' >>= λ v.
      ((if v.0 then compress_pollfd v.1 else done v.1) >>= λ t. done (false, t)) in
      if is_neg r.reply.answer
      then done (true, s')
      else if to_nat r.reply.answer == 0
      then done (true, record s' { end_server = true })
      else visited

  -- The request loop, for at most `fuel` rounds.
  unfoldable pub request_loop : ℕ → Server W M → Outcome (Option (Server W M))
  request_loop zero s = if s.end_server then done (some s) else done none
  request_loop (suc fuel) s =
      let rest = request_round s >>= λ r.
      (let more = request_loop fuel r.1 in if r.0 then done (some r.1) else more) in
      if s.end_server then done (some s) else rest

  -- A fiber is told to stop, and its descriptor is closed.
  unfoldable pub close_entry : ℕ → Server W M → Outcome (Server W M)
  close_entry i s = do
    entry ← read s.fds (pos i)
    clo ← read s.fibers (pos i)
    let r = env.fiber_resume s clo.fiber fiber_kill_signal
    let killed = read r.1.fds (pos i) >>= λ now.
        done (record (heard r.1 (host.close r.1.world now.fd)) { nfds = sub32 r.1.nfds 1 })
    if eq_ℤ entry.fd minus_one then done s else killed

  -- The loop that closes what is open, from `i`, for at most `fuel` rounds.
  unfoldable pub close_all : ℕ → ℕ → Server W M → Outcome (Option (Server W M))
  close_all zero i s = if ltb i s.nfds then done none else done (some s)
  close_all (suc fuel) i s =
      let step = close_entry i s >>= λ s'. close_all fuel (i + 1) s' in
      if ltb i s.nfds then step else done (some s)

  -- The server when it enters its loop, with the listener's socket in the first entry.
  unfoldable pub started : M → ℤ → ℤ → W → Outcome (Server W M)
  started memory errno listen_fd world = do
    let unused = replicate env.max_connections (record { fd = minus_one; events = 0; revents = 0 })
    let no_fibers = replicate env.max_connections (record { fiber = 0; fd = pos 0 })
    let child = env.fiber_alloc memory
    fds ← write unused (pos 0) (record { fd = listen_fd; events = env.pollin; revents = 0 })
    fibers ← write no_fibers (pos 0) (record { fiber = child.0; fd = listen_fd })
    done (record {
      world = world;
      host_errno = errno;
      fds = fds;
      nfds = 1;
      fibers = fibers;
      end_server = false;
      memory = child.1;
    })

  -- The exit status, with the server where there is one. `memory` is that of the fibers after
  -- `fiber_init`.
  unfoldable pub main : M → ℤ → W → ℕ → Outcome (Option (ℤ × Option (Server W M)))
  main memory errno world fuel =
      let r = host.listen world (pos 8080) (pos (env.max_connections * 2)) in
      let serving = started memory (errno_after errno r.errno) r.answer r.world >>= λ s.
      (request_loop fuel s >>? λ s'. close_all fuel 0 s' >>? λ t. done (some (pos 0, some t))) in
      if is_neg r.answer then done (some (minus_one, none)) else serving
