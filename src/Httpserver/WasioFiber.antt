-- ===== src/Httpserver/WasioFiber.antt =====
-- examples/httpserver/httpserver_wasio_fiber.c: the server on fibers and the backend of
-- src/wasio/host_poll.c, in a build without DEBUG, where `wassert` is empty: the arrays of
-- connections, the commands of fibers, a round of `main` and its final loop. The fiber library is a
-- parameter.
pub mod Commands
pub mod Coroutines
pub mod Main
pub mod Safe
pub mod Entries
pub mod Rounds
use waeio.Prelude.{
  ℕ, zero, suc, ◌+◌, ◌-◌, ◌==◌, Bool, true, false, ◌||◌, ℤ, pos, negsuc, minus_one, eq_ℤ, to_nat,
  List, [], ◌∷◌, Option, some, none, bit_and, sub32, leb, ltb, if◌then◌else◌, Outcome, done, fault,
  aborted, ◌>>=◌, ◌>>◌, assert, read, write,
}
use waeio.Wasio.{WasioResult, ok, Pollfd, Host}
use waeio.Wasio.Poll.{State, wasio_poll, wasio_close, wasio_listen}
use waeio.Waeio.{FiberResult, fiber_ok, fiber_error, fiber_yield}
use waeio.Httpserver.{compress}

-- `struct fiber_closure`
pub record FiberClosure : Type 0 where
  pub fiber : ℕ
  pub fd : ℤ

-- The globals, with the state of the backend and the memory of the fibers. `fd` is the argument of
-- the fiber that runs.
pub record Server (W M : Type 0) : Type 0 where
  pub wasio : State W
  pub fibers : List FiberClosure
  pub end_server : Bool
  pub fd : ℤ
  pub memory : M

-- The masks, and the fibers: what a fiber leaves when it stops is its status and the server.
pub record Platform (W M : Type 0) : Type 0 where
  pub pollin : ℕ
  pub pollhup : ℕ
  pub fiber_alloc : M → ℕ × M
  pub fiber_free : M → ℕ → M
  pub fiber_resume : Server W M → ℕ → FiberResult × Server W M

abbrev pub fiber_kill_signal : ℤ
fiber_kill_signal = negsuc 2147483647

-- `wfd.fds[i].fd = -1`
abbrev pub set_closed : Pollfd → Pollfd
set_closed entry = record entry { fd = minus_one }

-- The arrays side by side.
pub zip_entries : List Pollfd → List FiberClosure → List (Pollfd × FiberClosure)
zip_entries [] cs = []
zip_entries (p ∷ ps) [] = []
zip_entries (p ∷ ps) (c ∷ cs) = (p, c) ∷ zip_entries ps cs

pub entry_fds : List (Pollfd × FiberClosure) → List Pollfd
entry_fds [] = []
entry_fds (x ∷ xs) = x.0 ∷ entry_fds xs

pub entry_fibers : List (Pollfd × FiberClosure) → List FiberClosure
entry_fibers [] = []
entry_fibers (x ∷ xs) = x.1 ∷ entry_fibers xs

-- `wfd.fds[i].fd == -1`
abbrev pub entry_closed : Pollfd × FiberClosure → Bool
entry_closed x = eq_ℤ x.0.fd minus_one

-- `wfd.fds[j].fd = wfd.fds[j+1].fd; fibers[j] = fibers[j+1]`
abbrev pub entry_copy : Pollfd × FiberClosure → Pollfd × FiberClosure → Pollfd × FiberClosure
entry_copy here next = (record (here.0) { fd = next.0.fd }, next.1)

module _ {W M : Type 0} where
  abbrev pub with_wasio : Server W M → State W → Server W M
  with_wasio s w = record s { wasio = w }

  -- An assignment to a field of `wfd.fds[i]`.
  unfoldable pub update_entry : Server W M → ℕ → (Pollfd → Pollfd) → Outcome (Server W M)
  update_entry s i change = do
    old ← read s.wasio.wfd.fds (pos i)
    fds ← write s.wasio.wfd.fds (pos i) (change old)
    done (with_wasio s (record (s.wasio) { wfd = record (s.wasio.wfd) { fds = fds } }))

  abbrev pub lose_entry : Server W M → Server W M
  lose_entry s =
      with_wasio s
        (record (s.wasio) { wfd = record (s.wasio.wfd) { length = sub32 s.wasio.wfd.length 1 } })

  -- The compression of the two arrays, which have one size.
  unfoldable pub compress_pollfd : Server W M → Outcome (Server W M)
  unfolding zip_entries entry_fds entry_fibers
  compress_pollfd s = do
    let n = s.wasio.wfd.length
    r ← compress entry_closed entry_copy n 0 (zip_entries s.wasio.wfd.fds s.fibers) n
    let wfd = record (s.wasio.wfd) { fds = entry_fds r.0; length = r.1 }
    done (record s { wasio = record (s.wasio) { wfd = wfd }; fibers = entry_fibers r.0 })

-- The code of a result, for `assert(... == WASIO_OK)`.
abbrev pub is_ok : WasioResult → Bool
is_ok ok = true
is_ok _ = false

module _ {W M : Type 0} (host : Host W) (env : Platform W M) where
  -- The statements for a fiber that has stopped for good.
  unfoldable pub retire : ℕ → FiberClosure → Server W M → Outcome (Server W M)
  unfolding update_entry
  retire i clo s = do
    let closed = wasio_close host env.pollin s.wasio clo.fd
    assert (is_ok closed.0)
    s' ←
        update_entry (record s { wasio = closed.1; memory = env.fiber_free s.memory clo.fiber }) i
          set_closed
    done (lose_entry s')

  unfoldable pub handle_command :
      ℕ → FiberClosure → FiberResult → Server W M → Outcome (Bool × Server W M)
  unfolding retire update_entry
  handle_command i clo fiber_ok s = retire i clo s >>= λ s'. done (true, s')
  handle_command i clo fiber_yield s =
      update_entry s i (λ entry. record entry { events = env.pollin }) >>= λ s'. done (false, s')
  handle_command i clo fiber_error s =
      retire i clo s >>= λ s'. done (true, record s' { end_server = true })

  -- A connection that hung up.
  unfoldable pub hang_up : ℕ → Server W M → Outcome (Server W M)
  unfolding update_entry
  hang_up i s = do
    clo ← read s.fibers (pos i)
    fibers ← write s.fibers (pos i) (record clo { fd = minus_one })
    s' ←
        update_entry (record s { memory = env.fiber_free s.memory clo.fiber; fibers = fibers }) i
          set_closed
    done (lose_entry s')

  -- The fiber of a readable entry runs with `fd` set. The results are the flag and the server.
  unfoldable pub resume_entry : ℕ → Bool → Pollfd → Server W M → Outcome (Bool × Server W M)
  unfolding handle_command update_entry
  resume_entry i flag entry s = do
    assert (leb 4 (to_nat entry.fd))
    clo ← read s.fibers (pos i)
    let r = env.fiber_resume (record s { fd = entry.fd }) clo.fiber
    clo' ← read r.1.fibers (pos i)
    handled ← handle_command i clo' r.0 r.1
    let marked = update_entry handled.1 i set_closed >>= λ s'. done (true, s')
    if handled.0 || flag then marked else done (false, handled.1)

  -- Entry `i` in the loop over the entries: whether the loop goes on, the flag `compress_pollfd`,
  -- and the server.
  unfoldable pub visit : ℕ → Bool → Server W M → Outcome (Bool × Bool × Server W M)
  unfolding hang_up resume_entry
  visit i flag s = do
    entry ← read s.wasio.wfd.fds (pos i)
    let gone = hang_up i s >>= λ s'. done (true, true, s')
    let ran = resume_entry i flag entry s >>= λ r. done (true, r.0, r.1)
    if entry.revents == 0
        then done (true, flag, s)
        else if bit_and entry.revents env.pollhup == 0
        then if bit_and entry.revents env.pollin == 0
          then done (false, flag, record s { end_server = true })
          else ran
        else gone

  -- The loop over the entries, from `i`, for `count` of them.
  unfoldable pub visit_all : ℕ → ℕ → Bool → Server W M → Outcome (Bool × Server W M)
  unfolding visit
  visit_all zero i flag s = done (flag, s)
  visit_all (suc count) i flag s = do
    r ← visit i flag s
    let rest = visit_all count (i + 1) r.1 r.2
    if r.0 then rest else done (r.1, r.2)

  -- One round of the request loop.
  unfoldable pub request_round : ℤ → Server W M → Outcome (Server W M)
  unfolding visit_all compress_pollfd
  request_round timeout s = answer (wasio_poll host env.pollin s.wasio 0 timeout)
    where
      answer : WasioResult × ℕ × State W → Outcome (Server W M)
      answer (ok, zero, w) = done (record s { wasio = w; end_server = true })
      answer (ok, suc nready, w) = do
        r ← visit_all w.wfd.length 0 false (with_wasio s w)
        let compressed = compress_pollfd r.1
        if r.0 then compressed else done r.1
      answer (_, nready, w) = done (with_wasio s w)

  -- A fiber is told to stop, and its descriptor is closed.
  unfoldable pub close_entry : ℕ → Server W M → Outcome (Server W M)
  close_entry i s = do
    entry ← read s.wasio.wfd.fds (pos i)
    clo ← read s.fibers (pos i)
    let r = env.fiber_resume (record s { fd = fiber_kill_signal }) clo.fiber
    let killed = read r.1.wasio.wfd.fds (pos i) >>= λ now.
        done (lose_entry (with_wasio r.1 (wasio_close host env.pollin r.1.wasio now.fd).1))
    if eq_ℤ entry.fd minus_one then done s else killed

  -- The loop that closes what is open, from `i`, for at most `fuel` rounds.
  unfoldable pub close_all : ℕ → ℕ → Server W M → Outcome (Server W M)
  unfolding close_entry
  close_all zero i s = done s
  close_all (suc fuel) i s =
      let step = close_entry i s >>= λ s'. close_all fuel (i + 1) s' in
      if ltb i s.wasio.wfd.length then step else done s
