-- ===== src/Httpserver/Queued.antt =====
-- examples/httpserver/httpserver.c: the server that runs ready fibers from queues, on the backend of
-- src/wasio_host.c, without its prints. The fiber library is a parameter. A closure of a fiber is its
-- handle and a descriptor; the union in a command is only used for its descriptor.
pub mod Coroutines
pub mod Main
pub mod Queues
pub mod Taking
pub mod Accepting
pub mod Waiting
mod Tests
use waeio.Prelude.{
  ℕ, zero, suc, ◌+◌, Bool, true, false, not, ◌||◌, ℤ, pos, minus_one, eq_ℤ, List, Option, some,
  none, add32, sub32, ltb, ◌==◌, if◌then◌else◌, Outcome, done, fault, aborted, ◌>>=◌, ◌>>◌, ◌>>?◌,
  assert, read, write,
}
use waeio.Wasio.{WasioResult, ok, Pollfd, Host}
use waeio.Wasio.Table.{State, wasio_poll, wasio_close, wasio_notify_recv, wasio_notify_send}
use waeio.Waeio.{FiberResult, fiber_ok, fiber_error, fiber_yield}
use waeio.Httpserver.WasioFiber.{FiberClosure, is_ok, fiber_kill_signal}

-- `struct fiber_queue`: the block `q` has room for `capacity` closures.
pub record FiberQueue : Type 0 where
  pub capacity : ℕ
  pub length : ℕ
  pub q : List FiberClosure

-- `cmd_tag_t`
pub data CmdTag : Type 0 where
  async yield recv send quit : CmdTag

-- `cmd_t`
pub record Cmd : Type 0 where
  pub tag : CmdTag
  pub fd : ℤ

-- The globals, with the memory of the fibers.
pub record Server (W M : Type 0) : Type 0 where
  pub wasio : State W
  pub frontq : FiberQueue
  pub rearq : FiberQueue
  pub fibers : List FiberClosure
  pub cmd : Cmd
  pub clients : ℕ
  pub memory : M

-- The fibers: what a fiber leaves when it stops is its status and the server. `free` is the one of the
-- C library.
pub record Platform (W M : Type 0) : Type 0 where
  pub max_connections : ℕ
  pub fiber_alloc : M → ℕ × M
  pub fiber_free : M → ℕ → M
  pub free : M → ℕ → M
  pub fiber_resume : Server W M → ℕ → ℤ → FiberResult × Server W M

-- The block that `malloc` gives, if it gives one; the code writes to it at once.
unfoldable pub fq_new : ℕ → Option (List FiberClosure) → Outcome FiberQueue
fq_new capacity none = fault
fq_new capacity (some block) = done (record { capacity = capacity; length = 0; q = block })

unfoldable pub fq_push : FiberQueue → FiberClosure → Outcome FiberQueue
fq_push fq clo =
    let pushed = write fq.q (pos fq.length) clo >>= λ q.
    done (record fq { q = q; length = add32 fq.length 1 }) in
    if ltb fq.length fq.capacity then pushed else aborted

abbrev pub fq_swap : FiberQueue × FiberQueue → FiberQueue × FiberQueue
fq_swap (frontq, rearq) = (rearq, frontq)

abbrev pub cmd_make : CmdTag → ℤ → Cmd
cmd_make tag fd = record { tag = tag; fd = fd }

module _ {W M : Type 0} where
  -- `fq_push(rearq, clo)`
  unfoldable pub push_rear : Server W M → FiberClosure → Outcome (Server W M)
  push_rear s clo = fq_push s.rearq clo >>= λ fq. done (record s { rearq = fq })

  -- `assert(wasio_notify_...(...) == WASIO_OK)`
  unfoldable pub notified : Server W M → Outcome (WasioResult × State W) → Outcome (Server W M)
  notified s o = do r ← o; assert (is_ok r.0); done (record s { wasio = r.1 })

  -- A fiber has yielded, with a command.
  unfoldable pub handle_yield : FiberClosure → CmdTag → Server W M → Outcome (Bool × Server W M)
  handle_yield clo async s = aborted
  handle_yield clo yield s = push_rear s clo >>= λ s'. done (true, s')
  handle_yield clo recv s =
      notified s (wasio_notify_recv s.wasio s.cmd.fd) >>= λ s'. done (true, s')
  handle_yield clo send s =
      notified s (wasio_notify_send s.wasio s.cmd.fd) >>= λ s'. done (true, s')
  handle_yield clo quit s = done (false, s)

-- `status == FIBER_OK`
abbrev pub is_finished : FiberResult → Bool
is_finished fiber_ok = true
is_finished _ = false

module _ {W M : Type 0} (host : Host W) (env : Platform W M) where
  -- A fiber has finished.
  unfoldable pub handle_end : FiberClosure → Server W M → Outcome (Bool × Server W M)
  handle_end clo s = do
    s' ← notified s (wasio_close host s.wasio clo.fd)
    old ← read s'.fibers clo.fd
    fibers ← write s'.fibers clo.fd (record old { fd = minus_one })
    done (
      true,
      record s' {
        memory = env.fiber_free s'.memory clo.fiber;
        fibers = fibers;
        clients = sub32 s'.clients 1;
      },
    )

  -- Whether the server goes on.
  unfoldable pub handle_request :
      FiberClosure → FiberResult → Server W M → Outcome (Bool × Server W M)
  handle_request clo fiber_ok s = handle_end clo s
  handle_request clo fiber_error s = aborted
  handle_request clo fiber_yield s = handle_yield clo s.cmd.tag s

  -- The loop over the ready fibers, from `i`, for at most `fuel` rounds; `false` once a request ends
  -- the server.
  unfoldable pub run_ready : ℕ → ℕ → Server W M → Outcome (Option (Bool × Server W M))
  run_ready zero i s = if ltb i s.frontq.length then done none else done (some (true, s))
  run_ready (suc fuel) i s =
      let one = read s.frontq.q (pos i) >>= λ clo.
      (let r = env.fiber_resume s clo.fiber clo.fd in
        handle_request clo r.0 r.1 >>= λ h.
        (let rest = run_ready fuel (i + 1) h.1 in
          if h.0 then rest else done (some (false, h.1)))) in
      if ltb i s.frontq.length then one else done (some (true, s))

  -- Entry `i` after a poll; its fiber is the one that `fibers` has for it.
  unfoldable pub run_event : ℕ → Server W M → Outcome (Bool × Server W M)
  run_event i s = do
    entry ← read s.wasio.wfd.vfds (pos i)
    let woken = write s.wasio.wfd.vfds (pos i) (record entry { revents = 0 }) >>= λ vfds.
        read s.fibers (pos i) >>= λ clo.
        (let wasio = record (s.wasio) { wfd = record (s.wasio.wfd) { vfds = vfds } } in
          let r = env.fiber_resume (record s { wasio = wasio }) clo.fiber (pos 0) in
          read r.1.fibers (pos i) >>= λ clo'. handle_request clo' r.0 r.1)
    if eq_ℤ entry.fd minus_one || (entry.revents == 0) then done (true, s) else woken

  -- The loop over the entries, from `i`, while `i` is below `wfd.length`.
  unfoldable pub run_events : ℕ → ℕ → Server W M → Outcome (Option (Bool × Server W M))
  run_events zero i s = if ltb i s.wasio.wfd.length then done none else done (some (true, s))
  run_events (suc fuel) i s =
      let one = run_event i s >>= λ h.
      (let rest = run_events fuel (i + 1) h.1 in if h.0 then rest else done (some (false, h.1))) in
      if ltb i s.wasio.wfd.length then one else done (some (true, s))

  -- The swap of the queues, with the new rear queue emptied.
  abbrev pub swapped : Server W M → Server W M
  swapped s =
      let queues = fq_swap (s.frontq, s.rearq) in
      record s { frontq = queues.0; rearq = record (queues.1) { length = 0 } }

  -- The poll and what follows it in a round.
  unfoldable pub poll_events : ℕ → Server W M → Outcome (Option (Bool × Server W M))
  poll_events fuel s = do
    let r = wasio_poll host s.wasio 0 (pos 100)
    assert (is_ok r.0)
    let s' = record s { wasio = r.2 }
    let woken = run_events fuel 0 s'
    (if ltb 0 r.1 then woken else done (some (true, s'))) >>? λ h. done (some (h.0, swapped h.1))

  -- One round of the server: whether there is another, and the server.
  unfoldable pub round : ℕ → Server W M → Outcome (Option (Bool × Server W M))
  round fuel s = run_ready fuel 0 s >>? λ h.
      (let polled = poll_events fuel h.1 in if h.0 then polled else done (some (false, h.1)))

  unfoldable pub server_loop : ℕ → ℕ → Server W M → Outcome (Option (Server W M))
  server_loop zero fuel s = done none
  server_loop (suc rounds) fuel s = round fuel s >>? λ h.
      (let rest = server_loop rounds fuel h.1 in if h.0 then rest else done (some h.1))

  -- Entry `i` when the server ends.
  unfoldable pub kill : ℕ → Server W M → Outcome (Server W M)
  kill i s = do
    clo ← read s.fibers (pos i)
    let r = env.fiber_resume s clo.fiber fiber_kill_signal
    let killed = assert (is_finished r.0) >> read r.1.fibers (pos i) >>= λ now.
        write r.1.fibers (pos i) (record now { fd = minus_one }) >>= λ fibers. done (record (r.1) {
          fibers = fibers;
          memory = env.free r.1.memory now.fiber;
          clients = if i == 0 then r.1.clients else sub32 r.1.clients 1;
        })
    if eq_ℤ clo.fd minus_one then done s else killed

  unfoldable pub kill_all : ℕ → ℕ → Server W M → Outcome (Server W M)
  kill_all zero i s = done s
  kill_all (suc count) i s = kill i s >>= kill_all count (i + 1)
