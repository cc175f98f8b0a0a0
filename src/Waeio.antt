-- ===== src/Waeio.antt =====
-- src/waeio.c: the scheduler of fibers, on the backend of src/wasio_host.c. The fiber library is a
-- parameter, and so are MAX_CONNECTIONS and the descriptors that WASIO_EVENT_FOREACH visits, which
-- the repository does not define. Allocations for queue nodes succeed.
pub mod Main
pub mod Api
pub mod Requeueing
pub mod Rounds
pub mod Requests
pub mod Ready
pub mod Accepting
pub mod Retrying
pub mod Start
pub mod Loop
mod Tests
use waeio.Prelude.{
  ℕ, zero, suc, Bool, true, false, ℤ, pos, negsuc, List, [], ◌∷◌, Option, some, none, replicate,
  sub32, add32, to_u32, if◌then◌else◌, Outcome, done, fault, aborted, ◌>>=◌, ◌>>◌, assert, read,
  write,
}
use waeio.Wasio.{WasioResult, ok, Host}
use waeio.Wasio.Table.{
  State, wasio_notify_recv, wasio_notify_send, wasio_poll, wasio_init, wasio_listen, wasio_close,
  wasio_finalize, Exports,
}

-- `enum cmd_tag`
pub data CmdTag : Type 0 where
  accept async suspend recv send quit : CmdTag

-- `cmd_t`: the tag and the two words of the union. The structure of an asynchronous command has
-- `entry` and `arg`; `vfd` of an I/O command shares the first word.
pub record Cmd : Type 0 where
  pub tag : CmdTag
  pub word0 : ℤ
  pub word1 : ℤ

-- `{ .tag = ASYNC, .entry = entry, .arg = arg }`
abbrev pub async_cmd : ℤ → ℤ → Cmd
async_cmd entry arg = record { tag = async; word0 = entry; word1 = arg }

-- `{ .tag = tag, .vfd = vfd }`: the word that `vfd` leaves is not set, and holds `unset`.
abbrev pub io_cmd : CmdTag → ℤ → ℤ → Cmd
io_cmd tag vfd unset = record { tag = tag; word0 = vfd; word1 = unset }

-- `cmd->entry` and `cmd->arg`
abbrev pub cmd_entry : Cmd → ℤ
cmd_entry cmd = cmd.word0

abbrev pub cmd_arg : Cmd → ℤ
cmd_arg cmd = cmd.word1

-- `fiber_result_t`
pub data FiberResult : Type 0 where
  fiber_ok fiber_error fiber_yield : FiberResult

-- `struct fiber_closure`; a fiber is a handle, an argument a word.
pub record FiberClosure : Type 0 where
  pub fiber : ℕ
  pub arg : ℤ

-- The nodes behind a `struct queue`: the list ends with NULL, or with a pointer that was never set.
pub data Queue : Type 0 where
  nil wild : Queue
  node : FiberClosure → Queue → Queue

unfoldable pub queue_push : Queue → FiberClosure → Queue
queue_push q clo = node clo q

unfoldable pub queue_pop : Queue → Outcome (FiberClosure × Queue)
queue_pop (node clo q) = done (clo, q)
queue_pop nil = fault
queue_pop wild = fault

unfoldable pub queue_is_empty : Queue → Outcome Bool
queue_is_empty nil = done true
queue_is_empty (node clo q) = done false
queue_is_empty wild = fault

-- What a fiber leaves when it stops: `payload` is what the pointer that it yields leads to.
pub record Resumed (W M : Type 0) : Type 0 where
  pub status : FiberResult
  pub payload : Cmd
  pub wasio : State W
  pub memory : M

-- The fiber library and the fibers, with their memory; a fiber may call the backend.
pub record Fibers (W M : Type 0) : Type 0 where
  pub fiber_alloc : M → ℤ → ℕ × M
  pub fiber_resume : M → State W → ℕ → ℤ → Resumed W M
  pub fiber_free : M → ℕ → M
  pub free : M → ℕ → M

-- `struct waeio_ctl`, with the globals of the backend, and the memory of the fibers. The member `ev`,
-- which the backends do not read, is left out.
pub record Ctl (W M : Type 0) : Type 0 where
  pub nconns : ℕ
  pub max_conns : ℕ
  pub frontq : Queue
  pub rearq : Queue
  pub wasio : State W
  pub fibers : List ℕ
  pub memory : M

-- Where `fiber_resume` is told to store its outcome.
pub data StatusPtr : Type 0 where
  null_status status_variable : StatusPtr

module _ {W M : Type 0} where
  unfoldable pub queue_swap : Ctl W M → Ctl W M
  queue_swap ctl = record ctl { frontq = ctl.rearq; rearq = ctl.frontq }

  -- `queue_push(ctl.rearq, ...)`
  unfoldable pub enqueue : Ctl W M → ℕ → ℤ → Ctl W M
  unfolding queue_push
  enqueue ctl fiber arg = record ctl {
    rearq = queue_push ctl.rearq (record { fiber = fiber; arg = arg });
  }

  abbrev pub with_wasio : Ctl W M → State W → Ctl W M
  with_wasio ctl w = record ctl { wasio = w }

module _ {W M : Type 0} (lib : Fibers W M) where
  unfoldable pub handle_cmd : Ctl W M → ℕ → CmdTag → Cmd → Outcome (Bool × Ctl W M)
  unfolding enqueue
  handle_cmd ctl yieldee async cmd = do
    let vfd = to_u32 (cmd_arg cmd)
    let child = lib.fiber_alloc ctl.memory (cmd_entry cmd)
    fibers ← write ctl.fibers (pos vfd) child.0
    let ctl' = enqueue (record ctl { fibers = fibers; memory = child.1 }) child.0 (pos vfd)
    done (true, enqueue ctl' yieldee (pos 0))
  handle_cmd ctl yieldee suspend cmd = done (true, enqueue ctl yieldee (pos 0))
  handle_cmd ctl yieldee accept cmd = do
    r ← wasio_notify_recv ctl.wasio (pos (to_u32 (cmd_arg cmd)))
    done (true, with_wasio ctl r.1)
  handle_cmd ctl yieldee recv cmd = do
    r ← wasio_notify_recv ctl.wasio (pos (to_u32 (cmd_arg cmd)))
    done (true, with_wasio ctl r.1)
  handle_cmd ctl yieldee send cmd = do
    r ← wasio_notify_send ctl.wasio (pos (to_u32 (cmd_arg cmd)))
    done (true, with_wasio ctl r.1)
  handle_cmd ctl yieldee quit cmd = done (false, ctl)

  -- A finished fiber is freed.
  unfoldable pub handle_request : Ctl W M → ℕ → FiberResult → Cmd → Outcome (Bool × Ctl W M)
  unfolding handle_cmd
  handle_request ctl yieldee fiber_ok payload =
      done (true, record ctl { nconns = sub32 ctl.nconns 1; memory = lib.free ctl.memory yieldee })
  handle_request ctl yieldee fiber_error payload = aborted
  handle_request ctl yieldee fiber_yield payload = handle_cmd ctl yieldee payload.tag payload

  -- A resumption: the outcome is stored through the pointer.
  unfoldable pub resume : Ctl W M → ℕ → ℤ → StatusPtr → Outcome (FiberResult × Cmd × Ctl W M)
  resume ctl fiber arg null_status = fault
  resume ctl fiber arg status_variable =
      let r = lib.fiber_resume ctl.memory ctl.wasio fiber arg in
      done (r.status, r.payload, record ctl { wasio = r.wasio; memory = r.memory })

  -- The first loop of `run_next`. Its first argument is the front queue, from which the body takes
  -- one node; nothing else puts nodes there. `status` is what the variable holds, once it is set.
  unfoldable pub run_ready :
      Queue → Ctl W M → Option FiberResult → Outcome (Bool × Option FiberResult × Ctl W M)
  unfolding resume
  run_ready nil ctl status = done (true, status, ctl)
  run_ready wild ctl status = fault
  run_ready (node clo q) ctl status = do
    r ← resume (record ctl { frontq = q }) clo.fiber clo.arg status_variable
    next ← handle_request r.2 clo.fiber r.0 r.1
    let rest = run_ready q next.1 (some r.0)
    if next.0 then rest else done (false, some r.0, next.1)

  -- The second loop, over the descriptors that are ready: the call passes the address of `status`
  -- as the argument and NULL as the pointer for the outcome.
  unfoldable pub run_events :
      ℤ → Option FiberResult → Bool → List ℕ → Ctl W M → Outcome (Bool × Ctl W M)
  unfolding resume handle_request
  run_events status_address status keep_going [] ctl = done (keep_going, ctl)
  run_events status_address none keep_going (vfd ∷ vfds) ctl = do
    fiber ← read ctl.fibers (pos vfd)
    r ← resume ctl fiber status_address null_status
    fault
  run_events status_address (some status) keep_going (vfd ∷ vfds) ctl = do
    fiber ← read ctl.fibers (pos vfd)
    r ← resume ctl fiber status_address null_status
    next ← handle_request r.2 fiber status r.1
    let rest = run_events status_address (some status) keep_going vfds next.1
    if next.0 then rest else done (false, next.1)

  module _ (host : Host W) (event_foreach : State W → ℕ → List ℕ) (status_address : ℤ) where
    unfoldable pub poll_events :
        Option FiberResult → Bool → Ctl W M → WasioResult × ℕ × State W → Outcome (Bool × Ctl W M)
    unfolding run_events
    poll_events status keep_going ctl (ok, nready, w) =
        run_events status_address status keep_going (event_foreach w nready) (with_wasio ctl w)
    poll_events status keep_going ctl (_, nready, w) = done (false, with_wasio ctl w)

    -- `uninit` is what `nready` holds before the poll.
    unfoldable pub run_next : ℕ → Ctl W M → Outcome (Bool × Ctl W M)
    unfolding run_ready poll_events
    run_next uninit ctl = do
      ran ← run_ready ctl.frontq ctl none
      let ctl' = queue_swap ran.2
      poll_events ran.1 ran.0 ctl' (wasio_poll host ctl'.wasio uninit (pos 0))

    -- The scheduling loop, for at most `fuel` rounds.
    unfoldable pub scheduling_loop : ℕ → ℕ → Ctl W M → Outcome (Option (Ctl W M))
    unfolding run_next
    scheduling_loop zero uninit ctl = done none
    scheduling_loop (suc fuel) uninit ctl = do
      next ← run_next uninit ctl
      let rest = scheduling_loop fuel uninit next.1
      if next.0 then rest else done (some next.1)
