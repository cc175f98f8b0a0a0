-- ===== src/Waeio/Tests.antt =====
-- src/waeio.c: the scheduler run with small fiber libraries, and the theorems at concrete states.
use waeio.Prelude.{
  inl, ℕ, zero, suc, ◌+◌, ◌≡◌, refl, arith, true, ℤ, pos, minus_one, List, [], ◌∷◌, some, none,
  done,
}
use waeio.Wasio.{RecvReply, Host}
use waeio.Wasio.Table.{State, wasio_poll}
use waeio.Wasio.Sample.{toy-PollsInPlace, toy, says, one_open, one_open-IsTable}
use waeio.Waeio.{
  suspend, recv, quit, Cmd, io_cmd, async_cmd, fiber_yield, FiberClosure, Queue, nil, wild, node,
  Fibers, Ctl, handle_request, handle_cmd, run_ready, scheduling_loop, enqueue, queue_push,
}
use waeio.Wasio.Table.{Exports}
use waeio.Waeio.Main.{Start, set_up}
use waeio.Waeio.Start.{SetUp, set_up-SetUp}
use waeio.Waeio.Requeueing.{IsEnded, AllSuspend}
use waeio.Waeio.Rounds.{Polls, PollsNothing, Rotated, run_next_suspends, scheduling_loop_idle}
use waeio.Waeio.Requests.{IsCtl, Handled, handle_request-Handled}
use waeio.Waeio.Loop.{NothingReady, Ending, scheduling_loop-Ending}
use waeio.Waeio.Ready.{FibersBehave, Ready, run_ready-Ready}
use waeio.Waeio.Api.{View, for_ready, waeio_accept}
use waeio.Waeio.Accepting.{Accepting, waeio_accept-Accepting}
use waeio.Waeio.Retrying.{NotKilled, ready, would_block, recv_run, recv_run_returns}

-- Fibers that yield one command forever; their memory counts the resumptions.
abbrev always : Cmd → Fibers ℕ ℕ
always cmd = record {
  fiber_alloc = λ m entry. (9, m);
  fiber_resume =
      λ m w fiber arg. record { status = fiber_yield; payload = cmd; wasio = w; memory = m + 1 };
  fiber_free = λ m fiber. m;
  free = λ m fiber. m;
}

abbrev suspending : Fibers ℕ ℕ
suspending = always (io_cmd suspend minus_one (pos 0))

abbrev clo : ℕ → FiberClosure
clo fiber = record { fiber = fiber; arg = pos 0 }

abbrev ctl_with : Queue → Ctl ℕ ℕ
ctl_with front = record {
  nconns = 1;
  max_conns = 2;
  frontq = front;
  rearq = nil;
  wasio = one_open;
  fibers = 5 ∷ 6 ∷ [];
  memory = 0;
}

abbrev two_ready : Ctl ℕ ℕ
two_ready = ctl_with (node (clo 5) (node (clo 6) nil))

-- No event, or always one for the descriptor 0.
abbrev no_events : State ℕ → ℕ → List ℕ
no_events w n = []

abbrev first_ready : State ℕ → ℕ → List ℕ
first_ready w n = 0 ∷ []

module _ (lib : Fibers ℕ ℕ) (vfds : List ℕ) where
  toy-Polls : (w : State ℕ) → Polls lib toy (λ w n. vfds) (pos 0) 0 w vfds
  unfolding wasio_poll
  toy-Polls w = record { nready = 0; after = w; answers = refl; visits = refl }

suspending-AllSuspend : AllSuspend suspending
unfolding AllSuspend
suspending-AllSuspend m w fiber arg = (refl, refl)

suspending_quiet : PollsNothing suspending toy no_events (pos 0) 0
unfolding PollsNothing
suspending_quiet w = toy-Polls suspending [] w

run_next_suspends_example : Rotated suspending toy no_events (pos 0) 0 two_ready
run_next_suspends_example =
    run_next_suspends suspending toy no_events (pos 0) 0 two_ready suspending-AllSuspend
      suspending_quiet (unfold IsEnded in tt) refl

scheduling_loop_idle_example :
    scheduling_loop suspending toy no_events (pos 0) 100 0 (ctl_with nil) ≡ done none
scheduling_loop_idle_example =
    scheduling_loop_idle suspending toy no_events (pos 0) 0 100 (ctl_with nil) suspending_quiet refl
      refl

-- The main fiber suspends itself, and the queue behind it was never set.
abbrev wild_start : Ctl ℕ ℕ
wild_start = ctl_with (node (clo 5) wild)

abbrev wild_after : Ctl ℕ ℕ
wild_after = record wild_start { frontq = wild; rearq = node (clo 5) nil; memory = 1 }

suspend_handled :
    handle_request suspending
      (record wild_start { frontq = wild; memory = 1 })
      5
      fiber_yield
      (io_cmd suspend minus_one (pos 0))
    ≡ done (true, wild_after)
unfolding handle_request handle_cmd enqueue queue_push
suspend_handled = refl

abbrev quitting : Fibers ℕ ℕ
quitting = always (io_cmd quit minus_one (pos 0))

-- A fiber waits to receive from 0, and the unset word holds 1.
two_ready-IsCtl : IsCtl two_ready
two_ready-IsCtl = record { table = one_open-IsTable; capacity_is = refl; room = refl }

handle_request-Handled_example :
    Handled suspending two_ready fiber_yield
      (async_cmd (pos 100) (pos 1))
      (handle_request suspending two_ready 5 fiber_yield (async_cmd (pos 100) (pos 1)))
handle_request-Handled_example =
    handle_request-Handled suspending two_ready 5 fiber_yield (async_cmd (pos 100) (pos 1))
      two_ready-IsCtl (omega arith)

-- Fibers that name the descriptor 0.
abbrev receiving : Fibers ℕ ℕ
receiving = always (io_cmd recv (pos 0) (pos 0))

receiving-FibersBehave : FibersBehave receiving
receiving-FibersBehave = record {
  keep_table = λ m w fiber arg t. t;
  keep_capacity = λ m w fiber arg. refl;
  name_entries = λ m w fiber arg t. omega (arith, t.invariant.positive, t.size_eq);
}

run_ready-Ready_example :
    Ready receiving two_ready.frontq two_ready (run_ready receiving two_ready.frontq two_ready none)
run_ready-Ready_example =
    run_ready-Ready receiving two_ready.frontq two_ready none receiving-FibersBehave two_ready-IsCtl
      (unfold IsEnded in tt) refl

-- A fiber accepts on the virtual descriptor 0.
abbrev view : View ℕ
view = record { errno = pos 0; nconns = 1; max_conns = 2; wasio = one_open }

waeio_accept-Accepting_example :
    Accepting toy 0
      (pos 0)
      view
      one_open-IsTable
      (omega arith)
      (pos 1)
      (pos 0)
      (waeio_accept toy (pos 0) (pos 0) for_ready (pos 1) (pos 0) view)
waeio_accept-Accepting_example =
    waeio_accept-Accepting toy 0 (pos 0) view one_open-IsTable (omega arith) for_ready (pos 1)
      (pos 0)

-- A host whose state counts down to the receive that does not block.
abbrev slow_recv : ℕ → ℤ → ℕ → RecvReply ℕ
slow_recv zero fd len = record { reply = says (pos 2) 0; bytes = 104 ∷ 105 ∷ [] }
slow_recv (suc w) fd len = record {
  reply = record { answer = minus_one; errno = some (pos 11); world = w };
  bytes = [];
}

abbrev slow : Host ℕ
slow = record toy { recv = slow_recv }

abbrev blocked_twice : View ℕ
blocked_twice = record view { wasio = record one_open { world = 2 } }

recv_run_returns_example :
    (v' : View ℕ) × (recv_run slow (pos 0) (pos 0) 16 (pos 1 ∷ pos 1 ∷ pos 1 ∷ []) blocked_twice
      ≡ done (some (pos 2), v'))
    × (v'.wasio.wfd ≡ one_open.wfd)
    × (v'.wasio.world ≡ 0)
recv_run_returns_example =
    recv_run_returns slow 0 (pos 0) 16 blocked_twice 2 2 0 (pos 1 ∷ pos 1 ∷ pos 1 ∷ [])
      one_open-IsTable (omega arith) (unfold NotKilled in (refl, (refl, (refl, tt)))) refl
      (would_block 2 1 0 refl refl (would_block 1 0 0 refl refl (ready 0 refl refl)))

-- `waeio_main` with two connections and a host that listens on its descriptor 8.
abbrev toy_exports : Exports
toy_exports name = 1

abbrev start : Start
start = record {
  max_connections = 2;
  front_block = nil;
  rear_block = nil;
  fl_memory = true;
  vfds_memory = true;
  fds_memory = true;
  servsock = pos 0;
  servsock_address = pos 1000;
  status_address = pos 2000;
  uninit = 0;
}

set_up-SetUp_example :
    SetUp suspending toy toy_exports no_events start one_open 0
      (pos 64)
      (set_up suspending toy toy_exports no_events start one_open 0 (pos 64))
set_up-SetUp_example =
    set_up-SetUp suspending toy toy_exports no_events start one_open 0 (pos 64) 8
      (record { fl = refl; vfds = refl; fds = refl; front = refl; rear = refl }) (omega arith)
      (omega arith) (inl (omega arith)) refl

no_events_ready : NothingReady receiving toy no_events (pos 0) 0
unfolding NothingReady
no_events_ready w n = refl

scheduling_loop-Ending_example :
    Ending receiving toy no_events
      (pos 0)
      0
      100
      two_ready
      (scheduling_loop receiving toy no_events (pos 0) 100 0 two_ready)
scheduling_loop-Ending_example =
    scheduling_loop-Ending receiving toy no_events (pos 0) 0 100 two_ready receiving-FibersBehave
      toy-PollsInPlace no_events_ready
      (record {
        invariant = two_ready-IsCtl;
        front_ended = unfold IsEnded in tt;
        rear_ended = unfold IsEnded in tt;
      })
