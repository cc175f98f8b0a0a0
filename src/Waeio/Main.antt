-- ===== src/Waeio/Main.antt =====
-- src/waeio.c: `waeio_main`.
use waeio.Prelude.{
  ℕ, Bool, true, false, ℤ, pos, List, Option, some, none, replicate, to_u32, Outcome, done, ◌>>=◌,
  ◌>>◌, assert, write,
}
use waeio.Wasio.{WasioResult, ok, Host}
use waeio.Wasio.Table.{State, Exports, wasio_init, wasio_listen, wasio_close, wasio_finalize}
use waeio.Waeio.{Queue, queue_push, Fibers, Ctl, scheduling_loop}

-- `res == WASIO_OK`
abbrev pub is_ok : WasioResult → Bool
is_ok ok = true
is_ok _ = false

-- What the run finds: the blocks that `malloc` gives for the two queues, the outcomes of the three
-- calls of `malloc` in `wasio_init`, the contents and the address of `servsock`, and the address of
-- the variable `status`.
pub record Start : Type 0 where
  pub max_connections : ℕ
  pub front_block : Queue
  pub rear_block : Queue
  pub fl_memory : Bool
  pub vfds_memory : Bool
  pub fds_memory : Bool
  pub servsock : ℤ
  pub servsock_address : ℤ
  pub status_address : ℤ
  pub uninit : ℕ

module _ {W M : Type 0} (lib : Fibers W M) (host : Host W) (exports : Exports)
    (event_foreach : State W → ℕ → List ℕ) (start : Start) where
  -- `ctl` before the scheduling loop, the handle of the main fiber, and the listening descriptor.
  unfoldable pub set_up : State W → M → ℤ → Outcome (Ctl W M × ℕ × ℤ)
  set_up wasio memory listener = do
    init ←
        wasio_init exports wasio start.max_connections start.fl_memory start.vfds_memory
          start.fds_memory
    assert (is_ok init.0)
    listens ← wasio_listen host init.1 start.servsock (pos 8080) (pos 1000)
    assert (is_ok listens.0)
    let mainfiber = lib.fiber_alloc memory listener
    fibers ← write (replicate start.max_connections 0) (pos (to_u32 listens.1)) mainfiber.0
    done (
      record {
        nconns = 1;
        max_conns = start.max_connections;
        frontq =
            queue_push start.front_block
              (record { fiber = mainfiber.0; arg = start.servsock_address });
        rearq = start.rear_block;
        wasio = listens.2;
        fibers = fibers;
        memory = mainfiber.1;
      },
      mainfiber.0,
      listens.1,
    )

  -- The result of the close is not looked at.
  unfoldable pub clean_up : Ctl W M → ℕ → ℤ → Outcome (Ctl W M)
  clean_up ctl mainfiber servsock = do
    let memory = lib.fiber_free ctl.memory mainfiber
    closed ← wasio_close host ctl.wasio servsock
    wfd ← wasio_finalize closed.1.wfd
    done (record ctl { memory = memory; wasio = record (closed.1) { wfd = wfd } })

  -- `waeio_main` for at most `fuel` rounds: its result, and what `ctl` is then.
  unfoldable pub waeio_main : ℕ → State W → M → ℤ → Outcome (Option (ℤ × Ctl W M))
  waeio_main fuel wasio memory listener = do
    ready ← set_up wasio memory listener
    ends ← scheduling_loop lib host event_foreach start.status_address fuel start.uninit ready.0
    finish ready ends
    where
      finish : Ctl W M × ℕ × ℤ → Option (Ctl W M) → Outcome (Option (ℤ × Ctl W M))
      finish ready none = done none
      finish ready (some ctl) = clean_up ctl ready.1 ready.2 >>= λ ctl'. done (some (pos 0, ctl'))
