-- ===== src/Httpserver/Queued/Main.antt =====
-- examples/httpserver/httpserver.c: `main`.
use waeio.Prelude.{
  ℕ, Bool, ◌&&◌, pos, minus_one, eq_ℤ, List, Option, some, replicate, ◌==◌, Outcome, done, ◌>>=◌,
  ◌>>◌, ◌>>?◌, assert, write,
}
use waeio.Wasio.{Host}
use waeio.Wasio.Table.{State, Exports, Wfd, wasio_init, wasio_listen, wasio_finalize}
use waeio.Httpserver.WasioFiber.{FiberClosure, is_ok}
use waeio.Httpserver.Queued.{
  Server, Platform, async, cmd_make, fq_new, fq_push, server_loop, kill_all,
}

-- What the run finds: the outcomes of the calls of `malloc` for the queues and in `wasio_init`.
pub record Start : Type 0 where
  pub front_block : Option (List FiberClosure)
  pub rear_block : Option (List FiberClosure)
  pub fl_memory : Bool
  pub vfds_memory : Bool
  pub fds_memory : Bool

module _ {W M : Type 0} (host : Host W) (env : Platform W M) (exports : Exports)
    (start : Start) where
  -- The server when it enters its loop; `memory` is that of the fibers after `fiber_init`.
  unfoldable pub set_up : State W → M → Outcome (Server W M)
  set_up wasio memory = do
    frontq ← fq_new env.max_connections start.front_block
    rearq ← fq_new env.max_connections start.rear_block
    init ←
        wasio_init exports wasio env.max_connections start.fl_memory start.vfds_memory
          start.fds_memory
    assert (is_ok init.0)
    listens ← wasio_listen host init.1 minus_one (pos 8080) (pos 1000)
    assert (is_ok listens.0 && eq_ℤ listens.1 (pos 0))
    let lfiber = env.fiber_alloc memory
    let clo : FiberClosure = record { fiber = lfiber.0; fd = listens.1 }
    fibers ←
        write (replicate env.max_connections (record { fiber = 0; fd = minus_one })) listens.1 clo
    frontq' ← fq_push frontq clo
    done (record {
      wasio = listens.2;
      frontq = frontq';
      rearq = rearq;
      fibers = fibers;
      cmd = cmd_make async (pos 0);
      clients = 0;
      memory = lfiber.1;
    })

  -- The structure of the backend when the server has ended.
  unfoldable pub main : State W → M → ℕ → ℕ → Outcome (Option Wfd)
  main wasio memory rounds fuel = set_up wasio memory >>= λ s.
      server_loop host env rounds fuel s >>? λ t. kill_all host env env.max_connections 0 t >>= λ u.
      assert (u.clients == 0) >> wasio_finalize u.wasio.wfd >>= λ wfd. done (some wfd)
