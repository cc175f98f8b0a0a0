-- ===== src/Httpserver/Queued/Waiting.antt =====
-- examples/httpserver/httpserver.c: a connection that has to wait more than once.
use waeio.Prelude.{ℕ, suc, ◌≡◌, ◌≢◌, refl, ℤ, eq_ℤ-ne, List, [], sub32, some, done, minus_one}
use waeio.Wasio.{eagain, Host}
use waeio.Wasio.Table.{State, wasio_recv}
use waeio.Driver.{write_bytes}
use waeio.Waeio.{FiberResult, fiber_ok, fiber_yield}
use waeio.Httpserver.WasioFiber.{FiberClosure, fiber_kill_signal}
use waeio.Httpserver.WasioFiber.Coroutines.{Stop, yields, returns}
use waeio.Httpserver.Queued.{Server, Platform, handle_request, handle_yield}
use waeio.Httpserver.Queued.Coroutines.{
  Service, ConnectionWait, receiving, at_call, buffer_size, goes, advance, converse, resumed,
  connection_resumed,
}

abbrev pub nobody : FiberClosure
nobody = record { fiber = 0; fd = minus_one }

-- The backend has nothing for `fd`, and stores nothing.
abbrev pub Blocks : {W : Type 0} → Host W → ℤ → ℕ → State W → State W → Type 0
Blocks host fd buflen w w' =
    (n : ℕ) × (wasio_recv host w fd (sub32 buffer_size buflen) 0 ≡ done (eagain, n, [], w'))

-- What `fiber_resume` reports of a fiber that stops so.
unfoldable pub status_of : Stop ConnectionWait → FiberResult
status_of (yields wait) = fiber_yield
status_of returns = fiber_ok

module _ {W M : Type 0} (host : Host W) (http : Service) where
  -- `fiber` is a connection that waits at `wait` to be resumed: `fiber_resume` runs its code to where
  -- it stops, within `fuel` calls of the backend.
  unfoldable pub IsConnection : Platform W M → ℕ → ConnectionWait → ℤ → ℕ → Type 0
  IsConnection env fuel wait fd fiber =
      (code : ℤ) (s s' : Server W M) (stop : Stop ConnectionWait)
      → connection_resumed host http fuel wait fd code s ≡ done (some (stop, s'))
      → env.fiber_resume s fiber code ≡ (status_of stop, s')

  converse-waits :
      (fuel : ℕ) (fd : ℤ) (reqbuf : List ℕ) (buflen num_headers : ℕ) (s : Server W M) (w' : State W)
      → Blocks host fd buflen s.wasio w'
      → converse host http (suc fuel) (goes (receiving reqbuf buflen num_headers), s) fd
        ≡ done
            (some (yields (at_call (receiving reqbuf buflen num_headers)), record s { wasio = w' }))
  unfolding converse advance write_bytes
  converse-waits fuel fd reqbuf buflen num_headers s w' b = rw (b.1) refl

  -- A connection that waits for its request, is resumed and finds nothing again yields without setting
  -- the global command anew: the server then handles the command that any fiber left there last, for
  -- whatever descriptor that names.
  pub connection_waits_again :
      (env : Platform W M) (clo : FiberClosure) (fuel : ℕ) (fd code : ℤ) (reqbuf : List ℕ)
      (buflen num_headers : ℕ) (s : Server W M) (w' : State W)
      → code ≢ fiber_kill_signal
      → Blocks host fd buflen s.wasio w'
      → (s' : Server W M) × (connection_resumed host http
            (suc fuel)
            (at_call (receiving reqbuf buflen num_headers))
            fd
            code
            s
          ≡ done (some (yields (at_call (receiving reqbuf buflen num_headers)), s')))
        × (handle_request host env clo fiber_yield s' ≡ handle_yield clo s.cmd.tag s')
        × (s'.cmd ≡ s.cmd)
  unfolding connection_resumed resumed handle_request
  connection_waits_again env clo fuel fd code reqbuf buflen num_headers s w' ne b = (
    record s { wasio = w' },
    rw (eq_ℤ-ne code fiber_kill_signal ne)
        (converse-waits fuel fd reqbuf buflen num_headers s w' b),
    refl,
    refl,
  )
