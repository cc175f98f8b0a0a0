-- ===== src/Httpserver/Queued/Tests.antt =====
-- examples/httpserver/httpserver.c: the theorems on a small server.
use waeio.Prelude.{Outcome, Option, ℕ, ◌+◌, ◌≡◌, ◌≢◌, ◌⊎◌, refl, arith, pos, [], ◌∷◌, some, done}
use waeio.Wasio.{ok, eagain, Host}
use waeio.Wasio.Table.{State}
use waeio.Wasio.Sample.{toy, one_open, one_open-IsTable}
use waeio.Waeio.{FiberResult, fiber_error, fiber_yield}
use waeio.Httpserver.Sample.{counting}
use waeio.Httpserver.WasioFiber.{FiberClosure}
use waeio.Httpserver.WasioFiber.Coroutines.{Stop, yields, for_room, for_connection}
use waeio.Httpserver.Queued.{
  FiberQueue, Server, Platform, recv, yield, handle_request, handle_yield,
}
use waeio.Httpserver.Queued.Coroutines.{
  Service, ConnectionWait, receiving, sending, at_call, commands, w_accept, listen_on,
  connection_resumed,
}
use waeio.Httpserver.Queued.Queues.{IsQueue}
use waeio.Httpserver.Queued.Taking.{Ready, Accepted}
use waeio.Httpserver.Queued.Accepting.{listen_on-Accepted}
use waeio.Httpserver.Queued.Waiting.{Blocks, status_of, connection_waits_again}

abbrev closure : FiberClosure
closure = record { fiber = 3; fd = pos 0 }

abbrev empty_queue : FiberQueue
empty_queue = record { capacity = 2; length = 0; q = closure ∷ closure ∷ [] }

empty_queue-IsQueue : IsQueue empty_queue
empty_queue-IsQueue = record { room = refl; within = omega arith; word = omega arith }

-- The listener is descriptor 0 of the table; fibers yield.
abbrev platform : Platform ℕ ℕ
platform = record {
  max_connections = 3;
  fiber_alloc = λ m. (m, m + 1);
  fiber_free = λ m fiber. m;
  free = λ m fiber. m;
  fiber_resume = λ s fiber v. (fiber_yield, s);
}

abbrev server : ℕ → Server ℕ ℕ
server clients = record {
  wasio = one_open;
  frontq = empty_queue;
  rearq = empty_queue;
  fibers = closure ∷ closure ∷ closure ∷ [];
  cmd = record { tag = yield; fd = pos 0 };
  clients = clients;
  memory = 9;
}

server-Ready : Ready toy platform 0 2 (server 0)
server-Ready = record {
  table = one_open-IsTable;
  below = omega arith;
  rear = empty_queue-IsQueue;
  space = omega arith;
  countable = omega arith;
}

listen_on-Accepted_example :
    ((◌≡◌ {A = ℕ} 0 2)
      × (listen_on toy platform (pos 0) (server 0)
          ≡ done (yields for_room, commands yield (pos 0) (server 0))))
    ⊎ ((◌≢◌ {A = ℕ} 0 2)
        × (a : Accepted toy platform 0 2 (server 0) (w_accept toy platform 2 (pos 0) (server 0)))
        × (listen_on toy platform (pos 0) (server 0)
            ≡ done (yields for_connection, commands recv (pos 0) a.final)))
listen_on-Accepted_example =
    listen_on-Accepted toy platform 0 (server 0) (omega arith) (omega arith) server-Ready

abbrev service : Service
service = record {
  parse = λ buf len prev n. record { rc = pos 1; num_headers = 1; path = 47 ∷ [] };
  date = [];
  decimal = λ n. 48 ∷ [];
  response_body = 104 ∷ [];
}

-- The same table on a host that has nothing to receive.
abbrev idle : State ℕ
idle = record one_open { world = 0; host_errno = pos 0 }

abbrev idle' : State ℕ
idle' = record one_open { world = 0; host_errno = pos 11 }

blocked : Blocks counting (pos 0) 0 idle idle'
unfolding waeio.Wasio.Table.wasio_recv waeio.Wasio.translate_error
blocked = (0, refl)

connection_waits_again_example :
    (s' : Server ℕ ℕ) × (connection_resumed counting service 1
        (at_call (receiving [] 0 1))
        (pos 0)
        (pos 0)
        (record (server 1) { wasio = idle })
      ≡ done (some (yields (at_call (receiving [] 0 1)), s')))
    × (handle_request counting platform closure fiber_yield s' ≡ handle_yield closure yield s')
    × (s'.cmd ≡ (server 1).cmd)
connection_waits_again_example =
    connection_waits_again counting service platform closure 0 (pos 0) (pos 0) [] 0 1
      (record (server 1) { wasio = idle }) idle' (λ e. cc) blocked

-- Fibers that are connections which wait to send, and end when they are resumed.
abbrev outcome_of :
    Server ℕ ℕ → Outcome (Option (Stop ConnectionWait × Server ℕ ℕ)) → FiberResult × Server ℕ ℕ
outcome_of s (done (some (stop, s'))) = (status_of stop, s')
outcome_of s _ = (fiber_error, s)

abbrev sending_ok : ConnectionWait
sending_ok = at_call (sending (pos 1) [] (pos 0))

abbrev connections : Platform ℕ ℕ
connections = record platform {
  fiber_resume = λ s fiber code.
      outcome_of s (connection_resumed counting service 1 sending_ok (pos 0) code s);
}
