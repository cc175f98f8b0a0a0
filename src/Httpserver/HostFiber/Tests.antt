-- ===== src/Httpserver/HostFiber/Tests.antt =====
-- examples/httpserver/httpserver_fiber.c: the theorems on small arrays.
use waeio.Prelude.{
  Option, ℕ, zero, suc, ◌+◌, ◌<◌, ◌≡◌, ◌≢◌, refl, arith, false, ℤ, pos, minus_one, [], ◌∷◌, get_or,
  done, some,
}
use waeio.Wasio.{Pollfd}
use waeio.Waeio.{fiber_yield}
use waeio.Httpserver.Sample.{counting, counting-Drains, short, short-IsResult, short-ResponsesFit}
use waeio.Httpserver.Request.Answers.{ResponsesFit}
use waeio.Wasio.Table.Calls.{PollsInPlace}
use waeio.Httpserver.WasioFiber.{FiberClosure}
use waeio.Httpserver.HostFiber.{Server, Platform, close_all, request_loop}
use waeio.Httpserver.HostFiber.Coroutines.{listener, handle_connection}
use waeio.Httpserver.HostFiber.Bounds.{none_here, Fits}
use waeio.Httpserver.HostFiber.Growing.{Listened}
use waeio.Httpserver.HostFiber.Listening.{listener-Listened}
use waeio.Httpserver.HostFiber.Safe.{KeepsEntries}
use waeio.Httpserver.HostFiber.Rounds.{Serves, request_loop-Serves}
use waeio.Httpserver.HostFiber.Receiving.{Handled, handle_connection-Handled}
use waeio.Httpserver.HostFiber.Closing.{StopsQuietly, stop_each, close_all-half}

abbrev entry : ℤ → Pollfd
entry fd = record { fd = fd; events = 1; revents = 1 }

abbrev fiber_of : ℕ → FiberClosure
fiber_of n = record { fiber = n; fd = pos n }

-- Fibers that yield whatever they are resumed with.
abbrev platform : Platform ℕ ℕ
platform = record {
  pollin = 1;
  pollhup = 16;
  max_connections = 4;
  fiber_alloc = λ m. (m, m + 1);
  fiber_free = λ m fiber. m;
  fiber_resume = λ s fiber v. (fiber_yield, s);
}

-- The listener and two connections; a third is waiting.
abbrev server : Server ℕ ℕ
server = record {
  world = 1;
  host_errno = pos 0;
  fds = entry (pos 4) ∷ entry (pos 5) ∷ entry (pos 6) ∷ entry minus_one ∷ [];
  nfds = 3;
  fibers = fiber_of 4 ∷ fiber_of 5 ∷ fiber_of 6 ∷ fiber_of 0 ∷ [];
  end_server = false;
  memory = 9;
}

server-Fits : Fits counting platform server
server-Fits = record { fds_room = refl; fibers_room = refl; within = omega arith }

listener-Listened_example :
    Listened counting platform (pos 4) server (listener counting platform 1 (pos 4) server)
listener-Listened_example =
    listener-Listened counting platform 1 (pos 4) server server-Fits (omega arith) (omega arith)
      (λ e. cc)

platform-StopsQuietly : StopsQuietly platform
platform-StopsQuietly = record {
  same_fds = λ s fiber. refl;
  same_fibers = λ s fiber. refl;
  same_nfds = λ s fiber. refl;
}

all_open : (j : ℕ) → j < 3 → (get_or server.fds j none_here).fd ≢ minus_one
all_open zero lt = λ e. cc
all_open (suc zero) lt = λ e. cc
all_open (suc (suc zero)) lt = λ e. cc
all_open (suc (suc (suc j))) lt = absurd (omega (arith, lt))

close_all-half_example :
    (close_all counting platform 2 0 server ≡ done (some (stop_each counting platform 2 0 server)))
    × ((stop_each counting platform 2 0 server).nfds ≡ 1)
close_all-half_example =
    close_all-half counting platform 2 server platform-StopsQuietly (omega arith) server-Fits
      all_open (omega arith)

platform-KeepsEntries : KeepsEntries counting platform
platform-KeepsEntries = record { fits = λ s fiber v f. f; no_fewer = λ s fiber v. omega arith }

counting-PollsInPlace : PollsInPlace counting
counting-PollsInPlace = record {
  same_length = λ w fds n timeout. refl;
  same_fd = λ w fds n timeout e. refl;
}

request_loop-Serves_example :
    (o : Option (Server ℕ ℕ)) × (request_loop counting platform 2 server ≡ done o)
    × Serves counting platform o
request_loop-Serves_example =
    request_loop-Serves counting platform 2 server platform-KeepsEntries counting-PollsInPlace
      (omega arith) server-Fits

short-fits : ResponsesFit short 8192
short-fits =
    let f = short-ResponsesFit in
    record {
      word = omega arith;
      served_fits = omega (arith, f.served_fits);
      bye_fits = omega (arith, f.bye_fits);
      not_found_fits = omega (arith, f.not_found_fits);
      bad_fits = omega (arith, f.bad_fits);
      too_large_fits = omega (arith, f.too_large_fits);
    }

handle_connection-Handled_example :
    Handled counting short
      (λ w. w)
      (pos 5)
      server
      (handle_connection counting short 2 (pos 5) server)
handle_connection-Handled_example =
    handle_connection-Handled counting short (λ w. w) 2 (pos 5) server counting-Drains
      short-IsResult short-fits (omega arith) (λ e. cc)
