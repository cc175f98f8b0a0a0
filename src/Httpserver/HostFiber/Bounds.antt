-- ===== src/Httpserver/HostFiber/Bounds.antt =====
-- examples/httpserver/httpserver_fiber.c: the bounds of its arrays.
use waeio.Prelude.{◌≤◌, ◌≡◌, minus_one, length}
use waeio.Wasio.{Pollfd, Host}
use waeio.Httpserver.WasioFiber.{FiberClosure}
use waeio.Httpserver.HostFiber.{Server, Platform}

abbrev pub none_here : Pollfd
none_here = record { fd = minus_one; events = 0; revents = 0 }

abbrev pub no_fiber : FiberClosure
no_fiber = record { fiber = 0; fd = minus_one }

module _ {W M : Type 0} (host : Host W) (env : Platform W M) where
  -- Both arrays have the size that the code assumes, and the entries in use are within it.
  pub record Fits (s : Server W M) : Type 0 where
    pub fds_room : length s.fds ≡ env.max_connections
    pub fibers_room : length s.fibers ≡ env.max_connections
    pub within : s.nfds ≤ env.max_connections
