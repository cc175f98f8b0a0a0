-- ===== src/Httpserver/WasioFiber/Main.antt =====
-- examples/httpserver/httpserver_wasio_fiber.c: `main`, in a build without DEBUG.
use waeio.Prelude.{
  ℕ, zero, suc, ◌*◌, false, ℤ, pos, minus_one, Option, some, none, replicate, if◌then◌else◌,
  Outcome, done, ◌>>=◌, ◌>>?◌, write,
}
use waeio.Wasio.{Host}
use waeio.Wasio.Poll.{State, static_initializer, wasio_listen}
use waeio.Httpserver.WasioFiber.{Server, Platform, is_ok, request_round, close_all}

module _ {W M : Type 0} (host : Host W) (env : Platform W M) where
  -- The request loop, for at most `fuel` rounds.
  unfoldable pub request_loop : ℕ → ℤ → Server W M → Outcome (Option (Server W M))
  request_loop zero timeout s = if s.end_server then done (some s) else done none
  request_loop (suc fuel) timeout s =
      let rest = request_round host env timeout s >>= request_loop fuel timeout in
      if s.end_server then done (some s) else rest

  -- The static structure of the backend, with every entry marked unused.
  unfoldable pub unused_entries : ℕ → W → ℤ → State W
  unused_entries max_connections world errno =
      let wfd = static_initializer max_connections in
      record {
        wfd = record wfd {
          fds = replicate wfd.capacity (record { fd = minus_one; events = 0; revents = 0 });
        };
        host_errno = errno;
        world = world;
      }

  -- The server when it enters its loop, or none if the program exits.
  unfoldable pub set_up : ℕ → State W → M → Outcome (Option (Server W M))
  set_up max_connections wasio memory = do
    listens ← wasio_listen host env.pollin wasio minus_one (pos 8080) (pos (max_connections * 2))
    let child = env.fiber_alloc memory
    let no_fibers = replicate max_connections (record { fiber = 0; fd = pos 0 })
    let serves = write no_fibers (pos 0) (record { fiber = child.0; fd = listens.1 }) >>= λ fibers.
        done (
          some (record {
            wasio = listens.2;
            fibers = fibers;
            end_server = false;
            fd = minus_one;
            memory = child.1;
          }))
    if is_ok listens.0 then serves else done none

  -- The exit status, with the server where there is one. `memory` is that of the fibers after
  -- `fiber_init`.
  unfoldable pub main : ℕ → ℤ → M → W → ℤ → ℕ → Outcome (Option (ℤ × Option (Server W M)))
  main max_connections timeout memory world errno fuel =
      set_up max_connections (unused_entries max_connections world errno) memory >>= λ o. elim o [
        | none ↦ done (some (minus_one, none))
        | some s ↦ request_loop fuel timeout s >>? λ t.
            close_all host env t.wasio.wfd.length 0 t >>= λ u. done (some (pos 0, some u))
      ]
