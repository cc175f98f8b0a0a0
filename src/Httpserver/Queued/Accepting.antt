-- ===== src/Httpserver/Queued/Accepting.antt =====
-- examples/httpserver/httpserver.c: the listener at the head of its loop.
use waeio.Prelude.{
  ℕ, ◌-◌, ◌<◌, ◌≤◌, ◌≡◌, ◌≢◌, ◌⊎◌, refl, arith, inl, inr, false, pos, sub32, u32_mod, Bool-cases,
  done, ◌==◌, ==_iff, ◌*◌,
}
use waeio.Wasio.{Host}
use waeio.Httpserver.WasioFiber.Coroutines.{yields, for_room, for_connection}
use waeio.Httpserver.Queued.{yield, Server, Platform, recv}
use waeio.Httpserver.Queued.Coroutines.{w_accept, listen_on, commands, max_clients}
use waeio.Httpserver.Queued.Taking.{Ready, Accepted, w_accept-Accepted}

module _ {W M : Type 0} (host : Host W) (env : Platform W M) (e : ℕ) where
  -- What the listener does at the head of its loop.
  abbrev pub room_for : Server W M → ℕ
  room_for s = max_clients env - s.clients - s.clients

  -- With at most `max_clients` clients and room in the rear queue for `max_clients - 2 * clients`
  -- fibers, the listener makes no access out of range and no assertion fails. If there are
  -- `max_clients` clients it asks to run again, and changes nothing else. Otherwise it takes
  -- connections from the host, one after the other, until there are `max_clients - 2 * clients` of
  -- them, the host refuses, or the table is full: not the `max_clients - clients` that are free,
  -- since the count it raises is the one it compares with. Each connection gets a descriptor of the
  -- table and a new fiber, which waits in the rear queue behind the others and is counted, while the
  -- array of closures stays as it was, without an entry for the new descriptors. Then the listener
  -- asks to wait for its own descriptor.
  pub listen_on-Accepted :
      (s : Server W M)
      → s.clients ≤ max_clients env
      → max_clients env < u32_mod
      → Ready host env e (room_for s) s
      → ((s.clients ≡ max_clients env)
          × (listen_on host env (pos e) s ≡ done (yields for_room, commands yield (pos 0) s)))
        ⊎ ((s.clients ≢ max_clients env)
            × (a : Accepted host env e (room_for s) s (w_accept host env (room_for s) (pos e) s))
            × (listen_on host env (pos e) s
                ≡ done (yields for_connection, commands recv (pos e) a.final)))
  unfolding listen_on
  listen_on-Accepted s most word r =
      let a = w_accept-Accepted host env e (room_for s) s r in
      let left : sub32 (max_clients env) s.clients - s.clients ≡ room_for s =
        omega (arith, most, word) in
      elim (Bool-cases (s.clients == max_clients env)) [
        | inl full ↦ inl ((==_iff _ _).0 full, rw full refl)
        | inr free ↦
            let ne : (s.clients ≢ max_clients env) = ground (arith) in
            inr (ne, a, rw (free, left, a.returns) refl)
      ]

  -- As soon as half of the clients that the server has room for are connected, the listener accepts
  -- no further connection, however many wait: it does not even ask the host.
  pub listen_on_starves :
      (s : Server W M)
      → s.clients < max_clients env
      → max_clients env < u32_mod
      → max_clients env ≤ 2 * s.clients
      → listen_on host env (pos e) s ≡ done (yields for_connection, commands recv (pos e) s)
  unfolding listen_on w_accept
  listen_on_starves s below word half =
      let left : sub32 (max_clients env) s.clients - s.clients ≡ 0 =
        omega (arith, below, word, half) in
      let free : (s.clients == max_clients env) ≡ false = ground (arith, below) in
      rw (free, left) refl
