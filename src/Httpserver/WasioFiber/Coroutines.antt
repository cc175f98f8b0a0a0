-- ===== src/Httpserver/WasioFiber/Coroutines.antt =====
-- examples/httpserver/httpserver_wasio_fiber.c: the code of the two kinds of fibers, in a build without
-- DEBUG, where `wassert` is empty. Each runs from one `fiber_yield` to the next; the buffers are reset before each receive.
use waeio.Prelude.{
  ℕ, zero, suc, ◌-◌, ◌==◌, ◌||◌, not, Bool, true, false, ℤ, pos, minus_one, eq_ℤ, List, ◌++◌,
  length, replicate, Option, some, none, ltb, leb, if◌then◌else◌, Outcome, done, aborted, ◌>>=◌,
  ◌>>◌, assert, write, to_nat,
}
use waeio.Wasio.{ok, error, efull, eagain, econn, Host}
use waeio.Wasio.Poll.{wasio_accept, wasio_recv, wasio_send}
use waeio.Httpserver.Request.{Http, respond}
use waeio.Httpserver.WasioFiber.{Server, Platform, with_wasio, fiber_kill_signal}

-- Where a coroutine stopped: at a yield, where it waits as `P` says, or at its end.
pub data Stop (P : Type 0) : Type 0 where
  yields : P → Stop P
  returns : Stop P

-- The yields of `listener`: the array is full, or no connection is waiting.
pub data ListenerWait : Type 0 where
  for_room for_connection : ListenerWait

-- `wassert`
abbrev pub unchecked : Bool → Outcome (Unit {0})
unchecked b = done tt

abbrev pub buffer_size : ℕ
buffer_size = 8192

module _ {W M : Type 0} (host : Host W) (env : Platform W M) where
  -- `wfd.length == wfd.capacity`
  abbrev pub is_full : Server W M → Bool
  is_full s = s.wasio.wfd.length == s.wasio.wfd.capacity

  -- The connection `new_fd` gets a fiber, next to its entry.
  unfoldable pub add_connection : ℤ → Server W M → Outcome (Server W M)
  add_connection new_fd s = do
    let child = env.fiber_alloc s.memory
    fibers ← write s.fibers (pos (s.wasio.wfd.length - 1)) (record { fiber = child.0; fd = new_fd })
    assert (leb 5 (to_nat new_fd))
    done (record s { fibers = fibers; memory = child.1 })

  -- The loop that accepts, with room for `left` connections; when there is no more the outer loop
  -- finds the array full and yields.
  unfoldable pub accept_all : ℕ → Server W M → Outcome (Stop ListenerWait × Server W M)
  unfolding add_connection
  accept_all zero s = done (yields for_room, s)
  accept_all (suc left) s = wasio_accept host env.pollin s.wasio s.fd minus_one >>= λ r.
      let s' = with_wasio s r.2 in
      let more = add_connection r.1 s' >>= λ t. accept_all left t in
      elim r.0 [
        | ok ↦ more
        | error ↦ done (returns, record s' { end_server = true })
        | eagain ↦ done (yields for_connection, s')
        | efull ↦ aborted
        | econn ↦ aborted
      ]

  -- `listener` where it tests for room.
  unfoldable pub listen_on : Server W M → Outcome (Stop ListenerWait × Server W M)
  unfolding accept_all
  listen_on s =
      let accepting = accept_all (s.wasio.wfd.capacity - s.wasio.wfd.length) s in
      if is_full s then done (yields for_room, s) else accepting

  -- `listener` from a yield; both are followed by the test of `fd`, and its start is the same.
  unfoldable pub listener : Server W M → Outcome (Stop ListenerWait × Server W M)
  unfolding listen_on
  listener s = if eq_ℤ s.fd fiber_kill_signal then done (returns, s) else listen_on s

  module _ (http : Http) where
    -- The rest of the loop's body once `nbytes` have been received: `true` if the loop goes on.
    unfoldable pub serve : List ℕ → Server W M → Outcome (Bool × Server W M)
    unfolding respond
    serve reqbuf s = do
      let p = http.parse reqbuf
      let answer = respond http unchecked (replicate buffer_size 0) buffer_size p >>= λ r.
          (let s' = record s { end_server = s.end_server || r.1 } in
            let sent = wasio_send host env.pollin s'.wasio s'.fd r.0.1 (to_nat r.0.0) 0 in
            let t = with_wasio s' sent.2 in
            if eq_ℤ r.0.0 minus_one then done (false, s') else done (not t.end_server, t))
      if p.num_headers == 0 then done (false, s) else answer

    -- `handle_connection` where it receives, for at most `fuel` requests; `none` if they run out.
    unfoldable pub receive : ℕ → Server W M → Outcome (Option (Stop (Unit {0}) × Server W M))
    unfolding serve
    receive zero s = done none
    receive (suc fuel) s =
        let r = wasio_recv host env.pollin s.wasio s.fd buffer_size 0 in
        let s' = with_wasio s r.3 in
        let reqbuf = r.2 ++ replicate (buffer_size - length r.2) 0 in
        let served = assert (ltb 0 r.1) >> serve reqbuf s' >>= λ next.
        (let rest = receive fuel next.1 in
          if next.0 then rest else done (some (returns, next.1))) in
        elim r.0 [
          | ok ↦ served
          | eagain ↦ done (some (yields tt, s'))
          | _ ↦ done (some (returns, s'))
        ]

    -- `handle_connection` from its yield; its start is `receive`.
    unfoldable pub handle_connection :
        ℕ → Server W M → Outcome (Option (Stop (Unit {0}) × Server W M))
    unfolding receive
    handle_connection fuel s =
        let receiving = receive fuel s in
        if eq_ℤ s.fd fiber_kill_signal then done (some (returns, s)) else receiving
