-- ===== src/Httpserver/HostFiber/Coroutines.antt =====
-- examples/httpserver/httpserver_fiber.c: the code of the two kinds of fibers. Each runs from one
-- `fiber_yield` to the next, with the value that it was resumed with; the buffers are reset before
-- each receive.
use waeio.Prelude.{
  ℕ, zero, suc, ◌-◌, ◌==◌, ◌&&◌, not, Bool, true, false, ◌||◌, ℤ, pos, minus_one, is_neg, eq_ℤ,
  to_nat, List, ◌++◌, length, replicate, Option, some, none, add32, ltb, if◌then◌else◌, Outcome,
  done, ◌>>=◌, read, write,
}
use waeio.Wasio.{Host}
use waeio.Httpserver.Request.{Http, respond}
use waeio.Httpserver.WasioFiber.{fiber_kill_signal}
use waeio.Httpserver.WasioFiber.Coroutines.{Stop, yields, returns, unchecked, buffer_size}
use waeio.Httpserver.HostFiber.{Server, Platform, heard}

-- The yields of `listener`: the array is full, or the host has no connection and answered `new_fd`.
pub data ListenerWait : Type 0 where
  for_room : ListenerWait
  for_connection : ℤ → ListenerWait

module _ {W M : Type 0} (host : Host W) (env : Platform W M) where
  -- A new connection at the end of the two arrays.
  unfoldable pub add_connection : ℤ → Server W M → Outcome (Server W M)
  add_connection new_fd s = do
    old ← read s.fds (pos s.nfds)
    fds ← write s.fds (pos s.nfds) (record old { fd = new_fd; events = env.pollin })
    let child = env.fiber_alloc s.memory
    fibers ← write s.fibers (pos s.nfds) (record { fiber = child.0; fd = new_fd })
    done (record s { fds = fds; fibers = fibers; memory = child.1; nfds = add32 s.nfds 1 })

  -- `listener` where it calls accept, for at most `fuel` calls; after a connection that fills the
  -- array the outer loop yields.
  unfoldable pub accept_some :
      ℕ → ℤ → Server W M → Outcome (Option (Stop ListenerWait × Server W M))
  accept_some zero fd s = done none
  accept_some (suc fuel) fd s =
      let r = host.accept s.world fd in
      let s' = heard s r in
      let added = add_connection r.answer s' >>= λ t.
      (let more = accept_some fuel fd t in
        if t.nfds == env.max_connections then done (some (yields for_room, t)) else more) in
      if is_neg r.answer
      then if eq_ℤ s'.host_errno host.eagain
        then done (some (yields (for_connection r.answer), s'))
        else done (some (returns, record s' { end_server = true }))
      else added

  -- `listener` where it tests for room.
  unfoldable pub listen_on : ℕ → ℤ → Server W M → Outcome (Option (Stop ListenerWait × Server W M))
  listen_on fuel fd s =
      if s.nfds == env.max_connections
      then done (some (yields for_room, s))
      else accept_some fuel fd s

  -- `listener` from its start and from each of its yields.
  unfoldable pub listener : ℕ → ℤ → Server W M → Outcome (Option (Stop ListenerWait × Server W M))
  listener fuel fd s =
      if eq_ℤ fd fiber_kill_signal then done (some (returns, s)) else listen_on fuel fd s

  unfoldable pub listener_resumed :
      ListenerWait → ℕ → ℤ → Server W M → Outcome (Option (Stop ListenerWait × Server W M))
  listener_resumed for_room fuel fd s = listener fuel fd s
  listener_resumed (for_connection new_fd) fuel fd s =
      if eq_ℤ fd fiber_kill_signal
      then done (some (returns, s))
      else if ltb s.nfds env.max_connections && not (eq_ℤ new_fd minus_one)
      then accept_some fuel fd s
      else listen_on fuel fd s

module _ {W M : Type 0} (host : Host W) (http : Http) where
  -- The rest of the outer loop's body once a request is in `reqbuf`: `true` if the loop goes on.
  unfoldable pub serve : List ℕ → ℤ → Server W M → Outcome (Bool × Server W M)
  serve reqbuf fd s = do
    let p = http.parse reqbuf
    let answer = respond http unchecked (replicate buffer_size 0) buffer_size p >>= λ r.
        (let s' = record s { end_server = s.end_server || r.1 } in
          let t = heard s' (host.send s'.world fd r.0.1 (to_nat r.0.0)) in
          if eq_ℤ r.0.0 minus_one then done (false, s') else done (not t.end_server, t))
    if p.num_headers == 0 then done (false, s) else answer

  -- `handle_connection` where it receives, for at most `fuel` requests.
  unfoldable pub receive : ℕ → ℤ → Server W M → Outcome (Option (Stop (Unit {0}) × Server W M))
  receive zero fd s = done none
  receive (suc fuel) fd s =
      let r = host.recv s.world fd buffer_size in
      let s' = heard s r.reply in
      let reqbuf = r.bytes ++ replicate (buffer_size - length r.bytes) 0 in
      let served = serve reqbuf fd s' >>= λ next.
      (let rest = receive fuel fd next.1 in
        if next.0 then rest else done (some (returns, next.1))) in
      if is_neg r.reply.answer
      then if eq_ℤ s'.host_errno host.eagain
        then done (some (yields tt, s'))
        else done (some (returns, s'))
      else if to_nat r.reply.answer == 0
      then done (some (returns, s'))
      else served

  -- `handle_connection` from its yield; its start is `receive`.
  unfoldable pub handle_connection :
      ℕ → ℤ → Server W M → Outcome (Option (Stop (Unit {0}) × Server W M))
  handle_connection fuel fd s =
      let receiving = receive fuel fd s in
      if eq_ℤ fd fiber_kill_signal then done (some (returns, s)) else receiving
