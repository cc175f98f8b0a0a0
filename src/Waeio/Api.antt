-- ===== src/Waeio/Api.antt =====
-- src/waeio.c: the functions that fibers call. Each is a coroutine: `fiber_yield` passes a command
-- to the scheduler and returns when the fiber is resumed, with the number that it is resumed with.
use waeio.Prelude.{
  ℕ, Bool, true, false, ℤ, pos, negsuc, is_neg, eq_ℤ, minus_one, List, [], ◌==◌, if◌then◌else◌,
  Outcome, done, ◌>>=◌,
}
use waeio.Wasio.{WasioResult, ok, eagain, Host}
use waeio.Wasio.Table.{State, wasio_accept, wasio_recv, wasio_send, wasio_close}
use waeio.Waeio.{Cmd, accept, suspend, recv, send, quit, async_cmd, io_cmd}

-- FIBER_KILL_SIGNAL, the least `int32_t`.
abbrev pub fiber_kill_signal : ℤ
fiber_kill_signal = negsuc 2147483647

-- What the coroutines see: the globals `errno`, `ctl.nconns` and `ctl.max_conns`, and the backend.
pub record View (W : Type 0) : Type 0 where
  pub errno : ℤ
  pub nconns : ℕ
  pub max_conns : ℕ
  pub wasio : State W

-- A coroutine that has run up to its next `fiber_yield`, where it waits as `P` says, or to its end.
pub data Progress (P R : Type 0) : Type 0 where
  yields : Cmd → P → Progress P R
  returns : R → Progress P R

-- `errno = FIBER_KILL_SIGNAL` if the answer is that signal.
unfoldable pub note_kill : {W : Type 0} → ℤ → View W → View W
note_kill ans v = if eq_ℤ ans fiber_kill_signal then record v { errno = fiber_kill_signal } else v

abbrev pub is_busy : WasioResult → Bool
is_busy eagain = true
is_busy _ = false

unfoldable pub waeio_async :
    {W : Type 0} → ℤ → ℤ → Progress (Unit {0}) (Unit {0}) × (ℤ → View W → ℤ × View W)
unfolding note_kill
waeio_async proc vfd = (yields (async_cmd proc vfd) tt, λ ans v. (ans, note_kill ans v))

-- The yield at which `waeio_accept` waits: the one for readiness, or the one for room.
pub data AcceptWait : Type 0 where
  for_ready for_room : AcceptWait

module _ {W : Type 0} (host : Host W) (vfd unset : ℤ) where
  -- The result of `waeio_accept` is its return value and `*new_conn`.
  abbrev pub AcceptProgress : Type 0
  AcceptProgress = Progress AcceptWait (ℤ × ℤ)

  -- `waeio_accept` up to its first yield; `new_conn` is what the caller's variable holds.
  abbrev pub accept_start : AcceptProgress
  accept_start = yields (io_cmd accept vfd unset) for_ready

  unfoldable pub accept_result : View W → WasioResult × ℤ × State W → AcceptProgress × View W
  accept_result v (ok, new_conn, w) = (returns (pos 0, new_conn), record v { wasio = w })
  accept_result v (eagain, new_conn, w) = (accept_start, record v { wasio = w })
  accept_result v (_, new_conn, w) = (returns (minus_one, new_conn), record v { wasio = w })

  -- The inner loop's test, and the accept behind it.
  unfoldable pub accept_attempt : ℤ → View W → Outcome (AcceptProgress × View W)
  unfolding accept_result
  accept_attempt new_conn v =
      if v.nconns == v.max_conns
      then done (yields (io_cmd suspend minus_one unset) for_room, v)
      else wasio_accept host v.wasio vfd new_conn >>= λ r. done (accept_result v r)

  -- `waeio_accept` from a yield at which it was resumed with `ans`: both yields are followed by the
  -- same statements.
  unfoldable pub waeio_accept : AcceptWait → ℤ → ℤ → View W → Outcome (AcceptProgress × View W)
  unfolding note_kill accept_attempt
  waeio_accept wait ans new_conn v =
      if is_neg ans
      then done (returns (ans, new_conn), note_kill ans v)
      else accept_attempt new_conn v

  -- `waeio_recv` and `waeio_send` have one yield. The result is the return value; the bytes are
  -- those stored into the buffer by the last call.
  abbrev pub IoProgress : Type 0
  IoProgress = Progress (Unit {0}) ℤ

  unfoldable pub recv_result :
      View W → WasioResult × ℕ × List ℕ × State W → IoProgress × List ℕ × View W
  recv_result v (ok, recvlen, bytes, w) = (returns (pos recvlen), bytes, record v { wasio = w })
  recv_result v (eagain, recvlen, bytes, w) =
      (yields (io_cmd recv vfd unset) tt, bytes, record v { wasio = w })
  recv_result v (_, recvlen, bytes, w) = (returns minus_one, bytes, record v { wasio = w })

  unfoldable pub waeio_recv : ℕ → ℤ → View W → Outcome (IoProgress × List ℕ × View W)
  unfolding note_kill recv_result
  waeio_recv len ans v =
      if eq_ℤ ans fiber_kill_signal
      then done (returns ans, [], note_kill ans v)
      else wasio_recv host v.wasio vfd len 0 >>= λ r. done (recv_result v r)

  unfoldable pub send_result : View W → WasioResult × ℕ × State W → IoProgress × View W
  send_result v (ok, sendlen, w) = (returns (pos sendlen), record v { wasio = w })
  send_result v (eagain, sendlen, w) = (yields (io_cmd send vfd unset) tt, record v { wasio = w })
  send_result v (_, sendlen, w) = (returns minus_one, record v { wasio = w })

  unfoldable pub waeio_send : List ℕ → ℕ → ℤ → View W → Outcome (IoProgress × View W)
  unfolding note_kill send_result
  waeio_send buf len ans v =
      if eq_ℤ ans fiber_kill_signal
      then done (returns ans, note_kill ans v)
      else wasio_send host v.wasio vfd buf len 0 >>= λ r. done (send_result v r)

  unfoldable pub waeio_close : View W → Outcome (ℤ × View W)
  waeio_close v = wasio_close host v.wasio vfd >>= λ r. done (code r.0, record v { wasio = r.1 })
    where
      code : WasioResult → ℤ
      code ok = pos 0
      code _ = minus_one

  -- `waeio_cancel_all` ends when it is resumed.
  abbrev pub waeio_cancel_all : Progress (Unit {0}) (Unit {0})
  waeio_cancel_all = yields (io_cmd quit minus_one unset) tt
