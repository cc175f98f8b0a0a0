-- ===== src/Waeio/Accepting.antt =====
-- src/waeio.c: `waeio_accept`, `waeio_recv` and `waeio_send` from one yield to the next.
use waeio.Prelude.{
  ℕ, ◌≡◌, ◌≢◌, ◌<◌, ◌==◌, ◌||◌, ◌⊎◌, inl, inr, arith, true, false, ℤ, pos, negsuc, minus_one,
  is_neg, eq_ℤ, get_or, Outcome, done, ◌>>=◌, Bool-cases, ==_iff,
}
use waeio.Wasio.{WasioResult, error, eagain, Host, Reply, translate_error}
use waeio.Wasio.Table.{State, after}
use waeio.Wasio.Table.Invariant.{IsTable}
use waeio.Wasio.Table.Wrap.{Wrapped}
use waeio.Wasio.Table.Accept.{Opened, refused, no_room, opened, wasio_accept-Opened}
use waeio.Waeio.{accept, suspend, io_cmd}
use waeio.Waeio.Api.{
  View, yields, returns, note_kill, AcceptWait, for_ready, for_room, accept_result, accept_attempt,
  waeio_accept, AcceptProgress,
}

module _ {W : Type 0} (host : Host W) (e : ℕ) (unset : ℤ) (v : View W) (t : IsTable v.wasio.wfd)
    (below : e < v.wasio.wfd.capacity) where
  abbrev pub connection : Reply W
  connection = host.accept v.wasio.world (get_or v.wasio.wfd.fds e minus_one)

  -- The state after the host was asked for a connection, if nothing was bound.
  abbrev pub asked : View W
  asked = record v { wasio = after host v.wasio connection }

  abbrev pub failure : WasioResult
  failure = translate_error host asked.wasio.host_errno

  -- How `waeio_accept` goes on when it is resumed with `ans`.
  pub data Accepting (ans new_conn : ℤ)
      (result : Outcome (AcceptProgress host (pos e) unset × View W)) : Type 0 where
    stopped :
        is_neg ans ≡ true
        → result ≡ done (returns (ans, new_conn), note_kill ans v)
        → Accepting ans new_conn result
    waits_for_room :
        is_neg ans ≡ false
        → v.nconns ≡ v.max_conns
        → result ≡ done (yields (io_cmd suspend minus_one unset) for_room, v)
        → Accepting ans new_conn result
    accepted :
        is_neg ans ≡ false
        → v.nconns ≢ v.max_conns
        → (fd : ℕ) → connection.answer ≡ pos fd
        → {opened : Outcome (WasioResult × ℤ × State W)}
        → (w : Wrapped asked.wasio t (pos fd) opened)
        → result
          ≡ done (
            returns (pos 0, pos w.entry),
            record v { wasio = record (asked.wasio) { wfd = w.wfd } },
          )
        → Accepting ans new_conn result
    busy :
        is_neg ans ≡ false
        → v.nconns ≢ v.max_conns
        → (n : ℕ) → connection.answer ≡ negsuc n
        → failure ≡ eagain
        → result ≡ done (yields (io_cmd accept (pos e) unset) for_ready, asked)
        → Accepting ans new_conn result
    failed :
        is_neg ans ≡ false
        → v.nconns ≢ v.max_conns
        → ((n : ℕ) × (connection.answer ≡ negsuc n) × (failure ≡ error))
          ⊎ (v.wasio.wfd.length ≡ v.wasio.wfd.capacity)
        → result ≡ done (returns (minus_one, new_conn), asked)
        → Accepting ans new_conn result

  failure_cases : (failure ≡ eagain) ⊎ (failure ≡ error)
  unfolding translate_error
  failure_cases =
      elim (Bool-cases
        (eq_ℤ asked.wasio.host_errno host.eagain || eq_ℤ asked.wasio.host_errno host.ewouldblock)) [
          | inl q ↦ inl (rw q)
          | inr q ↦ inr (rw q)
        ]

  attempt_cases :
      (ans new_conn : ℤ) (conn : Outcome (WasioResult × ℤ × State W))
      → is_neg ans ≡ false
      → v.nconns ≢ v.max_conns
      → Opened host v.wasio t connection new_conn conn
      → Accepting ans new_conn (conn >>= λ r. done (accept_result host (pos e) unset v r))
  unfolding accept_result
  attempt_cases ans new_conn conn h ne (refused n a q) = elim failure_cases [
    | inl f ↦ busy h ne n a f (rw (q, f))
    | inr f ↦ failed h ne (inl (n, a, f)) (rw (q, f))
  ]
  attempt_cases ans new_conn conn h ne (no_room fd a full q) = failed h ne (inr full) (rw q)
  attempt_cases ans new_conn conn h ne (opened fd a w) = accepted h ne fd a w (rw w.returns)

  -- `waeio_accept` on a descriptor `e` of a table that satisfies the invariant, resumed at either of
  -- its yields. A negative answer is returned, without a call of the backend. While the count of
  -- connections is at its maximum the fiber suspends itself, and the backend is not called.
  -- Otherwise the host is asked for a connection: it is bound to the least free descriptor and 0 is
  -- returned; or the fiber waits again, when the host would block; or -1 is returned, with the table
  -- as it was, when the host has another error or no descriptor is free.
  pub waeio_accept-Accepting :
      (wait : AcceptWait) (ans new_conn : ℤ)
      → Accepting ans new_conn (waeio_accept host (pos e) unset wait ans new_conn v)
  unfolding waeio_accept accept_attempt
  waeio_accept-Accepting wait ans new_conn = elim (Bool-cases (is_neg ans)) [
    | inl neg ↦ stopped neg (rw neg)
    | inr ok_ans ↦ elim (Bool-cases (v.nconns == v.max_conns)) [
      | inl full ↦ waits_for_room ok_ans ((==_iff _ _).0 full) (rw (ok_ans, full))
      | inr free ↦
          let ne : (v.nconns ≢ v.max_conns) = ground arith in
          rw (ok_ans, free)
            (attempt_cases ans new_conn _ ok_ans ne
              (wasio_accept-Opened host v.wasio t e new_conn below))
    ]
  ]
