-- ===== src/Httpserver/HostFiber/Listening.antt =====
-- examples/httpserver/httpserver_fiber.c: the fiber that listens stays within the arrays.
use waeio.Prelude.{
  ℕ, zero, suc, ◌+◌, ◌<◌, ◌≤◌, ◌≡◌, ◌≢◌, refl, sym, ◌∙◌, subst, arith, inl, inr, true, false, ℤ,
  pos, is_neg, eq_ℤ, some, u32_mod, Bool-cases, done, ℤ-cases, eq_ℤ-ne, eq_ℤ→eq, eq_ℤ→ne,
  if◌then◌else◌, ◌==◌, ==_iff,
}
use waeio.Wasio.{Host}
use waeio.Httpserver.WasioFiber.{fiber_kill_signal}
use waeio.Httpserver.WasioFiber.Coroutines.{yields, returns}
use waeio.Httpserver.HostFiber.{Server, Platform, heard}
use waeio.Httpserver.HostFiber.Coroutines.{
  for_room, for_connection, accept_some, listen_on, listener,
}
use waeio.Httpserver.HostFiber.Bounds.{Fits}
use waeio.Httpserver.HostFiber.Growing.{
  Listened, grown, grown-Fits, add_connection_lem, cons-Listened, stopped,
}

module _ {W M : Type 0} (host : Host W) (env : Platform W M) where
  accept_some-full :
      (fuel : ℕ) (fd : ℤ) (s : Server W M) (conn : ℕ)
      → Fits host env s
      → s.nfds < env.max_connections
      → env.max_connections < u32_mod
      → (host.accept s.world fd).answer ≡ pos conn
      → accept_some host env (suc fuel) fd s ≡ (
          if s.nfds + 1 == env.max_connections
          then done (some (yields for_room, grown host env fd s conn))
          else accept_some host env fuel fd (grown host env fd s conn))
  unfolding accept_some
  accept_some-full fuel fd s conn f room word e =
      rw (e, add_connection_lem host env fd s conn f room word) refl

  -- The host has no connection, or accept failed.
  refused-Listened :
      (fuel : ℕ) (fd : ℤ) (s : Server W M)
      → Fits host env s
      → is_neg (host.accept s.world fd).answer ≡ true
      → Listened host env fd s (accept_some host env (suc fuel) fd s)
  unfolding accept_some
  refused-Listened fuel fd s f e =
      let s' = heard s (host.accept s.world fd) in
      elim (Bool-cases (eq_ℤ s'.host_errno host.eagain)) [
        | inl again ↦
            stopped host env fd s s' (yields (for_connection (host.accept s.world fd).answer))
              (rw (e, again) refl) f refl refl refl refl (e, refl, refl, eq_ℤ→eq _ _ again, refl)
        | inr failed ↦
            stopped host env fd s (record s' { end_server = true }) returns (rw (e, failed) refl) f
              refl refl refl refl (e, refl, eq_ℤ→ne _ _ failed, refl)
      ]

  accept_some-Listened :
      (fuel : ℕ) (fd : ℤ) (s : Server W M)
      → Fits host env s
      → s.nfds < env.max_connections
      → env.max_connections < u32_mod
      → env.max_connections ≤ s.nfds + fuel
      → Listened host env fd s (accept_some host env fuel fd s)
  accept_some-Listened zero fd s f room word enough = absurd (omega (arith, room, enough))
  accept_some-Listened (suc fuel) fd s f room word enough =
      elim (ℤ-cases (host.accept s.world fd).answer) [
        | inl (conn, e) ↦
            let step = accept_some-full fuel fd s conn f room word e in
            let g = grown-Fits host env fd s conn f room in
            elim (Bool-cases (s.nfds + 1 == env.max_connections)) [
              | inl full ↦ cons-Listened host env fd s conn f room e (
                  stopped host env fd (grown host env fd s conn) (grown host env fd s conn)
                    (yields for_room) (step ∙ rw full refl) g refl refl refl refl
                    ((==_iff _ _).0 full, refl, refl))
              | inr more ↦
                  let below : s.nfds + 1 < env.max_connections = ground arith in
                  cons-Listened host env fd s conn f room e (
                    subst (Listened host env fd (grown host env fd s conn))
                      (sym (step ∙ rw more refl))
                      (accept_some-Listened fuel fd (grown host env fd s conn) g below word
                        (omega (arith, enough))))
            ]
        | inr (n, e) ↦ refused-Listened fuel fd s f (rw e refl)
      ]

  -- With arrays of MAX_CONNECTIONS entries, fewer than 2 ^ 32, and as many calls of accept as there
  -- are entries left, the listener, resumed with its descriptor at its start or after it had to wait
  -- for room, stops with no access out of range and the arrays within their bound. The connections
  -- that the host handed out, one at each call of accept, stand behind the entries in use, in order,
  -- each polled for input and with a new fiber for it at the same index; the entries in use and
  -- their fibers are as they were. It stops where the array is full, or where the host then refuses:
  -- with EAGAIN it waits, with its answer, and at another error it stops for good and ends the
  -- server.
  pub listener-Listened :
      (fuel : ℕ) (fd : ℤ) (s : Server W M)
      → Fits host env s
      → env.max_connections < u32_mod
      → env.max_connections ≤ s.nfds + fuel
      → fd ≢ fiber_kill_signal
      → Listened host env fd s (listener host env fuel fd s)
  unfolding listener listen_on
  listener-Listened fuel fd s f word enough ne =
      let not_killed : eq_ℤ fd fiber_kill_signal ≡ false = eq_ℤ-ne fd fiber_kill_signal ne in
      elim (Bool-cases (s.nfds == env.max_connections)) [
        | inl full ↦ rw not_killed (
            stopped host env fd s s (yields for_room) (rw full refl) f refl refl refl refl
              ((==_iff _ _).0 full, refl, refl))
        | inr room ↦
            let below : s.nfds < env.max_connections = ground (arith, f.within) in
            rw (not_killed, room) (accept_some-Listened fuel fd s f below word enough)
      ]
