-- ===== src/Waeio/Loop.antt =====
-- src/waeio.c: the scheduling loop while no descriptor becomes ready.
use waeio.Prelude.{
  arith, ◌<◌, ℕ, zero, suc, ◌≡◌, refl, sym, ◌∙◌, subst, Bool, true, false, ℤ, pos, List, [], Option,
  some, none, Outcome, done, aborted, ◌>>=◌, if◌then◌else◌,
}
use waeio.Wasio.{WasioResult, ok, error, efull, eagain, econn, Host}
use waeio.Wasio.Table.{State, wasio_poll}
use waeio.Wasio.Table.Calls.{PollsInPlace}
use waeio.Wasio.Table.Polling.{wasio_poll-IsTable}
use waeio.Waeio.{
  FiberResult, Queue, nil, Fibers, Ctl, with_wasio, queue_swap, run_events, poll_events, run_next,
  scheduling_loop,
}
use waeio.Waeio.Requeueing.{IsEnded}
use waeio.Waeio.Requests.{IsCtl}
use waeio.Waeio.Ready.{Fails, FibersBehave, Ready, stops, goes, run_ready-Ready}

module _ {W M : Type 0} (lib : Fibers W M) (host : Host W) (event_foreach : State W → ℕ → List ℕ)
    (status_address : ℤ) (uninit : ℕ) where
  -- WASIO_EVENT_FOREACH never visits a descriptor.
  unfoldable pub NothingReady : Type 0
  NothingReady = (w : State W) (n : ℕ) → event_foreach w n ≡ []

  -- The state between rounds.
  pub record BetweenRounds (ctl : Ctl W M) : Type 0 where
    pub invariant : IsCtl ctl
    pub front_ended : IsEnded ctl.frontq
    pub rear_ended : IsEnded ctl.rearq

  abbrev pub round : Ctl W M → Outcome (Bool × Ctl W M)
  round = run_next lib host event_foreach status_address uninit

  -- `n` rounds that go on lead from a state to another.
  pub data Rounds : ℕ → Ctl W M → Ctl W M → Type 0 where
    none_yet : {ctl : Ctl W M} → Rounds 0 ctl ctl
    one_more :
        {n : ℕ} {ctl mid after : Ctl W M}
        → round ctl ≡ done (true, mid)
        → Rounds n mid after
        → Rounds (suc n) ctl after

  -- The loop in which the ready fibers of `at` run comes to a fiber that fails.
  abbrev pub FiberFails : Ctl W M → Type 0
  FiberFails at = Fails lib at.frontq at

  -- The end of a round: `Cause` is why it may abort.
  data Round (Cause : Type 0) : Outcome (Bool × Ctl W M) → Type 0 where
    gives_up : Cause → Round Cause aborted
    stays : (after : Ctl W M) → BetweenRounds after → Round Cause (done (true, after))
    ends : (after : Ctl W M) → IsCtl after → Round Cause (done (false, after))

  -- The end of the loop within `fuel` rounds from `ctl`: an abort in the round after some rounds,
  -- for a fiber that failed; no end yet, with the state after all the rounds; or an end with a
  -- round that does not go on.
  pub data Ending (fuel : ℕ) (ctl : Ctl W M) : Outcome (Option (Ctl W M)) → Type 0 where
    ends_aborted :
        (n : ℕ) (at : Ctl W M)
        → n < fuel
        → Rounds n ctl at
        → FiberFails at
        → Ending fuel ctl aborted
    not_yet : (at : Ctl W M) → Rounds fuel ctl at → BetweenRounds at → Ending fuel ctl (done none)
    ended :
        (n : ℕ) (at final : Ctl W M)
        → n < fuel
        → Rounds n ctl at
        → round at ≡ done (false, final)
        → IsCtl final
        → Ending fuel ctl (done (some final))

  poll_events-Round :
      {Cause : Type 0} (status : Option FiberResult) (keep_going : Bool) (ctl : Ctl W M)
      (r : WasioResult × ℕ × State W)
      → NothingReady
      → IsCtl (with_wasio ctl r.2)
      → (keep_going ≡ true → IsEnded ctl.frontq × IsEnded ctl.rearq)
      → Round Cause (poll_events lib host event_foreach status_address status keep_going ctl r)
  unfolding poll_events run_events NothingReady
  poll_events-Round status true ctl (ok, n, w) quiet c e =
      rw (quiet w n)
        (stays _ (record { invariant = c; front_ended = (e refl).0; rear_ended = (e refl).1 }))
  poll_events-Round status false ctl (ok, n, w) quiet c e = rw (quiet w n) (ends _ c)
  poll_events-Round status keep_going ctl (error, n, w) quiet c e = ends _ c
  poll_events-Round status keep_going ctl (efull, n, w) quiet c e = ends _ c
  poll_events-Round status keep_going ctl (eagain, n, w) quiet c e = ends _ c
  poll_events-Round status keep_going ctl (econn, n, w) quiet c e = ends _ c

  polled-IsCtl :
      (ctl : Ctl W M)
      → PollsInPlace host
      → IsCtl ctl
      → IsCtl (with_wasio ctl (wasio_poll host ctl.wasio uninit (pos 0)).2)
  polled-IsCtl ctl p c =
      let polled = wasio_poll-IsTable host ctl.wasio uninit (pos 0) c.table p in
      record { table = polled.0; capacity_is = polled.1 ∙ c.capacity_is; room = c.room }

  polled-Round :
      (q : Queue) (ctl : Ctl W M) {o : Outcome (Bool × Option FiberResult × Ctl W M)}
      → PollsInPlace host
      → NothingReady
      → IsEnded ctl.rearq
      → Ready lib q ctl o
      → Round (Fails lib q ctl) (
          o >>= λ ran.
          poll_events lib host event_foreach status_address ran.1 ran.0
            (queue_swap ran.2)
            (wasio_poll host (queue_swap ran.2).wasio uninit (pos 0)))
  unfolding queue_swap IsEnded
  polled-Round q ctl p quiet h (stops x) = gives_up x
  polled-Round q ctl p quiet h (goes k last after c m front quits e more added) =
      poll_events-Round last k (queue_swap after) _ quiet
        (polled-IsCtl (queue_swap after) p (swapped after c))
        (λ yes. (swapped_ended after (e h) (front yes).0))
    where
      swapped : (x : Ctl W M) → IsCtl x → IsCtl (queue_swap x)
      swapped x c = record { table = c.table; capacity_is = c.capacity_is; room = c.room }

      swapped_ended :
          (x : Ctl W M)
          → IsEnded x.rearq
          → x.frontq ≡ nil
          → IsEnded (queue_swap x).frontq × IsEnded (queue_swap x).rearq
      swapped_ended x rear q = (rear, subst IsEnded (sym q) tt)

  run_next-Round :
      (ctl : Ctl W M)
      → FibersBehave lib
      → PollsInPlace host
      → NothingReady
      → BetweenRounds ctl
      → Round (FiberFails ctl) (round ctl)
  unfolding run_next
  run_next-Round ctl b p quiet i =
      polled-Round ctl.frontq ctl p quiet i.rear_ended
        (run_ready-Ready lib ctl.frontq ctl none b i.invariant i.front_ended refl)

  -- With fibers that keep the table and its capacity and name descriptors of the table where the
  -- code reads one, a host that polls in place, and no descriptor ever ready, the loop, from a state
  -- with the invariant in which both queues end with NULL, makes no access out of range in any
  -- number of rounds. It aborts only in a round in which it comes to a fiber that fails, after
  -- rounds that went on; or all the rounds went on, and the state after them has the invariant; or
  -- it ends with the first round that does not go on, in a state with the invariant.
  pub scheduling_loop-Ending :
      (fuel : ℕ) (ctl : Ctl W M)
      → FibersBehave lib
      → PollsInPlace host
      → NothingReady
      → BetweenRounds ctl
      → Ending fuel ctl (scheduling_loop lib host event_foreach status_address fuel uninit ctl)
  unfolding scheduling_loop
  scheduling_loop-Ending zero ctl b p quiet i = not_yet ctl none_yet i
  scheduling_loop-Ending (suc fuel) ctl b p quiet i =
      go (round ctl) refl (run_next-Round ctl b p quiet i)
        (λ c j. scheduling_loop-Ending fuel c b p quiet j)
    where
      later :
          (mid : Ctl W M) (o : Outcome (Option (Ctl W M)))
          → round ctl ≡ done (true, mid)
          → Ending fuel mid o
          → Ending (suc fuel) ctl o
      later mid _ e (ends_aborted n at few r x) =
          ends_aborted (suc n) at (omega (arith, few)) (one_more e r) x
      later mid _ e (not_yet at r j) = not_yet at (one_more e r) j
      later mid _ e (ended n at final few r q c) =
          ended (suc n) at final (omega (arith, few)) (one_more e r) q c

      go :
          (o : Outcome (Bool × Ctl W M))
          → round ctl ≡ o
          → Round (FiberFails ctl) o
          → ((c : Ctl W M)
              → BetweenRounds c
              → Ending fuel c (scheduling_loop lib host event_foreach status_address fuel uninit c))
          → Ending (suc fuel) ctl (
              o >>= λ next.
              (let rest =
                  scheduling_loop lib host event_foreach status_address fuel uninit next.1 in
                if next.0 then rest else done (some next.1)))
      go _ e (gives_up x) rest = ends_aborted 0 ctl (omega arith) none_yet x
      go _ e (stays after j) rest = later after _ e (rest after j)
      go _ e (ends after c) rest = ended 0 ctl after (omega arith) none_yet e c
