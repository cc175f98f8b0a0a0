-- ===== src/Waeio/Rounds.antt =====
-- src/waeio.c: the rounds of the scheduler.
use waeio.Prelude.{
  ℕ, zero, suc, ◌≡◌, refl, sym, ◌∙◌, ap, subst, Bool, true, false, ℤ, pos, List, [], Option, some,
  none, Outcome, done, fault,
}
use waeio.Wasio.{ok, Host}
use waeio.Wasio.Table.{State, wasio_poll}
use waeio.Waeio.{
  FiberResult, fiber_yield, quit, FiberClosure, Queue, nil, wild, node, Fibers, Ctl, queue_swap,
  handle_cmd, handle_request, run_ready, run_events, poll_events, run_next, scheduling_loop,
  with_wasio,
}
use waeio.Waeio.Requeueing.{
  queued, reverse_onto, IsEnded, AllSuspend, resumed, run_ready-node, run_ready_suspends,
}

module _ {W M : Type 0} (lib : Fibers W M) where
  module _ (host : Host W) (event_foreach : State W → ℕ → List ℕ) (status_address : ℤ)
      (uninit : ℕ) where
    abbrev round : Ctl W M → Outcome (Bool × Ctl W M)
    round = run_next lib host event_foreach status_address uninit

    -- The poll succeeds, and the macro visits the descriptors `vfds`.
    pub record Polls (w : State W) (vfds : List ℕ) : Type 0 where
      pub nready : ℕ
      pub after : State W
      pub answers : wasio_poll host w uninit (pos 0) ≡ (ok, nready, after)
      pub visits : event_foreach after nready ≡ vfds

    -- The poll succeeds in every state, and nothing is ready.
    unfoldable pub PollsNothing : Type 0
    PollsNothing = (w : State W) → Polls w []

    run_next-quiet :
        (ctl ctl' : Ctl W M) (keep_going : Bool) (status : Option FiberResult)
        → run_ready lib ctl.frontq ctl none ≡ done (keep_going, status, ctl')
        → (p : Polls ctl'.wasio [])
        → round ctl ≡ done (keep_going, with_wasio (queue_swap ctl') p.after)
    unfolding run_next poll_events run_events queue_swap
    run_next-quiet ctl ctl' keep_going status e p = rw (e, p.answers, p.visits)

    -- A round that resumes each fiber of the front queue, where the next round finds them.
    pub record Rotated (ctl : Ctl W M) : Type 0 where
      pub after : Ctl W M
      pub returns : round ctl ≡ done (true, after)
      pub reversed : queued after.frontq ≡ reverse_onto (queued ctl.frontq) []
      pub ended : IsEnded after.frontq
      pub emptied : after.rearq ≡ nil
      pub same_nconns : after.nconns ≡ ctl.nconns

    -- When fibers only suspend themselves, every poll succeeds with nothing ready, the front queue
    -- ends with NULL and the rear queue is empty: a round loses no fiber. It leaves the fibers of
    -- this round in the front queue, in the opposite order, with an empty rear queue and the same
    -- count of connections, and goes on.
    pub run_next_suspends :
        (ctl : Ctl W M)
        → AllSuspend lib
        → PollsNothing
        → IsEnded ctl.frontq
        → ctl.rearq ≡ nil
        → Rotated ctl
    unfolding queue_swap PollsNothing IsEnded queued
    run_next_suspends ctl all quiet ended rear =
        let x =
          run_ready_suspends lib ctl.frontq ctl none all ended (subst IsEnded (sym rear) tt) refl in
        let p = quiet x.after.wasio in
        record {
          after = with_wasio (queue_swap x.after) p.after;
          returns = run_next-quiet ctl x.after true x.last x.returns p;
          reversed = x.reversed ∙ ap (λ r. reverse_onto (queued ctl.frontq) (queued r)) rear;
          ended = x.ended;
          emptied = x.emptied;
          same_nconns = x.same_nconns;
        }

    -- Once both queues are empty, and while every poll succeeds with nothing ready, the scheduling
    -- loop has not ended after any number of rounds: no fiber is left to send QUIT.
    pub scheduling_loop_idle :
        (fuel : ℕ) (ctl : Ctl W M)
        → PollsNothing
        → ctl.frontq ≡ nil
        → ctl.rearq ≡ nil
        → scheduling_loop lib host event_foreach status_address fuel uninit ctl ≡ done none
    unfolding scheduling_loop PollsNothing
    scheduling_loop_idle zero ctl quiet front rear = refl
    scheduling_loop_idle (suc fuel) ctl quiet front rear =
        let e : run_ready lib ctl.frontq ctl none ≡ done (true, none, ctl) =
          unfold run_ready in rw front in
        let p = quiet ctl.wasio in
        let rest =
          scheduling_loop_idle fuel (with_wasio (queue_swap ctl) p.after) quiet
            (unfold queue_swap in rear) (unfold queue_swap in front) in
        rw (run_next-quiet ctl ctl true none e p) rest

    -- The front queue has one node, whose next pointer was never set. If the fiber of the node is
    -- resumed, and its request is handled and does not stop the loop, the round goes on to that
    -- pointer: an access that C leaves undefined.
    pub run_next_wild :
        (ctl : Ctl W M) (fiber : ℕ) (arg : ℤ) (ctl' : Ctl W M)
        → ctl.frontq ≡ node (record { fiber = fiber; arg = arg }) wild
        → (let r = lib.fiber_resume ctl.memory ctl.wasio fiber arg in
            handle_request lib
              (resumed lib ctl (record { fiber = fiber; arg = arg }) wild)
              fiber
              r.status
              r.payload
            ≡ done (true, ctl'))
        → round ctl ≡ fault
    unfolding run_next
    run_next_wild ctl fiber arg ctl' front handled =
        rw
          (
            front,
            run_ready-node lib (record { fiber = fiber; arg = arg }) wild ctl none _ _ refl refl,
            handled,
          )
          (unfold run_ready in refl)

    -- When the fiber at the head of the front queue yields QUIT, and the poll succeeds with nothing
    -- ready, the scheduling loop ends with this round. The fibers behind it were not resumed: the
    -- memory is as the one fiber left it, and they are left in a queue.
    pub scheduling_loop_quit :
        (ctl : Ctl W M) (clo : FiberClosure) (q : Queue) (fuel : ℕ)
        → ctl.frontq ≡ node clo q
        → (lib.fiber_resume ctl.memory ctl.wasio clo.fiber clo.arg).status ≡ fiber_yield
        → (lib.fiber_resume ctl.memory ctl.wasio clo.fiber clo.arg).payload.tag ≡ quit
        → PollsNothing
        → (after : Ctl W M) × (scheduling_loop lib host event_foreach status_address
              (suc fuel)
              uninit
              ctl
            ≡ done (some after))
          × (after.rearq ≡ q)
          × (after.memory ≡ (lib.fiber_resume ctl.memory ctl.wasio clo.fiber clo.arg).memory)
    unfolding scheduling_loop PollsNothing
    scheduling_loop_quit ctl clo q fuel front yielded tag quiet =
        let e : run_ready lib ctl.frontq ctl none
            ≡ done (false, some fiber_yield, resumed lib ctl clo q) =
          rw (front, run_ready-node lib clo q ctl none _ _ yielded refl)
            (unfold handle_request handle_cmd in rw tag) in
        let p = quiet (resumed lib ctl clo q).wasio in
        (
          with_wasio (queue_swap (resumed lib ctl clo q)) p.after,
          rw (run_next-quiet ctl (resumed lib ctl clo q) false (some fiber_yield) e p),
          unfold queue_swap in refl,
          unfold queue_swap in refl,
        )
