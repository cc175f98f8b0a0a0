-- ===== src/Waeio/Requeueing.antt =====
-- src/waeio.c: the first loop of a round, one fiber at a time.
use waeio.Prelude.{
  ℕ, ◌≡◌, refl, ◌∙◌, Bool, true, false, ℤ, pos, List, [], ◌∷◌, Option, some, if◌then◌else◌, Outcome,
  done, ◌>>=◌,
}
use waeio.Wasio.Table.{State}
use waeio.Waeio.{
  Cmd, FiberResult, fiber_yield, suspend, FiberClosure, Queue, nil, wild, node, Fibers, Ctl,
  enqueue, queue_push, handle_cmd, handle_request, resume, run_ready, status_variable,
  queue_is_empty, queue_pop,
}

-- The fibers of a queue, from its head.
unfoldable pub queued : Queue → List ℕ
queued nil = []
queued wild = []
queued (node clo q) = clo.fiber ∷ queued q

unfoldable pub reverse_onto : List ℕ → List ℕ → List ℕ
reverse_onto [] ys = ys
reverse_onto (x ∷ xs) ys = reverse_onto xs (x ∷ ys)

-- A queue that ends with NULL.
unfoldable pub IsEnded : Queue → Type 0
IsEnded nil = Unit {0}
IsEnded wild = ⊥
IsEnded (node clo q) = IsEnded q

module _ {W M : Type 0} (lib : Fibers W M) where
  -- Each fiber suspends itself whenever it is resumed.
  unfoldable pub AllSuspend : Type 0
  AllSuspend =
      (m : M) (w : State W) (fiber : ℕ) (arg : ℤ)
      → ((lib.fiber_resume m w fiber arg).status ≡ fiber_yield)
        × ((lib.fiber_resume m w fiber arg).payload.tag ≡ suspend)

  -- `ctl` after the fiber of `clo` was resumed, with `q` left in the front queue.
  abbrev pub resumed : Ctl W M → FiberClosure → Queue → Ctl W M
  resumed ctl clo q = record ctl {
    frontq = q;
    wasio = (lib.fiber_resume ctl.memory ctl.wasio clo.fiber clo.arg).wasio;
    memory = (lib.fiber_resume ctl.memory ctl.wasio clo.fiber clo.arg).memory;
  }

  -- Where the loop goes after the request of one fiber has been handled.
  abbrev pub continue :
      Queue → FiberResult → Bool × Ctl W M → Outcome (Bool × Option FiberResult × Ctl W M)
  continue q status next =
      let rest = run_ready lib q next.1 (some status) in
      if next.0 then rest else done (false, some status, next.1)

  pub run_ready-node :
      (clo : FiberClosure) (q : Queue) (ctl : Ctl W M) (status : Option FiberResult)
      (r : FiberResult) (cmd : Cmd)
      → (lib.fiber_resume ctl.memory ctl.wasio clo.fiber clo.arg).status ≡ r
      → (lib.fiber_resume ctl.memory ctl.wasio clo.fiber clo.arg).payload ≡ cmd
      → run_ready lib (node clo q) ctl status
        ≡ (handle_request lib (resumed ctl clo q) clo.fiber r cmd >>= continue q r)
  unfolding run_ready resume
  run_ready-node clo q ctl status r cmd e f = rw (e, f)

  -- `run_ready` is the loop of the code: it asks `queue_is_empty`, and its body pops one node, resumes
  -- the fiber and handles the request.
  pub run_ready-loop :
      (q : Queue) (ctl : Ctl W M) (status : Option FiberResult)
      → run_ready lib q ctl status ≡ (
          queue_is_empty q >>= λ empty.
          if empty
          then done (true, status, ctl)
          else (queue_pop q >>= λ p.
              resume lib (record ctl { frontq = p.1 }) p.0.fiber p.0.arg status_variable >>= λ r.
              handle_request lib r.2 p.0.fiber r.0 r.1 >>= continue p.1 r.0))
  unfolding run_ready queue_is_empty queue_pop
  run_ready-loop nil ctl status = refl
  run_ready-loop wild ctl status = refl
  run_ready-loop (node clo q) ctl status = refl

  -- A fiber that suspends itself is put behind NULL as its argument on the rear queue.
  abbrev requeued : Ctl W M → FiberClosure → Queue → Ctl W M
  requeued ctl clo q = record (resumed ctl clo q) {
    rearq = node (record { fiber = clo.fiber; arg = pos 0 }) ctl.rearq;
  }

  run_ready-suspend :
      (clo : FiberClosure) (q : Queue) (ctl : Ctl W M) (status : Option FiberResult)
      → AllSuspend
      → run_ready lib (node clo q) ctl status
        ≡ run_ready lib q (requeued ctl clo q) (some fiber_yield)
  unfolding AllSuspend handle_request handle_cmd enqueue queue_push
  run_ready-suspend clo q ctl status all =
      let here = all ctl.memory ctl.wasio clo.fiber clo.arg in
      run_ready-node clo q ctl status _ _ here.0 refl ∙ rw here.1

  -- The first loop of a round in which each fiber suspends itself.
  pub record Requeued (q : Queue) (ctl : Ctl W M) (status : Option FiberResult) : Type 0 where
    pub last : Option FiberResult
    pub after : Ctl W M
    pub returns : run_ready lib q ctl status ≡ done (true, last, after)
    pub reversed : queued after.rearq ≡ reverse_onto (queued q) (queued ctl.rearq)
    pub ended : IsEnded after.rearq
    pub emptied : after.frontq ≡ nil
    pub same_nconns : after.nconns ≡ ctl.nconns

  pub run_ready_suspends :
      (q : Queue) (ctl : Ctl W M) (status : Option FiberResult)
      → AllSuspend
      → IsEnded q
      → IsEnded ctl.rearq
      → ctl.frontq ≡ q
      → Requeued q ctl status
  unfolding queued reverse_onto IsEnded run_ready
  run_ready_suspends nil ctl status all ended rear front = record {
    last = status;
    after = ctl;
    returns = refl;
    reversed = refl;
    ended = rear;
    emptied = front;
    same_nconns = refl;
  }
  run_ready_suspends wild ctl status all ended rear front = absurd ended
  run_ready_suspends (node clo q) ctl status all ended rear front =
      let x = run_ready_suspends q (requeued ctl clo q) (some fiber_yield) all ended rear refl in
      record {
        last = x.last;
        after = x.after;
        returns = run_ready-suspend clo q ctl status all ∙ x.returns;
        reversed = x.reversed;
        ended = x.ended;
        emptied = x.emptied;
        same_nconns = x.same_nconns;
      }
