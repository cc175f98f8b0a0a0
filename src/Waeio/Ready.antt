-- ===== src/Waeio/Ready.antt =====
-- src/waeio.c: the first loop of `run_next` makes no access out of range.
use waeio.Prelude.{
  append_assoc, ℕ, ◌≡◌, ◌<◌, ◌++◌, refl, sym, ◌∙◌, ap, subst, Bool, true, false, List, [], Option,
  some, Outcome, done, aborted, ◌>>=◌, to_u32,
}
use waeio.Wasio.Table.{State}
use waeio.Wasio.Table.Invariant.{IsTable}
use waeio.Waeio.{
  cmd_arg, CmdTag, accept, async, suspend, recv, send, quit, FiberResult, fiber_ok, fiber_error,
  fiber_yield, FiberClosure, Queue, nil, wild, node, Resumed, Fibers, Ctl, handle_request,
  run_ready,
}
use waeio.Waeio.Requeueing.{queued, IsEnded, continue, resumed, run_ready-node}
use waeio.Waeio.Requests.{goes_on, IsCtl, Kept, Handled, aborts, keeps, handle_request-Handled}

module _ {W M : Type 0} (lib : Fibers W M) where
  -- What the scheduler relies on of its fibers: they use the backend by its operations, which keep
  -- the table and its capacity, and a command names a descriptor of the table where the code reads
  -- one.
  pub record FibersBehave : Type 0 where
    pub keep_table :
        (m : M) (w : State W) (fiber : ℕ) (arg : _)
        → IsTable w.wfd
        → IsTable (lib.fiber_resume m w fiber arg).wasio.wfd
    pub keep_capacity :
        (m : M) (w : State W) (fiber : ℕ) (arg : _)
        → (lib.fiber_resume m w fiber arg).wasio.wfd.capacity ≡ w.wfd.capacity
    pub name_entries :
        (m : M) (w : State W) (fiber : ℕ) (arg : _)
        → IsTable w.wfd
        → to_u32 (cmd_arg (lib.fiber_resume m w fiber arg).payload) < w.wfd.capacity

  -- What the fiber of a closure gives when it is resumed.
  abbrev pub resumption : Ctl W M → FiberClosure → Resumed W M
  resumption ctl clo = lib.fiber_resume ctl.memory ctl.wasio clo.fiber clo.arg

  -- From a front queue and a state the loop comes to another, by requests that let it go on.
  pub data Visits : Queue → Ctl W M → Queue → Ctl W M → Type 0 where
    here : {q : Queue} {ctl : Ctl W M} → Visits q ctl q ctl
    passes :
        {clo : FiberClosure} {q q' : Queue} {ctl mid ctl' : Ctl W M}
        → handle_request lib
            (resumed lib ctl clo q)
            clo.fiber
            (resumption ctl clo).status
            (resumption ctl clo).payload
          ≡ done (true, mid)
        → Visits q mid q' ctl'
        → Visits (node clo q) ctl q' ctl'

  -- A fiber that the loop comes to fails when it is resumed.
  pub record Fails (q : Queue) (ctl : Ctl W M) : Type 0 where
    pub clo : FiberClosure
    pub behind : Queue
    pub at : Ctl W M
    pub visits : Visits q ctl (node clo behind) at
    pub failed : (resumption at clo).status ≡ fiber_error

  -- A fiber that the loop comes to yields QUIT.
  pub record Quits (q : Queue) (ctl : Ctl W M) : Type 0 where
    pub clo : FiberClosure
    pub behind : Queue
    pub at : Ctl W M
    pub visits : Visits q ctl (node clo behind) at
    pub yielded : (resumption at clo).status ≡ fiber_yield
    pub asked : (resumption at clo).payload.tag ≡ quit

  -- The loop's end: an abort, for a fiber that failed, or a state with the invariant in which the rear
  -- queue has kept its fibers. Either a fiber asked to quit, or the front queue is empty and every
  -- fiber has been resumed.
  pub data Ready (q : Queue) (ctl : Ctl W M)
      : Outcome (Bool × Option FiberResult × Ctl W M) → Type 0 where
    stops : Fails q ctl → Ready q ctl aborted
    goes :
        (keep_going : Bool) (last : Option FiberResult) (after : Ctl W M)
        → IsCtl after
        → after.max_conns ≡ ctl.max_conns
        → (keep_going ≡ true → (after.frontq ≡ nil) × Visits q ctl nil after)
        → (keep_going ≡ false → Quits q ctl)
        → (IsEnded ctl.rearq → IsEnded after.rearq)
        → (added : List ℕ) → queued after.rearq ≡ added ++ queued ctl.rearq
        → Ready q ctl (done (keep_going, last, after))

  resumed-IsCtl :
      FibersBehave
      → (ctl : Ctl W M) (clo : FiberClosure) (q : Queue) → IsCtl ctl
      → IsCtl (resumed lib ctl clo q)
  resumed-IsCtl b ctl clo q c = record {
    table = b.keep_table ctl.memory ctl.wasio clo.fiber clo.arg c.table;
    capacity_is = b.keep_capacity ctl.memory ctl.wasio clo.fiber clo.arg ∙ c.capacity_is;
    room = c.room;
  }

  module _ (ctl : Ctl W M) (clo : FiberClosure) (q : Queue) where
    abbrev before : Ctl W M
    before = resumed lib ctl clo q

    abbrev gives : Resumed W M
    gives = resumption ctl clo

    abbrev handled : Outcome (Bool × Ctl W M)
    handled = handle_request lib before clo.fiber gives.status gives.payload

    later-Fails :
        (mid : Ctl W M) → handled ≡ done (true, mid) → Fails q mid → Fails (node clo q) ctl
    later-Fails mid e x = record {
      clo = x.clo;
      behind = x.behind;
      at = x.at;
      visits = passes e x.visits;
      failed = x.failed;
    }

    later-Quits :
        (mid : Ctl W M) → handled ≡ done (true, mid) → Quits q mid → Quits (node clo q) ctl
    later-Quits mid e x = record {
      clo = x.clo;
      behind = x.behind;
      at = x.at;
      visits = passes e x.visits;
      yielded = x.yielded;
      asked = x.asked;
    }

    later-Ready :
        (mid : Ctl W M) {o : Outcome (Bool × Option FiberResult × Ctl W M)}
        → handled ≡ done (true, mid)
        → Kept lib before gives.status mid
        → Ready q mid o
        → Ready (node clo q) ctl o
    later-Ready mid e k (stops x) = stops (later-Fails mid e x)
    later-Ready mid e k (goes b last after c m front quits h more e') =
        goes b last after c (m ∙ k.same_max) (λ yes. ((front yes).0, passes e (front yes).1))
          (λ no. later-Quits mid e (quits no)) (λ x. h (k.ended x)) (more ++ k.added)
          (e' ∙ ap (λ l. more ++ l) k.rear_is ∙ sym (append_assoc more k.added (queued ctl.rearq)))

    stopped-Quits :
        (status : FiberResult) (tag : CmdTag)
        → gives.status ≡ status
        → gives.payload.tag ≡ tag
        → false ≡ goes_on status tag
        → Quits (node clo q) ctl
    unfolding goes_on
    stopped-Quits fiber_yield quit s t e = record {
      clo = clo;
      behind = q;
      at = ctl;
      visits = here;
      yielded = s;
      asked = t;
    }
    stopped-Quits fiber_yield accept s t e = cc
    stopped-Quits fiber_yield async s t e = cc
    stopped-Quits fiber_yield suspend s t e = cc
    stopped-Quits fiber_yield recv s t e = cc
    stopped-Quits fiber_yield send s t e = cc
    stopped-Quits fiber_ok tag s t e = cc
    stopped-Quits fiber_error tag s t e = cc

    next-Ready :
        (o : Outcome (Bool × Ctl W M))
        → handled ≡ o
        → Handled lib before gives.status gives.payload o
        → ((after : Ctl W M)
            → Kept lib before gives.status after
            → Ready q after (run_ready lib q after (some gives.status)))
        → Ready (node clo q) ctl (o >>= continue lib q gives.status)
    next-Ready o e (aborts failed) rest =
        stops (record { clo = clo; behind = q; at = ctl; visits = here; failed = failed })
    next-Ready o e (keeps true after k on) rest = later-Ready after e k (rest after k)
    next-Ready o e (keeps false after k on) rest =
        goes false (some gives.status) after k.invariant k.same_max (λ e. cc)
          (λ no. stopped-Quits gives.status gives.payload.tag refl refl on) k.ended k.added
          k.rear_is

  -- With fibers that keep the table and its capacity and name descriptors of the table where the
  -- code reads one, the first loop of `run_next`, over a front queue that ends with NULL and from a
  -- state with the invariant, makes no access out of range. It aborts only when it comes, by
  -- requests that let it go on, to a fiber that fails when it is resumed. Otherwise it ends with the
  -- invariant and with every fiber that was in the rear queue still there; it stops early only for a
  -- fiber that yields QUIT, and else with an empty front queue, when every fiber of the queue has
  -- been resumed.
  pub run_ready-Ready :
      (q : Queue) (ctl : Ctl W M) (status : Option FiberResult)
      → FibersBehave
      → IsCtl ctl
      → IsEnded q
      → ctl.frontq ≡ q
      → Ready q ctl (run_ready lib q ctl status)
  unfolding run_ready IsEnded
  run_ready-Ready nil ctl status b c ended front =
      goes true status ctl c refl (λ e. (front, here)) (λ e. cc) (λ h. h) [] refl
  run_ready-Ready wild ctl status b c ended front = absurd ended
  run_ready-Ready (node clo q) ctl status b c ended front =
      let r = resumption ctl clo in
      let here =
        handle_request-Handled lib (resumed lib ctl clo q) clo.fiber r.status r.payload
          (resumed-IsCtl b ctl clo q c)
          (subst (λ n. to_u32 (cmd_arg r.payload) < n) c.capacity_is
            (b.name_entries ctl.memory ctl.wasio clo.fiber clo.arg c.table)) in
      subst (Ready (node clo q) ctl)
        (sym (run_ready-node lib clo q ctl status r.status r.payload refl refl))
        (next-Ready ctl clo q _ refl here
          (λ after k. run_ready-Ready q after (some r.status) b k.invariant ended k.same_front))
