-- ===== src/Httpserver/Queued/Taking.antt =====
-- examples/httpserver/httpserver.c: what `w_accept` does to the table, the queues and the closures.
use waeio.Prelude.{
  ℕ, zero, suc, ◌+◌, ◌<◌, ◌≤◌, ◌≡◌, refl, sym, ap, ◌∙◌, subst, arith, inl, inr, true, is_neg, ℤ,
  pos, minus_one, List, [], ◌∷◌, ◌++◌, get_or, length, append-nil, append_assoc, add32, u32_mod,
  eq_ℤ, Bool-cases, Outcome, done, ◌||◌,
}
use waeio.Wasio.{WasioResult, ok, efull, Host, translate_error}
use waeio.Wasio.Table.{after, State, wasio_accept, wasio_notify_recv}
use waeio.Wasio.Table.Invariant.{IsTable}
use waeio.Wasio.Table.Wrap.{Wrapped}
use waeio.Wasio.Table.Accept.{refused, no_room, opened, wasio_accept-Opened}
use waeio.Wasio.Table.Notify.{watching, watching-IsTable, notify_lem}
use waeio.Httpserver.WasioFiber.{FiberClosure}
use waeio.Httpserver.Queued.{Server, Platform, FiberQueue, fq_push, push_rear, notified}
use waeio.Httpserver.Queued.Coroutines.{w_accept}
use waeio.Httpserver.Queued.Queues.{queued, IsQueue, Pushed, fq_push_cases}

module _ {W M : Type 0} (host : Host W) (env : Platform W M) (e : ℕ) where
  -- The listener's descriptor is one of the table's, and the rear queue has room.
  pub record Ready (room : ℕ) (s : Server W M) : Type 0 where
    pub table : IsTable s.wasio.wfd
    pub below : e < s.wasio.wfd.capacity
    pub rear : IsQueue s.rearq
    pub space : s.rearq.length + room ≤ s.rearq.capacity
    pub countable : s.clients + room < u32_mod

  -- The server with one more connection.
  abbrev pub taken : Server W M → State W → FiberQueue → Server W M
  taken s wasio rearq = record s {
    wasio = wasio;
    rearq = rearq;
    memory = (env.fiber_alloc s.memory).1;
    clients = add32 s.clients 1;
  }

  abbrev pub closure : Server W M → ℤ → FiberClosure
  closure s conn = record { fiber = (env.fiber_alloc s.memory).0; fd = conn }

  -- The backend once the host has answered.
  abbrev pub heard : Server W M → State W
  heard s = after host s.wasio (host.accept s.wasio.world (get_or s.wasio.wfd.fds e minus_one))

  -- What the host answers to the listener.
  abbrev pub answer : Server W M → ℤ
  answer s = (host.accept s.wasio.world (get_or s.wasio.wfd.fds e minus_one)).answer

  -- Connections are taken one after the other, each with a descriptor of the table and a fiber in the
  -- rear queue, until there are `left` of them, the host refuses, or the table is full.
  pub data Took : ℕ → Server W M → WasioResult → Server W M → List FiberClosure → Type 0 where
    enough : {s : Server W M} → Took zero s ok s []
    turned_away :
        {left : ℕ} {s : Server W M}
        → is_neg (answer s) ≡ true
        → Took
            (suc left)
            s
            (translate_error host (heard s).host_errno)
            (record s { wasio = heard s })
            []
    no_entry :
        {left : ℕ} {s : Server W M} (fd : ℕ)
        → answer s ≡ pos fd
        → s.wasio.wfd.length ≡ s.wasio.wfd.capacity
        → Took (suc left) s efull (record s { wasio = heard s }) []
    takes :
        {left : ℕ} {s final : Server W M} {code : WasioResult} {new : List FiberClosure} (fd : ℕ)
        (t : IsTable s.wasio.wfd)
        (w : Wrapped (heard s) t (pos fd) (wasio_accept host s.wasio (pos e) minus_one))
        (rearq : FiberQueue)
        → answer s ≡ pos fd
        → queued rearq ≡ queued s.rearq ++ (closure s (pos w.entry) ∷ [])
        → Took left
            (taken s (record (heard s) { wfd = watching w.wfd e s.wasio.pollin }) rearq)
            code
            final
            new
        → Took (suc left) s code final (closure s (pos w.entry) ∷ new)

  -- Connections were accepted, with the fibers `new`: they wait in the rear queue and are counted, and
  -- the array of closures is as it was.
  pub record Accepted (left : ℕ) (s : Server W M) (o : Outcome (WasioResult × Server W M))
      : Type 0 where
    pub code : WasioResult
    pub final : Server W M
    pub new : List FiberClosure
    pub few : length new ≤ left
    pub returns : o ≡ done (code, final)
    pub table : IsTable final.wasio.wfd
    pub capacity_is : final.wasio.wfd.capacity ≡ s.wasio.wfd.capacity
    pub rear : IsQueue final.rearq
    pub queued_is : queued final.rearq ≡ queued s.rearq ++ new
    pub clients_is : final.clients ≡ s.clients + length new
    pub fibers_is : final.fibers ≡ s.fibers
    pub front_is : final.frontq ≡ s.frontq
    pub took : Took left s code final new

  none-Accepted :
      (left : ℕ) (s : Server W M) (wasio : State W) (code : WasioResult)
      {o : Outcome (WasioResult × Server W M)}
      → IsQueue s.rearq
      → IsTable wasio.wfd
      → wasio.wfd.capacity ≡ s.wasio.wfd.capacity
      → o ≡ done (code, record s { wasio = wasio })
      → Took left s code (record s { wasio = wasio }) []
      → Accepted left s o
  none-Accepted left s wasio code rear table cap q took = record {
    code = code;
    final = record s { wasio = wasio };
    new = [];
    few = omega arith;
    returns = q;
    table = table;
    capacity_is = cap;
    rear = rear;
    queued_is = sym (append-nil (queued s.rearq));
    clients_is = omega arith;
    fibers_is = refl;
    front_is = refl;
    took = took;
  }

  w_accept-ok :
      (left : ℕ) (s : Server W M) (conn : ℤ) (wasio wasio' : State W) (rearq : FiberQueue)
      → wasio_accept host s.wasio (pos e) minus_one ≡ done (ok, conn, wasio)
      → wasio_notify_recv wasio (pos e) ≡ done (ok, wasio')
      → fq_push s.rearq (closure s conn) ≡ done rearq
      → w_accept host env (suc left) (pos e) s
        ≡ w_accept host env left (pos e) (taken s wasio' rearq)
  unfolding w_accept notified push_rear
  w_accept-ok left s conn wasio wasio' rearq p q r = rw (p, q, r) refl

  w_accept-refused :
      (left : ℕ) (s : Server W M) (out : ℤ) (wasio : State W)
      → wasio_accept host s.wasio (pos e) minus_one
        ≡ done (translate_error host wasio.host_errno, out, wasio)
      → w_accept host env (suc left) (pos e) s
        ≡ done (translate_error host wasio.host_errno, record s { wasio = wasio })
  unfolding w_accept translate_error
  w_accept-refused left s out wasio p =
      elim (Bool-cases
        (eq_ℤ wasio.host_errno host.eagain || eq_ℤ wasio.host_errno host.ewouldblock)) [
          | inl again ↦ rw (p, again) refl
          | inr failed ↦ rw (p, failed) refl
        ]

  w_accept-no_room :
      (left : ℕ) (s : Server W M) (out : ℤ) (wasio : State W)
      → wasio_accept host s.wasio (pos e) minus_one ≡ done (efull, out, wasio)
      → w_accept host env (suc left) (pos e) s ≡ done (efull, record s { wasio = wasio })
  unfolding w_accept
  w_accept-no_room left s out wasio p = rw p refl

  cons-Accepted :
      (left : ℕ) (s : Server W M) (wasio : State W) (clo : FiberClosure)
      {o : Outcome (WasioResult × Server W M)} (x : Pushed s.rearq clo (fq_push s.rearq clo))
      → wasio.wfd.capacity ≡ s.wasio.wfd.capacity
      → s.clients + 1 < u32_mod
      → (a : Accepted left (taken s wasio x.after) o)
      → Took (suc left) s a.code a.final (clo ∷ a.new)
      → Accepted (suc left) s o
  cons-Accepted left s wasio clo x cap word a took = record {
    code = a.code;
    final = a.final;
    new = clo ∷ a.new;
    few = omega (arith, a.few);
    returns = a.returns;
    table = a.table;
    capacity_is = a.capacity_is ∙ cap;
    rear = a.rear;
    queued_is =
        a.queued_is
        ∙ ap (λ l. l ++ a.new) x.queued_is
        ∙ append_assoc (queued s.rearq) (clo ∷ []) a.new;
    clients_is = omega (arith, a.clients_is, word);
    fibers_is = a.fibers_is;
    front_is = a.front_is;
    took = took;
  }

  watched :
      (s : State W) (t : IsTable s.wfd)
      → e < s.wfd.capacity
      → wasio_notify_recv s (pos e) ≡ done (ok, record s { wfd = watching s.wfd e s.pollin })
  unfolding wasio_notify_recv
  watched s t below = notify_lem s t e s.pollin below

  pub w_accept-Accepted :
      (left : ℕ) (s : Server W M)
      → Ready left s
      → Accepted left s (w_accept host env left (pos e) s)
  w_accept-Accepted zero s r =
      none-Accepted zero s s.wasio ok r.rear r.table refl (unfold w_accept in refl) enough
  w_accept-Accepted (suc left) s r =
      elim (wasio_accept-Opened host s.wasio r.table e minus_one r.below) [
        | refused n q eq ↦
            none-Accepted (suc left) s (heard s) (translate_error host (heard s).host_errno) r.rear
              r.table refl (w_accept-refused left s minus_one (heard s) eq)
              (turned_away (rw q refl))
        | no_room fd q full eq ↦
            none-Accepted (suc left) s (heard s) efull r.rear r.table refl
              (w_accept-no_room left s minus_one (heard s) eq) (no_entry fd q full)
        | opened fd q w ↦
            let wasio = record (heard s) { wfd = w.wfd } in
            let below : e < w.wfd.capacity = omega (arith, r.below, w.same_capacity) in
            let wasio' = record wasio { wfd = watching w.wfd e wasio.pollin } in
            elim (fq_push_cases s.rearq (closure s (pos w.entry)) r.rear) [
              | inl (room, x) ↦
                  let next = taken s wasio' x.after in
                  let count : next.clients ≡ s.clients + 1 = omega (arith, r.countable) in
                  let rest = w_accept-Accepted left next (record {
                    table = watching-IsTable w.table e wasio.pollin below;
                    below = below;
                    rear = x.queue;
                    space = omega (arith, r.space, x.length_is, x.same_capacity);
                    countable = omega (arith, r.countable, count);
                  }) in
                  let a =
                    subst (Accepted left next)
                      (sym (
                        w_accept-ok left s (pos w.entry) wasio wasio' x.after w.returns
                          (watched wasio w.table below) x.returns))
                      rest in
                  cons-Accepted left s wasio' (closure s (pos w.entry)) x w.same_capacity
                    (omega (arith, r.countable)) a (takes fd r.table w x.after q x.queued_is a.took)
              | inr (full, _) ↦ absurd (omega (arith, full, r.space))
            ]
      ]
