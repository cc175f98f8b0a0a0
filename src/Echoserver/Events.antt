-- ===== src/Echoserver/Events.antt =====
-- examples/echoserver/echoserver.c: the handling of an event makes no access out of range, whatever the
-- host answers.
use waeio.Prelude.{
  zero, suc, ◌++◌, ℕ, ◌<◌, ◌≤◌, ◌≡◌, refl, sym, ap, ◌∙◌, subst, arith, true, false, ℤ, pos,
  minus_one, eq_ℤ, List, [], length, get_or, set, length-set, Option, some, none, add32, sub32,
  read_in_range, write_in_range,
}
use waeio.Wasio.{WasioResult, ok, error, efull, eagain, econn, Host}
use waeio.Wasio.Table.{wasio_notify_recv, wasio_notify_send}
use waeio.Wasio.Table.Close.{ClosesOpen}
use waeio.Wasio.Table.Results.{
  wasio_accept-Normal, wasio_recv-Normal, wasio_send-Normal, wasio_close-Normal,
  wasio_notify_recv-Normal, wasio_notify_send-Normal,
}
use waeio.Httpserver.Response.Fits.{write_behind}
use waeio.Httpserver.WasioFiber.{is_ok}
use waeio.Echoserver.{
  buffer_size, Server, notified, closed, close_clients, accept_client, echoed, echo, receive,
  send_back, serve, event,
}
use waeio.Echoserver.Safe.{
  Sound, Safe, returns-Safe, bind-Safe, choice-Safe, assert-Safe, call-Safe, notified-Safe,
  with_table,
}

module _ {W : Type 0} (host : Host W) (cap : ℕ) where
  closed-Safe :
      (e : ℕ) (s : Server W)
      → ClosesOpen host
      → Sound cap s
      → e < cap
      → Safe (λ t. t) cap (closed host (pos e) s)
  unfolding closed
  closed-Safe e s law d below =
      let x = wasio_close-Normal host s.wasio d.table e (omega (arith, below, d.capacity_is)) law in
      call-Safe (λ r. r.1) (λ t. t) cap s.wasio.wfd.capacity _ _ x
        (returns-Safe (λ t. t) cap _ (with_table s x d))

  accept_client-Safe :
      (e : ℕ) (clientfd : ℤ) (s : Server W)
      → Sound cap s
      → e < cap
      → Safe (λ t. t) cap (accept_client host (pos e) clientfd s)
  unfolding accept_client
  accept_client-Safe e clientfd s d below =
      let (x, names) =
        wasio_accept-Normal host s.wasio d.table e (omega (arith, below, d.capacity_is)) clientfd in
      call-Safe (λ r. r.2) (λ t. t) cap s.wasio.wfd.capacity _ _ x
        (assert-Safe (λ t. t) cap (is_ok x.result.0) _
          (λ q.
            let (n, new, inside) = names (is_ok-eq x.result.0 q) in
            let s' = record s { wasio = x.result.2; nclients = add32 s.nclients 1 } in
            let d' : Sound cap s' = record {
              table = x.table;
              capacity_is = x.capacity_is ∙ d.capacity_is;
              room = d.room;
            } in
            let watched = notified-Safe cap s' (wasio_notify_recv s'.wasio (pos n)) d' (
              wasio_notify_recv-Normal host s'.wasio d'.table n
                (omega (arith, inside, x.capacity_is))) in
            bind-Safe (λ t. t) (λ t. t) cap (notified s' (wasio_notify_recv s'.wasio x.result.1)) _
              (subst (λ v. Safe (λ t. t) cap (notified s' (wasio_notify_recv s'.wasio v))) (sym new)
                watched)
              (λ t u. notified-Safe cap t (wasio_notify_recv t.wasio (pos e)) u (
                wasio_notify_recv-Normal host t.wasio u.table e
                  (omega (arith, below, u.capacity_is))))))
    where
      is_ok-eq : (r : WasioResult) → is_ok r ≡ true → r ≡ ok
      is_ok-eq ok q = refl
      is_ok-eq error q = cc
      is_ok-eq efull q = cc
      is_ok-eq eagain q = cc
      is_ok-eq econn q = cc

  echo-Safe :
      (vfd : ℕ) (buffer : List ℕ) (nrecv : ℕ) (s : Server W)
      → ClosesOpen host
      → Sound cap s
      → vfd < cap
      → Safe (λ t. t) cap (echo host vfd buffer nrecv s)
  unfolding echo echoed
  echo-Safe vfd buffer nrecv s law d below =
      let x =
        wasio_send-Normal host s.wasio d.table vfd (omega (arith, below, d.capacity_is)) buffer
          nrecv 0 in
      let s' = record s { wasio = x.result.2 } in
      let d' : Sound cap s' = with_table s x d in
      call-Safe (λ r. r.2) (λ t. t) cap s.wasio.wfd.capacity _ _ x
        (choice-Safe (λ t. t) cap _ _ _
          (notified-Safe cap s' (wasio_notify_send s'.wasio (pos vfd)) d' (
            wasio_notify_send-Normal host s'.wasio d'.table vfd
              (omega (arith, below, d'.capacity_is))))
          (closed-Safe vfd s' law d' below))

  send_back-Safe :
      (vfd : ℕ) (buffer : List ℕ) (s : Server W)
      → ClosesOpen host
      → Sound cap s
      → vfd < cap
      → Safe (λ t. t) cap (send_back host vfd buffer s)
  unfolding send_back
  send_back-Safe vfd buffer s law d below =
      let x =
        wasio_send-Normal host s.wasio d.table vfd (omega (arith, below, d.capacity_is)) buffer
          buffer_size 0 in
      let buffers = set s.buffers vfd none in
      let s' = record s { wasio = x.result.2; buffers = buffers } in
      let d' : Sound cap s' = record {
        table = x.table;
        capacity_is = x.capacity_is ∙ d.capacity_is;
        room = length-set s.buffers vfd none ∙ d.room;
      } in
      call-Safe (λ r. r.2) (λ t. t) cap s.wasio.wfd.capacity _ _ x
        (assert-Safe (λ t. t) cap (is_ok x.result.0) _
          (λ q. rw (write_in_range s.buffers vfd none (omega (arith, below, d.room))) (
            bind-Safe (λ t. t) (λ t. t) cap (closed host (pos vfd) s') _
              (closed-Safe vfd s' law d' below)
              (λ t u.
                returns-Safe (λ t. t) cap (record t { nclients = sub32 t.nclients 1 })
                  (record { table = u.table; capacity_is = u.capacity_is; room = u.room })))))

  close_clients-Safe :
      (n : ℕ) (s : Server W)
      → ClosesOpen host
      → Sound cap s
      → n < cap
      → Safe (λ t. t) cap (close_clients host n s)
  unfolding close_clients
  close_clients-Safe zero s law d below =
      returns-Safe (λ t. t) cap (record s { nclients = 0 })
        (record { table = d.table; capacity_is = d.capacity_is; room = d.room })
  close_clients-Safe (suc n) s law d below =
      bind-Safe (λ t. t) (λ t. t) cap (closed host (pos (suc n)) s) _
        (closed-Safe (suc n) s law d below)
        (λ t u. close_clients-Safe n t law u (omega (arith, below)))

  receive-Safe :
      (vfd : ℕ) (block : List ℕ) (s : Server W)
      → ClosesOpen host
      → ((w : W) (fd : ℤ) (len : ℕ) → length (host.recv w fd len).bytes ≤ len)
      → buffer_size ≤ length block
      → Sound cap s
      → vfd < cap
      → s.nclients < cap
      → Safe (λ r. r.1) cap (receive host vfd (some block) s)
  unfolding receive
  receive-Safe vfd block s law at_most big d below few =
      let (x, given) =
        wasio_recv-Normal host s.wasio d.table vfd (omega (arith, below, d.capacity_is)) buffer_size
          0 in
      let w = write_behind [] block x.result.2 0 refl (
        omega (
          arith,
          big,
          ap length given,
          at_most s.wasio.world (get_or s.wasio.wfd.fds vfd minus_one) buffer_size,
        )) in
      let buffer = x.result.2 ++ w.0 in
      let s' = record s { wasio = x.result.3; buffers = set s.buffers vfd (some buffer) } in
      let d' : Sound cap s' = record {
        table = x.table;
        capacity_is = x.capacity_is ∙ d.capacity_is;
        room = length-set s.buffers vfd (some buffer) ∙ d.room;
      } in
      let ended = record s' { keep_going = false } in
      call-Safe (λ r. r.3) (λ r. r.1) cap s.wasio.wfd.capacity _ _ x
        (assert-Safe (λ r. r.1) cap (is_ok x.result.0) _
          (λ q.
            rw (w.1, write_in_range s.buffers vfd (some buffer) (omega (arith, below, d.room)))
              (choice-Safe (λ r. r.1) cap _ _ _
                (bind-Safe (λ t. t) (λ r. r.1) cap (close_clients host s.nclients ended) _
                  (close_clients-Safe s.nclients ended law
                    (record { table = d'.table; capacity_is = d'.capacity_is; room = d'.room }) few)
                  (λ t u. returns-Safe (λ r. r.1) cap (false, t) u))
                (bind-Safe (λ t. t) (λ r. r.1) cap (echo host vfd buffer x.result.1 s') _
                  (echo-Safe vfd buffer x.result.1 s' law d' below)
                  (λ t u. returns-Safe (λ r. r.1) cap (true, t) u)))))

module _ {W : Type 0} (host : Host W) (cap : ℕ) (malloc : ℕ → Option (List ℕ)) where
  -- The arrays have a place for the descriptor of an event, and `malloc` gives blocks of the size that
  -- it is asked for; then, on a table that satisfies the invariant, a host that refuses to close -1
  -- and receives at most what it is asked for, and fewer clients counted than there are descriptors,
  -- the handling of the event makes no access out of range. Whatever the host answers, an assertion
  -- on its answer fails, or the code returns normally with a table that satisfies the invariant, its
  -- capacity and the places for the buffers as they were.
  pub event-Safe :
      (sock vfd : ℕ) (clientfd : ℤ) (s : Server W)
      → ClosesOpen host
      → ((w : W) (fd : ℤ) (len : ℕ) → length (host.recv w fd len).bytes ≤ len)
      → ((n : ℕ) → (block : List ℕ) × (malloc n ≡ some block) × (buffer_size ≤ length block))
      → Sound cap s
      → sock < cap
      → vfd < cap
      → s.nclients < cap
      → Safe (λ r. r.1) cap (event host malloc (pos sock) clientfd vfd s)
  unfolding event serve
  event-Safe sock vfd clientfd s law at_most blocks d listens below few =
      choice-Safe (λ r. r.1) cap (eq_ℤ (pos vfd) (pos sock)) _ _
        (bind-Safe (λ t. t) (λ r. r.1) cap (accept_client host (pos sock) clientfd s) _
          (accept_client-Safe host cap sock clientfd s d listens)
          (λ t u. returns-Safe (λ r. r.1) cap (true, t) u))
        (rw (read_in_range s.buffers vfd none (omega (arith, below, d.room)))
          (serve-Safe (get_or s.buffers vfd none)))
    where
      serve-Safe :
          (buffer : Option (List ℕ)) → Safe (λ r. r.1) cap (serve host vfd (malloc vfd) buffer s)
      serve-Safe none =
          let (block, given, big) = blocks vfd in
          rw given (receive-Safe host cap vfd block s law at_most big d below few)
      serve-Safe (some buffer) =
          bind-Safe (λ t. t) (λ r. r.1) cap (send_back host vfd buffer s) _
            (send_back-Safe host cap vfd buffer s law d below)
            (λ t u. returns-Safe (λ r. r.1) cap (true, t) u)
