-- ===== src/Echoserver/Echo.antt =====
-- examples/echoserver/echoserver.c: what becomes of a client.
use waeio.Prelude.{
  ℕ, zero, suc, ◌<◌, ◌≡◌, ◌≢◌, refl, sym, ap, ◌∙◌, arith, inl, inr, true, false, ℤ, pos, minus_one,
  is_neg, eq_ℤ, eq_ℤ-ne, List, length, get_or, set, take, Option, some, none, ◌||◌, Outcome, done,
  aborted, fault, ◌>>=◌, read_in_range, write_in_range, get_or-set_self, length-set, read, if_cases,
}
use waeio.Wasio.{WasioResult, ok, error, efull, econn, eagain, Host, translate_error}
use waeio.Wasio.Table.{State, unused, after, wasio_recv, wasio_send}
use waeio.Wasio.Table.Invariant.{IsTable}
use waeio.Wasio.Table.Close.{ClosesOpen, wasio_close_cases}
use waeio.Driver.{write_bytes}
use waeio.Httpserver.Response.{bytes}
use waeio.Httpserver.Request.{eq_bytes}
use waeio.Echoserver.{
  buffer_size, Server, notified, closed, close_clients, echoed, echo, receive, send_back, serve,
  event,
}

module _ {W : Type 0} (host : Host W) where
  -- A send on a blocking descriptor is not recognised, since the backend reports it as WASIO_EAGAIN and
  -- the code compares with WASIO_ERROR: when the host refuses to send with EAGAIN or EWOULDBLOCK, the
  -- connection is closed, although nothing was sent, instead of waiting until it can be written to.
  pub echo_blocked :
      (vfd : ℕ) (buffer : List ℕ) (nrecv : ℕ) (s : Server W)
      → let r = host.send s.wasio.world (get_or s.wasio.wfd.fds vfd minus_one) buffer nrecv in
        let w = after host s.wasio r in
        vfd < length s.wasio.wfd.fds
        → is_neg r.answer ≡ true
        → (eq_ℤ w.host_errno host.eagain || eq_ℤ w.host_errno host.ewouldblock) ≡ true
        → echo host vfd buffer nrecv s ≡ closed host (pos vfd) (record s { wasio = w })
  unfolding echo echoed wasio_send translate_error
  echo_blocked vfd buffer nrecv s inside refused blocks =
      rw (read_in_range s.wasio.wfd.fds vfd minus_one inside, refused, blocks) refl

  -- Neither a close nor a wait touches the buffers.
  value : Server W → Outcome (Server W) → Server W
  value d (done s) = s
  value d _ = d

  same_value : (s t : Server W) → done s ≡ done t → s ≡ t
  unfolding value
  same_value s t q = ap (value s) q

  notified_keeps :
      (s : Server W) (o : Outcome (WasioResult × State W)) (s' : Server W)
      → notified s o ≡ done s'
      → s'.buffers ≡ s.buffers
  unfolding notified
  notified_keeps s (done (ok, w)) s' q = ap (λ (t : Server W). t.buffers) (sym (same_value _ _ q))
  notified_keeps s (done (error, w)) s' q = cc
  notified_keeps s (done (efull, w)) s' q = cc
  notified_keeps s (done (eagain, w)) s' q = cc
  notified_keeps s (done (econn, w)) s' q = cc
  notified_keeps s aborted s' q = cc
  notified_keeps s fault s' q = cc

  ignoring_keeps :
      (s : Server W) (o : Outcome (WasioResult × State W)) (s' : Server W)
      → (o >>= λ r. done (record s { wasio = r.1 })) ≡ done s'
      → s'.buffers ≡ s.buffers
  ignoring_keeps s (done r) s' q = ap (λ (t : Server W). t.buffers) (sym (same_value _ _ q))
  ignoring_keeps s aborted s' q = cc
  ignoring_keeps s fault s' q = cc

  echoed_keeps :
      (vfd nrecv : ℕ) (s : Server W) (r : WasioResult × ℕ × State W) (s' : Server W)
      → echoed host vfd nrecv s r ≡ done s'
      → s'.buffers ≡ s.buffers
  unfolding echoed closed
  echoed_keeps vfd nrecv s r s' q =
      if_cases _ _ _ (done s') (notified_keeps (record s { wasio = r.2 }) _ s')
        (ignoring_keeps (record s { wasio = r.2 }) _ s') q

  echo_keeps :
      (vfd : ℕ) (buffer : List ℕ) (nrecv : ℕ) (s : Server W)
      (o : Outcome (WasioResult × ℕ × State W)) (s' : Server W)
      → (o >>= echoed host vfd nrecv s) ≡ done s'
      → s'.buffers ≡ s.buffers
  echo_keeps vfd buffer nrecv s (done r) s' q = echoed_keeps vfd nrecv s r s' q
  echo_keeps vfd buffer nrecv s aborted s' q = cc
  echo_keeps vfd buffer nrecv s fault s' q = cc

  -- A client that is served by an echo keeps its buffer, also when its descriptor has been closed: the
  -- next client that gets the descriptor is not received from, but is sent the whole old buffer.
  pub buffer_outlives :
      (malloc : ℕ → Option (List ℕ)) (sockfd clientfd : ℤ) (vfd n : ℕ) (block new buffer : List ℕ)
      (w : State W) (s s' t : Server W)
      → wasio_recv host s.wasio (pos vfd) buffer_size 0 ≡ done (ok, n, new, w)
      → write_bytes block 0 new ≡ done buffer
      → eq_bytes (take 4 buffer) (bytes "quit") ≡ false
      → vfd < length s.buffers
      → echo host vfd buffer n (record s { wasio = w; buffers = set s.buffers vfd (some buffer) })
        ≡ done s'
      → pos vfd ≢ sockfd
      → t.buffers ≡ s'.buffers
      → (receive host vfd (some block) s ≡ done (true, s'))
        × (event host malloc sockfd clientfd vfd t
            ≡ (send_back host vfd buffer t >>= λ u. done (true, u)))
  unfolding receive event serve
  buffer_outlives malloc sockfd clientfd vfd n block new buffer w s s' t got stored other inside
        echoed_to ne same =
      let with_buffer = set s.buffers vfd (some buffer) in
      let kept : t.buffers ≡ with_buffer =
        same
        ∙ (unfold echo in
            echo_keeps vfd buffer n (record s { wasio = w; buffers = with_buffer }) _ s'
              echoed_to) in
      let found : read t.buffers (pos vfd) ≡ done (some buffer) =
        ap (λ (l : List (Option (List ℕ))). read l (pos vfd)) kept
        ∙ read_in_range with_buffer vfd none
            (omega (arith, inside, length-set s.buffers vfd (some buffer)))
        ∙ ap done (get_or-set_self s.buffers vfd (some buffer) none inside) in
      (
        rw (got, stored, write_in_range s.buffers vfd (some buffer) inside, other, echoed_to) refl,
        rw (found, eq_ℤ-ne (pos vfd) sockfd ne) refl,
      )

  -- On a table that satisfies the invariant and a host that refuses to close -1, the closes of the
  -- descriptors of the table from `n` down to 1, when a client quits, return normally, whether the host
  -- refuses them or not, with the invariant and the capacity kept.
  pub close_clients-IsTable :
      (n : ℕ) (s : Server W)
      → ClosesOpen host
      → IsTable s.wasio.wfd
      → n < s.wasio.wfd.capacity
      → (s' : Server W) × (close_clients host n s ≡ done s')
        × IsTable s'.wasio.wfd
        × (s'.wasio.wfd.capacity ≡ s.wasio.wfd.capacity)
  unfolding close_clients closed
  close_clients-IsTable zero s law t below = (record s { nclients = 0 }, refl, t, refl)
  close_clients-IsTable (suc n) s law t below =
      let r = host.close s.wasio.world (get_or s.wasio.wfd.vfds (suc n) unused).fd in
      elim (wasio_close_cases host law s.wasio t (suc n) below) [
        | inl (_, q) ↦
            let ih =
              close_clients-IsTable n (record s { wasio = after host s.wasio r }) law t
                (omega (arith, below)) in
            (ih.0, rw q ih.1, ih.2, ih.3)
        | inr (_, x) ↦
            let s' = record s { wasio = record (after host s.wasio r) { wfd = x.wfd } } in
            let ih =
              close_clients-IsTable n s' law x.table (omega (arith, below, x.same_capacity)) in
            (ih.0, rw x.returns ih.1, ih.2, ih.3 ∙ x.same_capacity)
      ]
