-- ===== src/Wasio/Table/Results.antt =====
-- src/wasio_host.c: each call for a descriptor of the table returns normally.
use waeio.Prelude.{
  ◌≢◌, sym, if_on, if_off, eq_ℤ, ◌||◌, ℕ, ◌<◌, ◌≡◌, refl, ◌∙◌, arith, inl, inr, ℤ, pos, minus_one,
  is_neg, List, get_or, Bool-cases, Outcome, done, read_in_range,
}
use waeio.Wasio.{Host, ok, error, eagain, translate_error}
use waeio.Wasio.Table.{
  State, notify, wasio_accept, wasio_recv, wasio_send, wasio_close, wasio_notify_recv,
  wasio_notify_send,
}
use waeio.Wasio.Table.Invariant.{IsTable}
use waeio.Wasio.Table.Close.{ClosesOpen, wasio_close_cases}
use waeio.Wasio.Table.Accept.{refused, no_room, opened, wasio_accept-Opened}
use waeio.Wasio.Table.Notify.{watching, watching-IsTable, notify_lem}

module _ {W : Type 0} where
  -- A normal return, with the invariant and the capacity kept.
  pub record Normal {A : Type 0} (state : A → State W) (cap : ℕ) (o : Outcome A) : Type 0 where
    pub result : A
    pub returns : o ≡ done result
    pub table : IsTable (state result).wfd
    pub capacity_is : (state result).wfd.capacity ≡ cap

module _ {W : Type 0} (host : Host W) (s : State W) (t : IsTable s.wfd) (e : ℕ)
    (below : e < s.wfd.capacity) where
  not_ok : (errno : ℤ) → translate_error host errno ≢ ok
  unfolding translate_error
  not_ok errno q = elim (Bool-cases (eq_ℤ errno host.eagain || eq_ℤ errno host.ewouldblock)) [
    | inl blocks ↦ cc (sym (if_on eagain error blocks) ∙ q)
    | inr fails ↦ cc (sym (if_off eagain error fails) ∙ q)
  ]

  notify-Normal : (mask : ℕ) → Normal (λ r. r.1) s.wfd.capacity (notify s (pos e) mask)
  notify-Normal mask = record {
    result = (ok, record s { wfd = watching s.wfd e mask });
    returns = notify_lem s t e mask below;
    table = watching-IsTable t e mask below;
    capacity_is = refl;
  }

  pub wasio_notify_recv-Normal : Normal (λ r. r.1) s.wfd.capacity (wasio_notify_recv s (pos e))
  unfolding wasio_notify_recv
  wasio_notify_recv-Normal = notify-Normal s.pollin

  pub wasio_notify_send-Normal : Normal (λ r. r.1) s.wfd.capacity (wasio_notify_send s (pos e))
  unfolding wasio_notify_send
  wasio_notify_send-Normal = notify-Normal s.pollout

  pub wasio_close-Normal :
      ClosesOpen host → Normal (λ r. r.1) s.wfd.capacity (wasio_close host s (pos e))
  wasio_close-Normal law = elim (wasio_close_cases host law s t e below) [
    | inl (_, q) ↦ record { result = _; returns = q; table = t; capacity_is = refl }
    | inr (_, x) ↦ record {
      result = _;
      returns = x.returns;
      table = x.table;
      capacity_is = x.same_capacity;
    }
  ]

  pub wasio_send-Normal :
      (buf : List ℕ) (len sendlen : ℕ)
      → Normal (λ r. r.2) s.wfd.capacity (wasio_send host s (pos e) buf len sendlen)
  unfolding wasio_send
  wasio_send-Normal buf len sendlen =
      let r = host.send s.world (get_or s.wfd.fds e minus_one) buf len in
      rw (read_in_range s.wfd.fds e minus_one (omega (arith, below, t.fds_room)))
        (elim (Bool-cases (is_neg r.answer)) [
          | inl failed ↦
              rw failed (record { result = _; returns = refl; table = t; capacity_is = refl })
          | inr sent ↦
              rw sent (record { result = _; returns = refl; table = t; capacity_is = refl })
        ])

  -- The bytes are those of the host.
  pub wasio_recv-Normal :
      (len recvlen : ℕ)
      → (x : Normal (λ r. r.3) s.wfd.capacity (wasio_recv host s (pos e) len recvlen)) × (x.result.2
          ≡ (host.recv s.world (get_or s.wfd.fds e minus_one) len).bytes)
  unfolding wasio_recv
  wasio_recv-Normal len recvlen =
      let r = host.recv s.world (get_or s.wfd.fds e minus_one) len in
      rw (read_in_range s.wfd.fds e minus_one (omega (arith, below, t.fds_room)))
        (elim (Bool-cases (is_neg r.reply.answer)) [
          | inl failed ↦
              rw failed (record { result = _; returns = refl; table = t; capacity_is = refl }, refl)
          | inr got ↦
              rw got (record { result = _; returns = refl; table = t; capacity_is = refl }, refl)
        ])

  -- A new descriptor is one of the table's.
  pub wasio_accept-Normal :
      (new_conn : ℤ)
      → (x : Normal (λ r. r.2) s.wfd.capacity (wasio_accept host s (pos e) new_conn)) × (x.result.0
            ≡ ok
          → (n : ℕ) × (x.result.1 ≡ pos n) × (n < s.wfd.capacity))
  wasio_accept-Normal new_conn = elim (wasio_accept-Opened host s t e new_conn below) [
    | refused n answer q ↦ (
      record { result = _; returns = q; table = t; capacity_is = refl },
      λ is_ok. absurd (not_ok _ is_ok),
    )
    | no_room fd answer full q ↦
        (record { result = _; returns = q; table = t; capacity_is = refl }, λ is_ok. cc)
    | opened fd answer x ↦ (
      record { result = _; returns = x.returns; table = x.table; capacity_is = x.same_capacity },
      λ is_ok. (x.entry, refl, x.below),
    )
  ]
