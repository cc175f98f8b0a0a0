-- ===== src/Wasio/Table/Polling.antt =====
-- src/wasio_host.c: `wasio_poll` changes the answers in the entries only.
use waeio.Prelude.{ℕ, ◌≡◌, sym, ◌∙◌, ap, subst, inl, inr, ℤ, is_neg, Bool-cases}
use waeio.Wasio.{Host}
use waeio.Wasio.Table.{Wfd, State, after, wasio_poll}
use waeio.Wasio.Table.Invariant.{IsTable}
use waeio.Wasio.Table.Calls.{PollsInPlace}

module _ {W : Type 0} (host : Host W) where
  wfd-wasio_poll :
      (s : State W) (evlen : ℕ) (timeout : ℤ)
      → (wasio_poll host s evlen timeout).2.wfd
        ≡ record (s.wfd) { vfds = (host.poll s.world s.wfd.vfds s.wfd.capacity timeout).fds }
  unfolding wasio_poll
  wfd-wasio_poll s evlen timeout =
      elim (Bool-cases
        (is_neg (host.poll s.world s.wfd.vfds s.wfd.capacity timeout).reply.answer)) [
          | inl e ↦ rw e
          | inr e ↦ rw e
        ]

  -- A poll changes the answers in the entries only.
  unfoldable pub polled_table :
      (s : State W) (timeout : ℤ)
      → IsTable s.wfd
      → PollsInPlace host
      → IsTable
          (record (s.wfd) { vfds = (host.poll s.world s.wfd.vfds s.wfd.capacity timeout).fds })
  polled_table s timeout t p = record {
    list = t.list;
    list_is = t.list_is;
    invariant = t.invariant;
    size_eq = t.size_eq;
    aligned = t.aligned;
    vfds_room = p.same_length s.world s.wfd.vfds s.wfd.capacity timeout ∙ t.vfds_room;
    fds_room = t.fds_room;
    unused_fd = t.unused_fd;
    agrees = λ e. p.same_fd s.world s.wfd.vfds s.wfd.capacity timeout e ∙ t.agrees e;
    counted = t.counted;
  }

  -- A poll keeps the table and its capacity.
  pub wasio_poll-IsTable :
      (s : State W) (evlen : ℕ) (timeout : ℤ)
      → IsTable s.wfd
      → PollsInPlace host
      → IsTable (wasio_poll host s evlen timeout).2.wfd
        × ((wasio_poll host s evlen timeout).2.wfd.capacity ≡ s.wfd.capacity)
  wasio_poll-IsTable s evlen timeout t p = (
    subst IsTable (sym (wfd-wasio_poll s evlen timeout)) (polled_table s timeout t p),
    ap (λ (w : Wfd). w.capacity) (wfd-wasio_poll s evlen timeout),
  )

  -- The state after a poll, apart from its errno.
  pub wasio_poll-eq :
      (s : State W) (evlen : ℕ) (timeout : ℤ)
      → let r = host.poll s.world s.wfd.vfds s.wfd.capacity timeout in
        (wasio_poll host s evlen timeout).2
        ≡ after host (record s { wfd = record (s.wfd) { vfds = r.fds } }) r.reply
  unfolding wasio_poll
  wasio_poll-eq s evlen timeout =
      elim (Bool-cases
        (is_neg (host.poll s.world s.wfd.vfds s.wfd.capacity timeout).reply.answer)) [
          | inl e ↦ rw e
          | inr e ↦ rw e
        ]
