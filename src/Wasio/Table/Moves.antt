-- ===== src/Wasio/Table/Moves.antt =====
-- src/wasio_host.c: each call on a table does what the map from virtual descriptors does.
use waeio.Prelude.{
  ℕ, ◌<◌, refl, ap, subst, arith, inl, inr, ℤ, pos, minus_one, is_neg, List, get_or, Outcome, done,
  Bool-cases, read_in_range,
}
use waeio.Wasio.{WasioResult, Host, Reply}
use waeio.Wasio.Table.{
  State, unused, after, wasio_poll, wasio_recv, wasio_send, wasio_notify_recv, wasio_notify_send,
  notify,
}
use waeio.Wasio.Table.Invariant.{IsTable, lookup}
use waeio.Wasio.Table.Close.{ClosesOpen, wasio_close_cases}
use waeio.Wasio.Table.Accept.{
  Opened, refused, no_room, opened, wasio_listen-Opened, wasio_accept-Opened,
}
use waeio.Wasio.Table.Notify.{watching, watching-IsTable, notify_lem}
use waeio.Wasio.Table.Calls.{
  Call, listens, accepts, polls, recvs, sends, closes, notifies_recv, notifies_send, Names,
  PollsInPlace, with_out, with_code, with_bytes, step,
}
use waeio.Wasio.Table.Polling.{polled_table, wasio_poll-eq}
use waeio.Wasio.Table.Spec
use waeio.Wasio.Table.Spec.{Bindings, or_closed, Same, Acquires, Releases, Polls, Move, Moves}
use waeio.Wasio.Table.View.{view, translates, polled, lookup-ne_none, Refines}

module _ {W : Type 0} (host : Host W) where
  -- A reply moves the host only.
  stays :
      (s : State W) (t : IsTable s.wfd) (r : Reply W)
      → Same (view s t) r.world (view (after host s r) t)
  stays s t r = record {
    image_is = λ j. refl;
    capacity_is = refl;
    count_is = refl;
    world_is = refl;
  }

  Opened-Refines :
      (s : State W) (t : IsTable s.wfd) (r : Reply W) (out : ℤ)
      {result : Outcome (WasioResult × ℤ × State W)}
      → Opened host s t r out result
      → Refines (Acquires (view s t) r) s.wfd.capacity (with_out result)
  Opened-Refines s t r out (refused n e q) = record {
    state = after host s r;
    returns = rw q;
    table = t;
    capacity_is = refl;
    moves = Spec.refused (rw e) (stays s t r);
  }
  Opened-Refines s t r out (no_room fd e full q) = record {
    state = after host s r;
    returns = rw q;
    table = t;
    capacity_is = refl;
    moves = Spec.no_room (rw e) full (stays s t r);
  }
  Opened-Refines s t r out (opened fd e w) = record {
    state = record (after host s r) { wfd = w.wfd };
    returns = rw w.returns;
    table = w.table;
    capacity_is = w.same_capacity;
    moves = Spec.gained w.entry (rw e) (record {
      below = w.below;
      fresh = w.fresh;
      least = λ j lt. lookup-ne_none t.list s.wfd.fds j (w.least j lt);
      image_is = λ j. rw e (w.binds j);
      capacity_is = w.same_capacity;
      count_is = w.longer;
      world_is = refl;
    });
  }

  poll-Refines :
      (s : State W) (evlen : ℕ) (timeout : ℤ) (t : IsTable s.wfd)
      → PollsInPlace host
      → Refines
          (Polls host (view s t) timeout)
          s.wfd.capacity
          (done ((wasio_poll host s evlen timeout).2))
  unfolding polled_table
  poll-Refines s evlen timeout t p =
      let r = host.poll s.world s.wfd.vfds s.wfd.capacity timeout in
      record {
        state = after host (record s { wfd = record (s.wfd) { vfds = r.fds } }) r.reply;
        returns = ap done (wasio_poll-eq host s evlen timeout);
        table = polled_table host s timeout t p;
        capacity_is = refl;
        moves = record {
          fds = s.wfd.vfds;
          room = t.vfds_room;
          asks = polled t;
          same = record {
            image_is = λ j. refl;
            capacity_is = refl;
            count_is = refl;
            world_is = refl;
          };
        };
      }

  recv-Refines :
      (s : State W) (e len recvlen : ℕ) (t : IsTable s.wfd)
      → e < s.wfd.capacity
      → Refines
          (Move host (view s t) (recvs e len recvlen))
          s.wfd.capacity
          (with_bytes (wasio_recv host s (pos e) len recvlen))
  unfolding wasio_recv
  recv-Refines s e len recvlen t below =
      let fd = or_closed (lookup t.list s.wfd.fds e) in
      let r = host.recv s.world fd len in
      record {
        state = after host s r.reply;
        returns =
            rw
              (
                read_in_range s.wfd.fds e minus_one (omega (arith, below, t.fds_room)),
                translates t e below,
              )
              (elim (Bool-cases (is_neg r.reply.answer)) [ inl q ↦ rw q | inr q ↦ rw q ]);
        table = t;
        capacity_is = refl;
        moves = stays s t r.reply;
      }

  send-Refines :
      (s : State W) (e : ℕ) (buf : List ℕ) (len sendlen : ℕ) (t : IsTable s.wfd)
      → e < s.wfd.capacity
      → Refines
          (Move host (view s t) (sends e buf len sendlen))
          s.wfd.capacity
          (with_out (wasio_send host s (pos e) buf len sendlen))
  unfolding wasio_send
  send-Refines s e buf len sendlen t below =
      let fd = or_closed (lookup t.list s.wfd.fds e) in
      let r = host.send s.world fd buf len in
      record {
        state = after host s r;
        returns =
            rw
              (
                read_in_range s.wfd.fds e minus_one (omega (arith, below, t.fds_room)),
                translates t e below,
              )
              (elim (Bool-cases (is_neg r.answer)) [ inl q ↦ rw q | inr q ↦ rw q ]);
        table = t;
        capacity_is = refl;
        moves = stays s t r;
      }

  notify-Refines :
      (s : State W) (e mask : ℕ) (t : IsTable s.wfd)
      → e < s.wfd.capacity
      → Refines (Same (view s t) s.world) s.wfd.capacity (with_code (notify s (pos e) mask))
  unfolding watching-IsTable
  notify-Refines s e mask t below = record {
    state = record s { wfd = watching s.wfd e mask };
    returns = rw (notify_lem s t e mask below);
    table = watching-IsTable t e mask below;
    capacity_is = refl;
    moves = record { image_is = λ j. refl; capacity_is = refl; count_is = refl; world_is = refl };
  }

  close-Refines :
      (s : State W) (e : ℕ) (t : IsTable s.wfd)
      → ClosesOpen host
      → e < s.wfd.capacity
      → Refines (Move host (view s t) (closes e)) s.wfd.capacity (step host s (closes e))
  unfolding step
  close-Refines s e t law below =
      subst
        (λ fd.
          Refines (Releases (view s t) e (host.close s.world fd)) s.wfd.capacity
            (step host s (closes e)))
        (polled t e below)
        (elim (wasio_close_cases host law s t e below) [
          | inl (ne, q) ↦ record {
            state = after host s (host.close s.world (get_or s.wfd.vfds e unused).fd);
            returns = rw q;
            table = t;
            capacity_is = refl;
            moves = Spec.kept ne (stays s t (host.close s.world (get_or s.wfd.vfds e unused).fd));
          }
          | inr (closed, x) ↦ record {
            state = record (after host s (host.close s.world (get_or s.wfd.vfds e unused).fd)) {
              wfd = x.wfd;
            };
            returns = rw x.returns;
            table = x.table;
            capacity_is = x.same_capacity;
            moves = Spec.released closed (record {
              held = lookup-ne_none t.list s.wfd.fds e (omega (arith, x.held));
              image_is = x.unbinds;
              capacity_is = x.same_capacity;
              count_is = x.shorter;
              world_is = refl;
            });
          }
        ])

  pub step-Refines :
      (s : State W) (c : Call) (t : IsTable s.wfd)
      → ClosesOpen host
      → PollsInPlace host
      → Names s.wfd.capacity c
      → Refines (Move host (view s t) c) s.wfd.capacity (step host s c)
  unfolding step wasio_notify_recv wasio_notify_send
  step-Refines s (listens vfd port backlog) t law p n =
      Opened-Refines s t _ vfd (wasio_listen-Opened host s t vfd port backlog)
  step-Refines s (accepts e new_conn) t law p n =
      subst
        (λ fd.
          Refines (Acquires (view s t) (host.accept s.world fd)) s.wfd.capacity
            (step host s (accepts e new_conn)))
        (translates t e n)
        (Opened-Refines s t _ new_conn (wasio_accept-Opened host s t e new_conn n))
  step-Refines s (polls evlen timeout) t law p n = poll-Refines s evlen timeout t p
  step-Refines s (recvs e len recvlen) t law p n = recv-Refines s e len recvlen t n
  step-Refines s (sends e buf len sendlen) t law p n = send-Refines s e buf len sendlen t n
  step-Refines s (closes e) t law p n = close-Refines s e t law n
  step-Refines s (notifies_recv e) t law p n = notify-Refines s e s.pollin t n
  step-Refines s (notifies_send e) t law p n = notify-Refines s e s.pollout t n
