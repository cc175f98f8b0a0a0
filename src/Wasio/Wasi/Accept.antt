-- ===== src/Wasio/Wasi/Accept.antt =====
-- src/wasio_wasi.c: what `wasio_accept` does to the table, and what the new descriptor is good for.
use waeio.Prelude.{
  ℕ, ◌<◌, ◌≡◌, ◌≢◌, refl, ◌∙◌, ap, inl, inr, arith, ℤ, pos, minus_one, is_neg, true, get_or, set,
  length-set, get_or-set_self, if◌then◌else◌, Outcome, done, read_in_range, write_in_range,
  Bool-cases,
}
use waeio.Freelist.{freelist_next}
use waeio.Freelist.View.{free}
use waeio.Freelist.Next.{Found}
use waeio.Wasio.{WasioResult, ok, error, efull, Pollfd}
use waeio.Wasio.Table.{unused}
use waeio.Wasio.Wasi.{System, State, wasio_wrap, accept_with, wasio_accept, wasio_recv}
use waeio.Wasio.Wasi.Wrap.{HasRoom, bound, bound-HasRoom, wasio_wrap_cases}

-- The system has no descriptor -1 to receive from.
pub record RefusesUnopened {W : Type 0} (sys : System W) : Type 0 where
  pub refuses : (w : W) (len : ℕ) → is_neg (sys.recv w minus_one len).0 ≡ true

module _ {W : Type 0} (sys : System W) (s : State W) (t : HasRoom s.wfd) (e : ℕ)
    (below : e < s.wfd.capacity) where
  -- An accept on `e` that binds a virtual descriptor which was free.
  pub record Accepted (result : Outcome (WasioResult × ℤ × State W)) : Type 0 where
    pub entry : ℕ
    pub after : State W
    pub returns : result ≡ done (ok, pos entry, after)
    pub inside : entry < s.wfd.capacity
    pub fresh : free t.list entry ≡ 1
    pub table : HasRoom after.wfd
    pub same_capacity : after.wfd.capacity ≡ s.wfd.capacity
    pub receives_from : get_or after.wfd.fds entry minus_one ≡ minus_one

  module _ (x : Found t.list (freelist_next t.list 0)) (inside : x.taken < s.wfd.capacity) where
    abbrev wrapped : State W
    wrapped = record s { wfd = bound s.wfd x.rest x.taken minus_one minus_one }

    from_minus_one : get_or (set s.wfd.fds x.taken minus_one) x.taken minus_one ≡ minus_one
    from_minus_one =
        get_or-set_self s.wfd.fds x.taken minus_one minus_one (omega (arith, inside, t.fds_room))

    abbrev answer : ℤ × W
    answer = sys.accept s.world (get_or wrapped.wfd.fds e minus_one)

    polled : State W
    polled = record {
      wfd = record (wrapped.wfd) {
        vfds =
            set wrapped.wfd.vfds x.taken
              (record (get_or wrapped.wfd.vfds x.taken unused) { fd = answer.0 });
      };
      world = answer.1;
    }

    accept_with-eq : accept_with sys wrapped (pos e) (pos x.taken) ≡ (
        if is_neg answer.0
        then done (ok, pos x.taken, record wrapped { world = answer.1 })
        else done (ok, pos x.taken, polled))
    unfolding accept_with polled
    accept_with-eq =
        let t' = bound-HasRoom t x minus_one minus_one in
        rw (
          read_in_range wrapped.wfd.fds e minus_one (omega (arith, below, t'.fds_room)),
          read_in_range wrapped.wfd.vfds x.taken unused (omega (arith, inside, t'.vfds_room)),
          write_in_range wrapped.wfd.vfds x.taken
              (record (get_or wrapped.wfd.vfds x.taken unused) { fd = answer.0 })
              (omega (arith, inside, t'.vfds_room)),
        )

    polled-HasRoom : HasRoom polled.wfd
    unfolding polled bound-HasRoom
    polled-HasRoom =
        let t' = bound-HasRoom t x minus_one minus_one in
        record {
          list = t'.list;
          list_is = t'.list_is;
          invariant = t'.invariant;
          size_eq = t'.size_eq;
          aligned = t'.aligned;
          vfds_room = length-set wrapped.wfd.vfds x.taken _ ∙ t'.vfds_room;
          fds_room = t'.fds_room;
        }

    accept_with-Accepted : Accepted (accept_with sys wrapped (pos e) (pos x.taken))
    unfolding polled
    accept_with-Accepted = elim (Bool-cases (is_neg answer.0)) [
      | inl refused ↦ record {
        entry = x.taken;
        after = record wrapped { world = answer.1 };
        returns = rw (accept_with-eq, refused);
        inside = inside;
        fresh = x.eligible.2;
        table = bound-HasRoom t x minus_one minus_one;
        same_capacity = refl;
        receives_from = from_minus_one;
      }
      | inr accepted ↦ record {
        entry = x.taken;
        after = polled;
        returns = rw (accept_with-eq, accepted);
        inside = inside;
        fresh = x.eligible.2;
        table = polled-HasRoom;
        same_capacity = refl;
        receives_from = from_minus_one;
      }
    ]

  wasio_accept-ok :
      (out : ℤ) (x : Found t.list (freelist_next t.list 0)) (inside : x.taken < s.wfd.capacity)
      → wasio_wrap s.wfd minus_one out
        ≡ done (ok, pos x.taken, bound s.wfd x.rest x.taken minus_one minus_one)
      → Accepted (wasio_accept sys s (pos e) out)
  unfolding wasio_accept
  wasio_accept-ok out x inside q = rw q (accept_with-Accepted x inside)

  wasio_accept-efull :
      (out : ℤ)
      → wasio_wrap s.wfd minus_one out ≡ done (efull, out, s.wfd)
      → wasio_accept sys s (pos e) out ≡ accept_with sys s (pos e) out
  unfolding wasio_accept
  wasio_accept-efull out q = rw q

  -- With a system that receives nothing from -1, on a table whose freelist and arrays have room for
  -- its descriptors, `wasio_accept` on a descriptor `e` of the table, while some virtual descriptor
  -- is free, binds one that was free and returns WASIO_OK, whatever the system answers; every
  -- `wasio_recv` on it then returns WASIO_ERROR.
  pub wasio_accept-wasio_recv :
      (out : ℤ) (j : ℕ)
      → RefusesUnopened sys
      → j < s.wfd.capacity
      → free t.list j ≡ 1
      → (x : Accepted (wasio_accept sys s (pos e) out)) × ((len recvlen : ℕ)
          → let r = sys.recv x.after.world minus_one len in
            wasio_recv sys x.after (pos x.entry) len recvlen
            ≡ done (error, recvlen, r.1, record (x.after) { world = r.2 }))
  unfolding wasio_recv
  wasio_accept-wasio_recv out j law h one = elim (wasio_wrap_cases t minus_one out) [
    | inl (x, inside, q) ↦
        let a = wasio_accept-ok out x inside q in
        (
          a,
          λ len recvlen. rw (
            read_in_range a.after.wfd.fds a.entry minus_one
                (omega (arith, a.inside, a.table.fds_room, a.same_capacity)),
            a.receives_from,
            law.refuses a.after.world len,
          ),
        )
    | inr (none_free, _) ↦ absurd (none_free j h one)
  ]

  -- When no virtual descriptor is free, and the caller's variable holds a descriptor `k` of the
  -- table, `wasio_accept` still has the system accept a connection and returns WASIO_OK and `k`: the
  -- connection replaces what is polled under `k`, while the freelist and the count stay.
  pub wasio_accept_when_full :
      (k n : ℕ)
      → k < s.wfd.capacity
      → ((j : ℕ) → j < s.wfd.capacity → free t.list j ≢ 1)
      → (sys.accept s.world (get_or s.wfd.fds e minus_one)).0 ≡ pos n
      → (after : State W) × (wasio_accept sys s (pos e) (pos k) ≡ done (ok, pos k, after))
        × ((get_or after.wfd.vfds k unused).fd ≡ pos n)
        × (after.wfd.fl ≡ s.wfd.fl)
        × (after.wfd.length ≡ s.wfd.length)
  unfolding accept_with
  wasio_accept_when_full k n inside none_free accepted =
      elim (wasio_wrap_cases t minus_one (pos k)) [
        | inl (x, small, _) ↦ absurd (none_free x.taken small x.eligible.2)
        | inr (_, q) ↦ (
          record {
            wfd = record (s.wfd) {
              vfds = set s.wfd.vfds k (record (get_or s.wfd.vfds k unused) { fd = pos n });
            };
            world = (sys.accept s.world (get_or s.wfd.fds e minus_one)).1;
          },
          wasio_accept-efull (pos k) q
              ∙ rw (
                read_in_range s.wfd.fds e minus_one (omega (arith, below, t.fds_room)),
                accepted,
                read_in_range s.wfd.vfds k unused (omega (arith, inside, t.vfds_room)),
                write_in_range s.wfd.vfds k (record (get_or s.wfd.vfds k unused) { fd = pos n })
                    (omega (arith, inside, t.vfds_room)),
              ),
          ap (λ (p : Pollfd). p.fd)
              (get_or-set_self s.wfd.vfds k _ unused (omega (arith, inside, t.vfds_room))),
          refl,
          refl,
        )
      ]
