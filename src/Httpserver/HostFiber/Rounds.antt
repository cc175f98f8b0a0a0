-- ===== src/Httpserver/HostFiber/Rounds.antt =====
-- examples/httpserver/httpserver_fiber.c: the request loop stays within the arrays.
use waeio.Prelude.{
  if_off, ℕ, zero, suc, ◌<◌, ◌≡◌, ◌⊎◌, refl, ap, ◌∙◌, arith, inl, inr, true, false, Bool, ℤ,
  minus_one, is_neg, eq_ℤ, to_nat, Option, none, some, u32_mod, Bool-cases, Outcome, done, ◌>>=◌,
  if◌then◌else◌, ◌==◌,
}
use waeio.Wasio.{Host}
use waeio.Wasio.Table.Calls.{PollsInPlace}
use waeio.Httpserver.Compress.{compress_keeps, no_more_open}
use waeio.Httpserver.WasioFiber.{FiberClosure, zip_entries, entry_fds, entry_fibers, entry_copy}
use waeio.Httpserver.WasioFiber.Commands.{
  fd_and_fiber, length-zip_entries, length-entry_fds, length-entry_fibers,
}
use waeio.Httpserver.HostFiber.{
  Server, Platform, heard, poll_timeout, compress_pollfd, request_round, request_loop,
}
use waeio.Httpserver.HostFiber.Bounds.{none_here, no_fiber, Fits}
use waeio.Httpserver.HostFiber.Safe.{KeepsEntries}
use waeio.Httpserver.HostFiber.Entries.{visit_all-Safe}

module _ {W M : Type 0} (host : Host W) (env : Platform W M) where
  compress_pollfd-Fits :
      (s : Server W M)
      → Fits host env s
      → (t : Server W M) × (compress_pollfd s ≡ done t) × Fits host env t
  unfolding compress_pollfd
  compress_pollfd-Fits s f =
      let same = length-zip_entries s.fds s.fibers (omega (arith, f.fds_room, f.fibers_room)) in
      let (after, n, q, size, count, keys) =
        compress_keeps fd_and_fiber (λ (k : ℤ × FiberClosure). eq_ℤ k.0 minus_one) entry_copy
          (λ here next. refl) (none_here, no_fiber) (zip_entries s.fds s.fibers) s.nfds
          (omega (arith, same, f.within, f.fds_room)) in
      (
        record s { fds = entry_fds after; fibers = entry_fibers after; nfds = n },
        ap
            (λ o. o >>= λ r.
              done (record s { fds = entry_fds r.0; fibers = entry_fibers r.0; nfds = r.1 }))
            q,
        record {
          fds_room = omega (arith, length-entry_fds after, size, same, f.fds_room);
          fibers_room = omega (arith, length-entry_fibers after, size, same, f.fds_room);
          within = omega (
            arith,
            count,
            f.within,
            no_more_open fd_and_fiber (λ (k : ℤ × FiberClosure). eq_ℤ k.0 minus_one) entry_copy
                (λ here next. refl) (none_here, no_fiber) s.nfds 0 (zip_entries s.fds s.fibers),
          );
        },
      )

  -- The state after the host has polled.
  abbrev polled : Server W M → Server W M
  polled s =
      let r = host.poll s.world s.fds s.nfds poll_timeout in
      record (heard s r.reply) { fds = r.fds }

  polled-Fits : (s : Server W M) → PollsInPlace host → Fits host env s → Fits host env (polled s)
  polled-Fits s in_place f = record {
    fds_room = in_place.same_length s.world s.fds s.nfds poll_timeout ∙ f.fds_room;
    fibers_room = f.fibers_room;
    within = f.within;
  }

  -- Why the loop was left, if it was: a flag of the server, or a poll that failed.
  abbrev Left : Server W M → Type 0
  Left t =
      (t.end_server ≡ true)
      ⊎ ((u : Server W M) × (is_neg (host.poll u.world u.fds u.nfds poll_timeout).reply.answer
            ≡ true)
          × (t ≡ polled u))

  record RoundSafe (o : Outcome (Bool × Server W M)) : Type 0 where
    leaves : Bool
    after : Server W M
    returns : o ≡ done (leaves, after)
    fits : Fits host env after
    why : leaves ≡ true → Left after

  request_round-RoundSafe :
      (s : Server W M)
      → KeepsEntries host env
      → PollsInPlace host
      → env.max_connections < u32_mod
      → Fits host env s
      → RoundSafe (request_round host env s)
  unfolding request_round
  request_round-RoundSafe s law in_place word f =
      let r = host.poll s.world s.fds s.nfds poll_timeout in
      let f' = polled-Fits s in_place f in
      elim (Bool-cases (is_neg r.reply.answer)) [
        | inl failed ↦ record {
          leaves = true;
          after = polled s;
          returns = rw failed refl;
          fits = f';
          why = λ q. inr (s, failed, refl);
        }
        | inr polls ↦ elim (Bool-cases (to_nat r.reply.answer == 0)) [
          | inl timed_out ↦ record {
            leaves = true;
            after = record (polled s) { end_server = true };
            returns = rw (polls, timed_out) refl;
            fits = record {
              fds_room = f'.fds_room;
              fibers_room = f'.fibers_room;
              within = f'.within;
            };
            why = λ q. inl refl;
          }
          | inr ready ↦
              let v =
                visit_all-Safe host env s.nfds 0 false (polled s) law f' (omega (arith, f.within))
                  word (omega arith) in
              let (t, q, fits) = compressed (v.result.0) (v.result.1) v.fits in
              record {
                leaves = false;
                after = t;
                returns = rw (polls, ready, v.returns) (ap (λ o. o >>= λ t. done (false, t)) q);
                fits = fits;
                why = λ e. cc;
              }
        ]
      ]
    where
      compressed :
          (flag : Bool) (t : Server W M)
          → Fits host env t
          → (t' : Server W M) × ((if flag then compress_pollfd t else done t) ≡ done t')
            × Fits host env t'
      compressed true t fits = compress_pollfd-Fits t fits
      compressed false t fits = (t, refl, fits)

  -- The server that the loop leaves; `none` stands for a loop that goes on after the given rounds.
  abbrev pub Serves : Option (Server W M) → Type 0
  Serves none = Unit {0}
  Serves (some t) = Fits host env t × Left t

  -- A loop that goes on does a round, and then leaves or goes on with one round less.
  request_loop-on :
      (fuel : ℕ) (s : Server W M) (leaves : Bool) (after : Server W M)
      → s.end_server ≡ false
      → request_round host env s ≡ done (leaves, after)
      → request_loop host env (suc fuel) s
        ≡ (if leaves then done (some after) else request_loop host env fuel after)
  unfolding request_loop
  request_loop-on fuel s leaves after on q =
      if_off _ _ on
      ∙ ap
          (λ o. o >>= λ (r : Bool × Server W M).
            (let more = request_loop host env fuel r.1 in if r.0 then done (some r.1) else more))
          q

  -- With arrays of MAX_CONNECTIONS entries, fewer than 2 ^ 32, a host whose poll keeps the number of
  -- entries, and fibers that keep the arrays in their bounds and take no entry out of use, any number
  -- of rounds of the request loop makes no access out of range: the count of the entries does not
  -- wrap, the arrays keep their size, and the compression leaves no more entries in use than there are.
  -- The loop is left only when the flag `end_server` is set or at a poll that failed.
  pub request_loop-Serves :
      (fuel : ℕ) (s : Server W M)
      → KeepsEntries host env
      → PollsInPlace host
      → env.max_connections < u32_mod
      → Fits host env s
      → (o : Option (Server W M)) × (request_loop host env fuel s ≡ done o) × Serves o
  unfolding request_loop
  request_loop-Serves zero s law in_place word f = elim (Bool-cases s.end_server) [
    | inl ended ↦ (some s, rw ended refl, (f, inl ended))
    | inr on ↦ (none, rw on refl, tt)
  ]
  request_loop-Serves (suc fuel) s law in_place word f = elim (Bool-cases s.end_server) [
    | inl ended ↦ (some s, rw ended refl, (f, inl ended))
    | inr on ↦
        let x = request_round-RoundSafe s law in_place word f in
        elim (Bool-cases x.leaves) [
          | inl leaves ↦ (
            some x.after,
            request_loop-on fuel s x.leaves x.after on x.returns ∙ rw leaves refl,
            (x.fits, x.why leaves),
          )
          | inr stays ↦
              let ih = request_loop-Serves fuel x.after law in_place word x.fits in
              (ih.0, request_loop-on fuel s x.leaves x.after on x.returns ∙ rw stays ih.1, ih.2)
        ]
  ]
