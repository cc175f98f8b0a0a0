-- ===== src/Httpserver/WasioFiber/Rounds.antt =====
-- examples/httpserver/httpserver_wasio_fiber.c: the request loop stays within the arrays.
use waeio.Prelude.{
  aborted, ◌⊎◌, ℕ, zero, suc, ◌+◌, ◌≡◌, refl, ap, ◌∙◌, subst, arith, inl, inr, Bool, true, false, ℤ,
  minus_one, eq_ℤ, Option, none, some, Bool-cases, Outcome, done, ◌>>=◌, if◌then◌else◌, if_off,
}
use waeio.Wasio.{WasioResult, ok, error, efull, eagain, econn, Host}
use waeio.Wasio.Poll.{State, wasio_poll}
use waeio.Wasio.Poll.Runs.{IsPollHost, wfd-wasio_poll}
use waeio.Httpserver.Compress.{compress_keeps, no_more_open}
use waeio.Httpserver.WasioFiber.{
  FiberClosure, Server, Platform, zip_entries, entry_fds, entry_fibers, entry_copy, with_wasio,
  compress_pollfd, visit_all, request_round,
}
use waeio.Httpserver.WasioFiber.Main.{request_loop}
use waeio.Httpserver.WasioFiber.Commands.{
  none_here, fd_and_fiber, length-zip_entries, length-entry_fds, length-entry_fibers,
}
use waeio.Httpserver.WasioFiber.Safe.{Fits, Safe, returns-Safe, weaken-Safe, forget-Safe, bind-Safe}
use waeio.Httpserver.WasioFiber.Entries.{KeepsEntries, no_fiber, visit_all-Safe}

module _ {W M : Type 0} (cap : ℕ) where
  compress_pollfd-Safe :
      (s : Server W M)
      → Fits cap s
      → Safe cap (λ t. t) s.wasio.wfd.length s.wasio.wfd.length (compress_pollfd s)
  unfolding compress_pollfd
  compress_pollfd-Safe s f =
      let xs = zip_entries s.wasio.wfd.fds s.fibers in
      let same =
        length-zip_entries s.wasio.wfd.fds s.fibers
          (omega (arith, f.wfd.room, f.capacity_is, f.fibers_room)) in
      let (after, n, q, size, count, keys) =
        compress_keeps fd_and_fiber (λ (k : ℤ × FiberClosure). eq_ℤ k.0 minus_one) entry_copy
          (λ here next. refl) (none_here, no_fiber) xs s.wasio.wfd.length
          (omega (arith, same, f.wfd.within, f.wfd.room)) in
      let fewer =
        no_more_open fd_and_fiber (λ (k : ℤ × FiberClosure). eq_ℤ k.0 minus_one) entry_copy
          (λ here next. refl) (none_here, no_fiber) s.wasio.wfd.length 0 xs in
      rw q (
        returns-Safe cap (λ t. t) s.wasio.wfd.length s.wasio.wfd.length
          (record s {
            wasio = record (s.wasio) {
              wfd = record (s.wasio.wfd) { fds = entry_fds after; length = n };
            };
            fibers = entry_fibers after;
          })
          (record {
            wfd = record {
              within = omega (arith, count, fewer, f.wfd.within);
              room = omega (arith, length-entry_fds after, size, same, f.wfd.room);
              word = f.wfd.word;
            };
            capacity_is = f.capacity_is;
            fibers_room =
                omega (arith, length-entry_fibers after, size, same, f.wfd.room, f.capacity_is);
          })
          (omega arith))

  compressed-Safe :
      (flag : Bool) (t : Server W M)
      → Fits cap t
      → Safe cap (λ t. t) cap t.wasio.wfd.length (if flag then compress_pollfd t else done t)
  compressed-Safe true t fits =
      let n = t.wasio.wfd.length in
      weaken-Safe cap (λ t. t) n n n cap _ (compress_pollfd-Safe t fits)
        (omega (arith, fits.wfd.within, fits.capacity_is))
  compressed-Safe false t fits =
      returns-Safe cap (λ t. t) cap t.wasio.wfd.length t fits (omega arith)

module _ {W M : Type 0} (host : Host W) (env : Platform W M) (cap : ℕ) where
  polled-Fits :
      (s : Server W M) (w : State W) (timeout : ℤ)
      → IsPollHost host env.pollin
      → Fits cap s
      → (wasio_poll host env.pollin s.wasio 0 timeout).2 ≡ w
      → Fits cap (with_wasio s w)
  polled-Fits s w timeout p f e =
      subst (λ w. Fits cap (with_wasio s w)) e
        (let q = wfd-wasio_poll host env.pollin s.wasio 0 timeout in
          record {
            wfd = rw q (record {
              within = f.wfd.within;
              room =
                  p.same_length s.wasio.world s.wasio.wfd.fds s.wasio.wfd.length timeout
                  ∙ f.wfd.room;
              word = f.wfd.word;
            });
            capacity_is = rw q f.capacity_is;
            fibers_room = f.fibers_room;
          })

  request_round-Safe :
      (timeout : ℤ) (s : Server W M)
      → KeepsEntries host env cap
      → IsPollHost host env.pollin
      → Fits cap s
      → (x : WasioResult × ℕ × State W) → wasio_poll host env.pollin s.wasio 0 timeout ≡ x
      → Safe cap (λ t. t) 0 0 (request_round host env timeout s)
  unfolding request_round
  request_round-Safe timeout s law p f (ok, zero, w) e =
      let f' = polled-Fits s w timeout p f (ap (λ (r : WasioResult × ℕ × State W). r.2) e) in
      rw e (
        returns-Safe cap (λ t. t) 0 0 (record s { wasio = w; end_server = true })
          (record { wfd = f'.wfd; capacity_is = f'.capacity_is; fibers_room = f'.fibers_room })
          (omega arith))
  request_round-Safe timeout s law p f (ok, suc nready, w) e =
      let f' = polled-Fits s w timeout p f (ap (λ (r : WasioResult × ℕ × State W). r.2) e) in
      let n = w.wfd.length in
      rw e (
        forget-Safe cap (λ t. t) (n + cap) n _
          (bind-Safe cap (λ r. r.1) (λ t. t) n cap n (visit_all host env n 0 false (with_wasio s w))
            _
            (visit_all-Safe host env cap n 0 false (with_wasio s w) law f'
              (omega (arith, f'.wfd.within, f'.capacity_is)) (omega arith))
            (λ r fits le. compressed-Safe cap r.0 r.1 fits)))
  request_round-Safe timeout s law p f (error, nready, w) e = rw e (
      returns-Safe cap (λ t. t) 0 0 (with_wasio s w)
        (polled-Fits s w timeout p f (ap (λ (r : WasioResult × ℕ × State W). r.2) e)) (omega arith))
  request_round-Safe timeout s law p f (efull, nready, w) e = rw e (
      returns-Safe cap (λ t. t) 0 0 (with_wasio s w)
        (polled-Fits s w timeout p f (ap (λ (r : WasioResult × ℕ × State W). r.2) e)) (omega arith))
  request_round-Safe timeout s law p f (eagain, nready, w) e = rw e (
      returns-Safe cap (λ t. t) 0 0 (with_wasio s w)
        (polled-Fits s w timeout p f (ap (λ (r : WasioResult × ℕ × State W). r.2) e)) (omega arith))
  request_round-Safe timeout s law p f (econn, nready, w) e = rw e (
      returns-Safe cap (λ t. t) 0 0 (with_wasio s w)
        (polled-Fits s w timeout p f (ap (λ (r : WasioResult × ℕ × State W). r.2) e)) (omega arith))

  -- The loop, with the result of its next round.
  request_loop-on :
      (fuel : ℕ) (timeout : ℤ) (s : Server W M) (o : Outcome (Server W M))
      → s.end_server ≡ false
      → request_round host env timeout s ≡ o
      → request_loop host env (suc fuel) timeout s ≡ (o >>= request_loop host env fuel timeout)
  unfolding request_loop
  request_loop-on fuel timeout s o on q =
      if_off _ _ on ∙ ap (λ o. o >>= request_loop host env fuel timeout) q

  -- The server that the loop leaves; `none` stands for a loop that goes on after the given rounds.
  abbrev pub Runs : Option (Server W M) → Type 0
  Runs none = Unit {0}
  Runs (some t) = Fits cap t × (t.end_server ≡ true)

  -- With arrays of one size, fewer than 2 ^ 32 entries, a host whose poll keeps the number of entries,
  -- and fibers that keep the arrays in their bounds and take no entry out of use, any number of
  -- rounds of the request loop makes no access out of range. An assertion fails, or the loop goes on,
  -- or it is left, which is when `end_server` is set, with the arrays within their bounds: the count
  -- of the entries has not wrapped, and the arrays have kept their size.
  pub request_loop-Runs :
      (fuel : ℕ) (timeout : ℤ) (s : Server W M)
      → KeepsEntries host env cap
      → IsPollHost host env.pollin
      → Fits cap s
      → (request_loop host env fuel timeout s ≡ aborted)
        ⊎ ((o : Option (Server W M)) × (request_loop host env fuel timeout s ≡ done o) × Runs o)
  unfolding Safe request_loop
  request_loop-Runs zero timeout s law p f = elim (Bool-cases s.end_server) [
    | inl ended ↦ inr (some s, rw ended refl, (f, ended))
    | inr on ↦ inr (none, rw on refl, tt)
  ]
  request_loop-Runs (suc fuel) timeout s law p f = elim (Bool-cases s.end_server) [
    | inl ended ↦ inr (some s, rw ended refl, (f, ended))
    | inr on ↦ elim (request_round-Safe timeout s law p f _ refl) [
      | inl q ↦ inl (request_loop-on fuel timeout s _ on q)
      | inr (t, q, fits, le) ↦
          let step = request_loop-on fuel timeout s _ on q in
          elim (request_loop-Runs fuel timeout t law p fits) [
            | inl q' ↦ inl (step ∙ q')
            | inr (o, q', serves) ↦ inr (o, step ∙ q', serves)
          ]
    ]
  ]
