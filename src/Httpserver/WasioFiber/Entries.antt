-- ===== src/Httpserver/WasioFiber/Entries.antt =====
-- examples/httpserver/httpserver_wasio_fiber.c: the loop over the entries stays within the arrays.
use waeio.Prelude.{
  ℕ, zero, suc, ◌+◌, ◌<◌, ◌≤◌, ◌∙◌, arith, inl, inr, Bool, true, false, minus_one, to_nat, leb,
  length, get_or, set, length-set, bit_and, Bool-cases, done, ◌>>=◌, read_in_range, write_in_range,
  if◌then◌else◌, ◌==◌, ◌||◌,
}
use waeio.Wasio.{Pollfd, Host}
use waeio.Wasio.Poll.{wasio_close}
use waeio.Wasio.Poll.Runs.{wfd-wasio_close}
use waeio.Waeio.{FiberResult, fiber_ok, fiber_yield, fiber_error}
use waeio.Httpserver.WasioFiber.{
  FiberClosure, Server, Platform, set_closed, update_entry, lose_entry, is_ok, retire,
  handle_command, hang_up, resume_entry, visit, visit_all,
}
use waeio.Httpserver.WasioFiber.Commands.{none_here}
use waeio.Httpserver.WasioFiber.Safe.{
  Fits, Safe, returns-Safe, weaken-Safe, bind-Safe, assert-Safe, reads-Safe, update_entry-Safe,
  lose_entry-Fits,
}

abbrev pub no_fiber : FiberClosure
no_fiber = record { fiber = 0; fd = minus_one }

module _ {W M : Type 0} (host : Host W) (env : Platform W M) (cap : ℕ) where
  -- What the code assumes of a fiber: it keeps the arrays in their bounds and takes no entry out of use.
  pub record KeepsEntries : Type 0 where
    pub fits : (s : Server W M) (fiber : ℕ) → Fits cap s → Fits cap (env.fiber_resume s fiber).1
    pub no_fewer :
        (s : Server W M) (fiber : ℕ)
        → s.wasio.wfd.length ≤ (env.fiber_resume s fiber).1.wasio.wfd.length

  -- An entry is marked and taken off the count.
  drop-Safe :
      (i : ℕ) (s : Server W M)
      → Fits cap s
      → i < cap
      → 0 < s.wasio.wfd.length
      → Safe cap
          (λ t. t)
          1
          s.wasio.wfd.length
          (update_entry s i set_closed >>= λ t. done (lose_entry t))
  drop-Safe i s f below used =
      bind-Safe cap (λ t. t) (λ t. t) 0 1 s.wasio.wfd.length (update_entry s i set_closed)
        (λ t. done (lose_entry t)) (update_entry-Safe cap i set_closed s f below)
        (λ t fits le.
          let lost = lose_entry-Fits cap t fits (omega (arith, used, le)) in
          returns-Safe cap (λ t. t) 1 t.wasio.wfd.length (lose_entry t) lost.0 lost.1)

  retire-Safe :
      (i : ℕ) (clo : FiberClosure) (s : Server W M)
      → Fits cap s
      → i < cap
      → 0 < s.wasio.wfd.length
      → Safe cap (λ t. t) 1 s.wasio.wfd.length (retire host env i clo s)
  unfolding retire
  retire-Safe i clo s f below used =
      let closed = wasio_close host env.pollin s.wasio clo.fd in
      let same = wfd-wasio_close host env.pollin s.wasio clo.fd in
      let s' = record s { wasio = closed.1; memory = env.fiber_free s.memory clo.fiber } in
      let f' : Fits cap s' = record {
        wfd = rw same f.wfd;
        capacity_is = rw same f.capacity_is;
        fibers_room = f.fibers_room;
      } in
      assert-Safe cap (λ t. t) 1 s.wasio.wfd.length (is_ok closed.0) _
        (weaken-Safe cap (λ t. t) 1 closed.1.wfd.length s.wasio.wfd.length 1 _
          (drop-Safe i s' f' below (rw same used)) (rw same (omega arith)))

  handle_command-Safe :
      (i : ℕ) (clo : FiberClosure) (status : FiberResult) (s : Server W M)
      → Fits cap s
      → i < cap
      → 0 < s.wasio.wfd.length
      → Safe cap (λ r. r.1) 1 s.wasio.wfd.length (handle_command host env i clo status s)
  unfolding handle_command
  handle_command-Safe i clo fiber_ok s f below used =
      bind-Safe cap (λ t. t) (λ r. r.1) 1 0 s.wasio.wfd.length (retire host env i clo s) _
        (retire-Safe i clo s f below used)
        (λ t fits le. returns-Safe cap (λ r. r.1) 0 t.wasio.wfd.length (true, t) fits (omega arith))
  handle_command-Safe i clo fiber_yield s f below used =
      bind-Safe cap (λ t. t) (λ r. r.1) 0 1 s.wasio.wfd.length (update_entry s i _) _
        (update_entry-Safe cap i _ s f below)
        (λ t fits le.
          returns-Safe cap (λ r. r.1) 1 t.wasio.wfd.length (false, t) fits (omega arith))
  handle_command-Safe i clo fiber_error s f below used =
      bind-Safe cap (λ t. t) (λ r. r.1) 1 0 s.wasio.wfd.length (retire host env i clo s) _
        (retire-Safe i clo s f below used)
        (λ t fits le.
          returns-Safe cap (λ r. r.1) 0 t.wasio.wfd.length (true, record t { end_server = true })
            (record {
              wfd = fits.wfd;
              capacity_is = fits.capacity_is;
              fibers_room = fits.fibers_room;
            })
            (omega arith))

  hang_up-Safe :
      (i : ℕ) (s : Server W M)
      → Fits cap s
      → i < cap
      → 0 < s.wasio.wfd.length
      → Safe cap (λ t. t) 1 s.wasio.wfd.length (hang_up host env i s)
  unfolding hang_up
  hang_up-Safe i s f below used =
      let clo = get_or s.fibers i no_fiber in
      let inside : i < length s.fibers = omega (arith, below, f.fibers_room) in
      let fibers = set s.fibers i (record clo { fd = minus_one }) in
      rw
        (
          read_in_range s.fibers i no_fiber inside,
          write_in_range s.fibers i (record clo { fd = minus_one }) inside,
        )
        (drop-Safe i (record s { memory = env.fiber_free s.memory clo.fiber; fibers = fibers })
          (record {
            wfd = f.wfd;
            capacity_is = f.capacity_is;
            fibers_room = length-set s.fibers i _ ∙ f.fibers_room;
          })
          below used)

  marked-Safe :
      (i : ℕ) (handled : Bool × Server W M) (marks : Bool)
      → i < cap
      → Fits cap handled.1
      → Safe {A = Bool × Server W M} cap
          (λ r. r.1)
          0
          handled.1.wasio.wfd.length
          (let marked = update_entry handled.1 i set_closed >>= λ s'. done (true, s') in
            if marks then marked else done (false, handled.1))
  marked-Safe i handled true below fits =
      bind-Safe cap (λ t. t) (λ r. r.1) 0 0 handled.1.wasio.wfd.length
        (update_entry handled.1 i set_closed) _
        (update_entry-Safe cap i set_closed handled.1 fits below)
        (λ t fits' le.
          returns-Safe cap (λ r. r.1) 0 t.wasio.wfd.length (true, t) fits' (omega arith))
  marked-Safe i handled false below fits =
      returns-Safe cap (λ r. r.1) 0 handled.1.wasio.wfd.length (false, handled.1) fits (omega arith)

  resume_entry-Safe :
      (i : ℕ) (flag : Bool) (entry : Pollfd) (s : Server W M)
      → KeepsEntries
      → Fits cap s
      → i < cap
      → 0 < s.wasio.wfd.length
      → Safe cap (λ r. r.1) 1 s.wasio.wfd.length (resume_entry host env i flag entry s)
  unfolding resume_entry
  resume_entry-Safe i flag entry s law f below used =
      let clo = get_or s.fibers i no_fiber in
      let started = record s { fd = entry.fd } in
      let r = env.fiber_resume started clo.fiber in
      let f' =
        law.fits started clo.fiber
          (record { wfd = f.wfd; capacity_is = f.capacity_is; fibers_room = f.fibers_room }) in
      let more = law.no_fewer started clo.fiber in
      let clo' = get_or r.1.fibers i no_fiber in
      assert-Safe cap (λ r. r.1) 1 s.wasio.wfd.length (leb 4 (to_nat entry.fd)) _
        (rw
          (
            read_in_range s.fibers i no_fiber (omega (arith, below, f.fibers_room)),
            read_in_range r.1.fibers i no_fiber (omega (arith, below, f'.fibers_room)),
          )
          (weaken-Safe cap (λ r. r.1) 1 r.1.wasio.wfd.length s.wasio.wfd.length 1 _
            (bind-Safe cap (λ r. r.1) (λ r. r.1) 1 0 r.1.wasio.wfd.length
              (handle_command host env i clo' r.0 r.1) _
              (handle_command-Safe i clo' r.0 r.1 f' below (omega (arith, used, more)))
              (λ handled fits le. marked-Safe i handled (handled.0 || flag) below fits))
            (omega (arith, more))))

  visit-Safe :
      (i : ℕ) (flag : Bool) (s : Server W M)
      → KeepsEntries
      → Fits cap s
      → i < cap
      → 0 < s.wasio.wfd.length
      → Safe cap (λ r. r.2) 1 s.wasio.wfd.length (visit host env i flag s)
  unfolding visit
  visit-Safe i flag s law f below used =
      let n = s.wasio.wfd.length in
      let entry = get_or s.wasio.wfd.fds i none_here in
      reads-Safe cap (λ r. r.2) 1 n _ _ entry
        (read_in_range s.wasio.wfd.fds i none_here
          (omega (arith, below, f.wfd.room, f.capacity_is)))
        (elim (Bool-cases (entry.revents == 0)) [
          | inl quiet ↦ rw quiet (returns-Safe cap (λ r. r.2) 1 n (true, flag, s) f (omega arith))
          | inr ready ↦ elim (Bool-cases (bit_and entry.revents env.pollhup == 0)) [
            | inr gone ↦
                rw (ready, gone)
                  (bind-Safe cap (λ t. t) (λ r. r.2) 1 0 n (hang_up host env i s) _
                    (hang_up-Safe i s f below used)
                    (λ t fits le.
                      returns-Safe cap (λ r. r.2) 0 t.wasio.wfd.length (true, true, t) fits
                        (omega arith)))
            | inl there ↦ elim (Bool-cases (bit_and entry.revents env.pollin == 0)) [
              | inl failed ↦
                  rw (ready, there, failed)
                    (returns-Safe cap (λ r. r.2) 1 n (false, flag, record s { end_server = true })
                      (record {
                        wfd = f.wfd;
                        capacity_is = f.capacity_is;
                        fibers_room = f.fibers_room;
                      })
                      (omega arith))
              | inr readable ↦
                  rw (ready, there, readable)
                    (bind-Safe cap (λ r. r.1) (λ r. r.2) 1 0 n
                      (resume_entry host env i flag entry s) _
                      (resume_entry-Safe i flag entry s law f below used)
                      (λ r fits le.
                        returns-Safe cap (λ r. r.2) 0 r.1.wasio.wfd.length (true, r.0, r.1) fits
                          (omega arith)))
            ]
          ]
        ])

  -- The loop over `count` entries takes at most that many out of use.
  pub visit_all-Safe :
      (count i : ℕ) (flag : Bool) (s : Server W M)
      → KeepsEntries
      → Fits cap s
      → i + count ≤ cap
      → count ≤ s.wasio.wfd.length
      → Safe cap (λ r. r.1) count s.wasio.wfd.length (visit_all host env count i flag s)
  unfolding visit_all
  visit_all-Safe zero i flag s law f below used =
      returns-Safe cap (λ r. r.1) 0 s.wasio.wfd.length (flag, s) f (omega arith)
  visit_all-Safe (suc count) i flag s law f below used =
      let n = s.wasio.wfd.length in
      weaken-Safe cap (λ r. r.1) (1 + count) n n (suc count) _
        (bind-Safe cap (λ r. r.2) (λ r. r.1) 1 count n (visit host env i flag s) _
          (visit-Safe i flag s law f (omega (arith, below)) (omega (arith, used)))
          (λ r fits le. elim (Bool-cases r.0) [
            | inl on ↦ rw on (
                visit_all-Safe count (i + 1) r.1 r.2 law fits (omega (arith, below))
                  (omega (arith, used, le)))
            | inr stop ↦ rw stop (
                returns-Safe cap (λ r. r.1) count r.2.wasio.wfd.length (r.1, r.2) fits
                  (omega arith))
          ]))
        (omega arith)
