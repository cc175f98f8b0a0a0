-- ===== src/Httpserver/HostFiber/Entries.antt =====
-- examples/httpserver/httpserver_fiber.c: the loop over the entries stays within the arrays.
use waeio.Prelude.{
  ℕ, zero, suc, ◌+◌, ◌<◌, ◌≤◌, ◌∙◌, arith, inl, inr, true, false, Bool, minus_one, length, set,
  length-set, get_or, u32_mod, bit_and, Bool-cases, done, ◌>>=◌, read_in_range, write_in_range,
  if◌then◌else◌, ◌==◌, ◌||◌,
}
use waeio.Wasio.{Host}
use waeio.Waeio.{FiberResult, fiber_ok, fiber_yield, fiber_error}
use waeio.Httpserver.WasioFiber.{FiberClosure, set_closed}
use waeio.Httpserver.HostFiber.{
  Server, Platform, heard, update_entry, retire, handle_command, hang_up, resume_entry, visit,
  visit_all,
}
use waeio.Httpserver.HostFiber.Bounds.{none_here, no_fiber, Fits}
use waeio.Httpserver.HostFiber.Safe.{
  KeepsEntries, Safe, returns-Safe, weaken-Safe, bind-Safe, update_entry-Safe, drop_entry-Safe,
}

module _ {W M : Type 0} (host : Host W) (env : Platform W M) where
  retire-Safe :
      (i : ℕ) (clo : FiberClosure) (s : Server W M)
      → Fits host env s
      → i < env.max_connections
      → env.max_connections < u32_mod
      → 0 < s.nfds
      → Safe host env (λ t. t) 1 s.nfds (retire host env i clo s)
  unfolding retire
  retire-Safe i clo s f below word used =
      drop_entry-Safe host env i
        (heard (record s { memory = env.fiber_free s.memory clo.fiber })
          (host.close s.world clo.fd))
        (record { fds_room = f.fds_room; fibers_room = f.fibers_room; within = f.within }) below
        word used

  handle_command-Safe :
      (i : ℕ) (clo : FiberClosure) (status : FiberResult) (s : Server W M)
      → Fits host env s
      → i < env.max_connections
      → env.max_connections < u32_mod
      → 0 < s.nfds
      → Safe host env (λ r. r.1) 1 s.nfds (handle_command host env i clo status s)
  unfolding handle_command
  handle_command-Safe i clo fiber_ok s f below word used =
      bind-Safe host env (λ t. t) (λ r. r.1) 1 0 s.nfds (retire-Safe i clo s f below word used)
        (λ t fits le. returns-Safe host env (λ r. r.1) 0 t.nfds (true, t) fits (omega arith))
  handle_command-Safe i clo fiber_yield s f below word used =
      bind-Safe host env (λ t. t) (λ r. r.1) 0 1 s.nfds (update_entry-Safe host env i _ s f below)
        (λ t fits le. returns-Safe host env (λ r. r.1) 1 t.nfds (false, t) fits (omega arith))
  handle_command-Safe i clo fiber_error s f below word used =
      bind-Safe host env (λ t. t) (λ r. r.1) 1 0 s.nfds (retire-Safe i clo s f below word used)
        (λ t fits le.
          returns-Safe host env (λ r. r.1) 0 t.nfds (true, record t { end_server = true })
            (record {
              fds_room = fits.fds_room;
              fibers_room = fits.fibers_room;
              within = fits.within;
            })
            (omega arith))

  hang_up-Safe :
      (i : ℕ) (s : Server W M)
      → Fits host env s
      → i < env.max_connections
      → env.max_connections < u32_mod
      → 0 < s.nfds
      → Safe host env (λ t. t) 1 s.nfds (hang_up host env i s)
  unfolding hang_up
  hang_up-Safe i s f below word used =
      let clo = get_or s.fibers i no_fiber in
      let inside : i < length s.fibers = omega (arith, below, f.fibers_room) in
      let fibers = set s.fibers i (record clo { fd = minus_one }) in
      rw
        (
          read_in_range s.fibers i no_fiber inside,
          write_in_range s.fibers i (record clo { fd = minus_one }) inside,
        )
        (drop_entry-Safe host env i
          (record s { memory = env.fiber_free s.memory clo.fiber; fibers = fibers })
          (record {
            fds_room = f.fds_room;
            fibers_room = length-set s.fibers i _ ∙ f.fibers_room;
            within = f.within;
          })
          below word used)

  resume_entry-Safe :
      (i : ℕ) (flag : Bool) (s : Server W M)
      → KeepsEntries host env
      → Fits host env s
      → i < env.max_connections
      → env.max_connections < u32_mod
      → 0 < s.nfds
      → Safe host env (λ r. r.1) 1 s.nfds (resume_entry host env i flag s)
  unfolding resume_entry
  resume_entry-Safe i flag s law f below word used =
      let clo = get_or s.fibers i no_fiber in
      let r = env.fiber_resume s clo.fiber clo.fd in
      let f' = law.fits s clo.fiber clo.fd f in
      let more = law.no_fewer s clo.fiber clo.fd in
      let step =
        bind-Safe host env (λ r. r.1) (λ r. r.1) 1 0 r.1.nfds
          (handle_command-Safe i (get_or r.1.fibers i no_fiber) r.0 r.1 f' below word
            (omega (arith, used, more)))
          (λ handled fits le. marked-Safe handled (handled.0 || flag) fits) in
      rw
        (
          read_in_range s.fibers i no_fiber (omega (arith, below, f.fibers_room)),
          read_in_range r.1.fibers i no_fiber (omega (arith, below, f'.fibers_room)),
        )
        (weaken-Safe host env (λ r. r.1) 1 r.1.nfds s.nfds 1 step (omega (arith, more)))
    where
      marked-Safe :
          (handled : Bool × Server W M) (marks : Bool)
          → Fits host env handled.1
          → Safe host env {A = Bool × Server W M}
              (λ r. r.1)
              0
              handled.1.nfds
              (let marked = update_entry i set_closed handled.1 >>= λ s'. done (true, s') in
                if marks then marked else done (false, handled.1))
      marked-Safe handled true fits =
          bind-Safe host env (λ t. t) (λ r. r.1) 0 0 handled.1.nfds
            (update_entry-Safe host env i set_closed handled.1 fits below)
            (λ t fits' le. returns-Safe host env (λ r. r.1) 0 t.nfds (true, t) fits' (omega arith))
      marked-Safe handled false fits =
          returns-Safe host env (λ r. r.1) 0 handled.1.nfds (false, handled.1) fits (omega arith)

  visit-Safe :
      (i : ℕ) (flag : Bool) (s : Server W M)
      → KeepsEntries host env
      → Fits host env s
      → i < env.max_connections
      → env.max_connections < u32_mod
      → 0 < s.nfds
      → Safe host env (λ r. r.2) 1 s.nfds (visit host env i flag s)
  unfolding visit
  visit-Safe i flag s law f below word used =
      let entry = get_or s.fds i none_here in
      rw (read_in_range s.fds i none_here (omega (arith, below, f.fds_room)))
        (elim (Bool-cases (entry.revents == 0)) [
          | inl quiet ↦
              rw quiet (returns-Safe host env (λ r. r.2) 1 s.nfds (true, flag, s) f (omega arith))
          | inr ready ↦ elim (Bool-cases (bit_and entry.revents env.pollhup == 0)) [
            | inr gone ↦
                rw (ready, gone)
                  (bind-Safe host env (λ t. t) (λ r. r.2) 1 0 s.nfds
                    (hang_up-Safe i s f below word used)
                    (λ t fits le.
                      returns-Safe host env (λ r. r.2) 0 t.nfds (true, true, t) fits (omega arith)))
            | inl there ↦ elim (Bool-cases (bit_and entry.revents env.pollin == 0)) [
              | inl failed ↦
                  rw (ready, there, failed)
                    (returns-Safe host env (λ r. r.2) 1 s.nfds
                      (false, flag, record s { end_server = true })
                      (record {
                        fds_room = f.fds_room;
                        fibers_room = f.fibers_room;
                        within = f.within;
                      })
                      (omega arith))
              | inr readable ↦
                  rw (ready, there, readable)
                    (bind-Safe host env (λ r. r.1) (λ r. r.2) 1 0 s.nfds
                      (resume_entry-Safe i flag s law f below word used)
                      (λ r fits le.
                        returns-Safe host env (λ r. r.2) 0 r.1.nfds (true, r.0, r.1) fits
                          (omega arith)))
            ]
          ]
        ])

  -- The loop over `count` entries takes at most that many out of use.
  pub visit_all-Safe :
      (count i : ℕ) (flag : Bool) (s : Server W M)
      → KeepsEntries host env
      → Fits host env s
      → i + count ≤ env.max_connections
      → env.max_connections < u32_mod
      → count ≤ s.nfds
      → Safe host env (λ r. r.1) count s.nfds (visit_all host env count i flag s)
  unfolding visit_all
  visit_all-Safe zero i flag s law f below word used =
      returns-Safe host env (λ r. r.1) 0 s.nfds (flag, s) f (omega arith)
  visit_all-Safe (suc count) i flag s law f below word used =
      weaken-Safe host env (λ r. r.1) (1 + count) s.nfds s.nfds (suc count)
        (bind-Safe host env (λ r. r.2) (λ r. r.1) 1 count s.nfds
          (visit-Safe i flag s law f (omega (arith, below)) word (omega (arith, used)))
          (λ r fits le. elim (Bool-cases r.0) [
            | inl on ↦ rw on (
                visit_all-Safe count (i + 1) r.1 r.2 law fits (omega (arith, below)) word
                  (omega (arith, used, le)))
            | inr stop ↦
                rw stop
                  (returns-Safe host env (λ r. r.1) count r.2.nfds (r.1, r.2) fits (omega arith))
          ]))
        (omega arith)
