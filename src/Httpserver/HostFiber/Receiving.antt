-- ===== src/Httpserver/HostFiber/Receiving.antt =====
-- examples/httpserver/httpserver_fiber.c: a connection's fiber is served until the host has no more of it.
use waeio.Prelude.{
  zero_answer, other_answer, ℕ, zero, ap, true, ==_iff, eq_ℤ→ne, suc, ◌-◌, ◌<◌, ◌≡◌, ◌≢◌, refl, ◌∙◌,
  arith, inl, inr, Bool, false, not, ℤ, is_neg, eq_ℤ, eq_ℤ-ne, to_nat, List, ◌++◌, Option, some,
  length, length-replicate, eq_ℤ→eq, replicate, Bool-cases, Outcome, done, ◌==◌, if◌then◌else◌,
}
use waeio.Wasio.{Host}
use waeio.Httpserver.Request.{Http}
use waeio.Httpserver.Request.Answers.{IsResult, ResponsesFit, respond-reply_to}
use waeio.Httpserver.WasioFiber.{fiber_kill_signal}
use waeio.Httpserver.WasioFiber.Coroutines.{Stop, yields, returns, unchecked, buffer_size}
use waeio.Httpserver.Bespoke.Draining.{Drains}
use waeio.Httpserver.HostFiber.{Server}
use waeio.Httpserver.HostFiber.Coroutines.{serve, receive, handle_connection}
use waeio.Httpserver.HostFiber.Talking.{
  reply_for, asked, heard_from, answered, IsRequest, Talk, waits, refused, gone, no_headers, ends,
  answers,
}

module _ {W M : Type 0} where
  -- What the fiber of a connection leaves alone.
  pub record Untouched (s t : Server W M) : Type 0 where
    pub fds_is : t.fds ≡ s.fds
    pub nfds_is : t.nfds ≡ s.nfds
    pub fibers_is : t.fibers ≡ s.fibers
    pub memory_is : t.memory ≡ s.memory

  Untouched-trans : {s t u : Server W M} → Untouched s t → Untouched t u → Untouched s u
  Untouched-trans a b = record {
    fds_is = b.fds_is ∙ a.fds_is;
    nfds_is = b.nfds_is ∙ a.nfds_is;
    fibers_is = b.fibers_is ∙ a.fibers_is;
    memory_is = b.memory_is ∙ a.memory_is;
  }

module _ {W M : Type 0} (host : Host W) (http : Http) (waiting : W → ℕ) where
  -- A request has been answered.
  record Answered (fd : ℤ) (s : Server W M) (o : Outcome (Bool × Server W M)) : Type 0 where
    rest : List ℕ
    is_done : o ≡ done (not (answered host http fd s rest).end_server, answered host http fd s rest)

  serve-Answered :
      (fd : ℤ) (s : Server W M)
      → ((request : List ℕ) → IsResult (http.parse request).rc)
      → ResponsesFit http buffer_size
      → IsRequest host http fd s
      → Answered fd s (
          serve host http
            ((asked host http fd s).bytes
              ++ replicate (buffer_size - length (asked host http fd s).bytes) 0)
            fd
            (heard_from host http fd s))
  unfolding serve
  serve-Answered fd s results fit is =
      let bytes = (asked host http fd s).bytes in
      let reqbuf = bytes ++ replicate (buffer_size - length bytes) 0 in
      let p = http.parse reqbuf in
      let a =
        respond-reply_to http unchecked (replicate buffer_size 0) buffer_size p fit
          (omega (arith, length-replicate {A = ℕ} buffer_size 0)) refl (results reqbuf) in
      let full : (p.num_headers == 0) ≡ false = ground (arith, is.headers) in
      record { rest = a.0; is_done = rw (full, a.1) refl }

  pub record Handled (fd : ℤ) (s : Server W M) (o : Outcome (Option (Stop (Unit {0}) × Server W M)))
      : Type 0 where
    pub stop : Stop (Unit {0})
    pub after : Server W M
    pub is_done : o ≡ done (some (stop, after))
    pub same : Untouched s after
    pub talk : Talk host http fd s stop after

  receive-step :
      (fuel : ℕ) (fd : ℤ) (s : Server W M) (ends_now : Bool)
      → IsRequest host http fd s
      → (to_nat (asked host http fd s).reply.answer == 0) ≡ false
      → (a : Answered fd s (
          serve host http
            ((asked host http fd s).bytes
              ++ replicate (buffer_size - length (asked host http fd s).bytes) 0)
            fd
            (heard_from host http fd s)))
      → let next = answered host http fd s a.rest in
        next.end_server ≡ ends_now
        → receive host http (suc fuel) fd s
          ≡ (if not ends_now then receive host http fuel fd next else done (some (returns, next)))
  unfolding receive
  receive-step fuel fd s ends_now is some_bytes a q =
      let next = answered host http fd s a.rest in
      let more = receive host http fuel fd next in
      rw (is.got, some_bytes, a.is_done)
        (ap (λ b. if not b then more else done (some (returns, next))) q)

  receive-Handled :
      (fuel : ℕ) (fd : ℤ) (s : Server W M)
      → Drains host waiting
      → ((request : List ℕ) → IsResult (http.parse request).rc)
      → ResponsesFit http buffer_size
      → waiting s.world < fuel
      → Handled fd s (receive host http fuel fd s)
  unfolding receive
  receive-Handled zero fd s law results fit enough = absurd (omega (arith, enough))
  receive-Handled (suc fuel) fd s law results fit enough =
      let r = asked host http fd s in
      let s' = heard_from host http fd s in
      let p = http.parse (r.bytes ++ replicate (buffer_size - length r.bytes) 0) in
      let heard_same : Untouched s s' = record {
        fds_is = refl;
        nfds_is = refl;
        fibers_is = refl;
        memory_is = refl;
      } in
      elim (Bool-cases (is_neg r.reply.answer)) [
        | inl neg ↦ elim (Bool-cases (eq_ℤ s'.host_errno host.eagain)) [
          | inl again ↦ record {
            stop = yields tt;
            after = s';
            is_done = rw (neg, again) refl;
            same = heard_same;
            talk = waits neg (eq_ℤ→eq _ _ again);
          }
          | inr failed ↦ record {
            stop = returns;
            after = s';
            is_done = rw (neg, failed) refl;
            same = heard_same;
            talk = refused neg (eq_ℤ→ne _ _ failed);
          }
        ]
        | inr got ↦ elim (Bool-cases (to_nat r.reply.answer == 0)) [
          | inl none_left ↦ record {
            stop = returns;
            after = s';
            is_done = rw (got, none_left) refl;
            same = heard_same;
            talk = gone (zero_answer r.reply.answer got none_left);
          }
          | inr some_bytes ↦
              let ne = other_answer r.reply.answer some_bytes in
              elim (Bool-cases (p.num_headers == 0)) [
                | inl empty ↦ record {
                  stop = returns;
                  after = s';
                  is_done = rw (got, some_bytes) (unfold serve in rw empty refl);
                  same = heard_same;
                  talk = no_headers got ne ((==_iff _ _).0 empty);
                }
                | inr full ↦
                    let is : IsRequest host http fd s = record {
                      got = got;
                      some_bytes = ne;
                      headers = λ q. cc (full, (==_iff p.num_headers 0).1 q);
                    } in
                    let a = serve-Answered fd s results fit is in
                    let next = answered host http fd s a.rest in
                    let next_same : Untouched s next = record {
                      fds_is = refl;
                      nfds_is = refl;
                      fibers_is = refl;
                      memory_is = refl;
                    } in
                    let text = (reply_for http r.bytes).0 in
                    let fewer = law.received s.world fd buffer_size got some_bytes in
                    let no_more = law.sent s'.world fd (text ++ a.rest) (length text) in
                    let ih =
                      receive-Handled fuel fd next law results fit
                        (omega (arith, enough, fewer, no_more)) in
                    elim (Bool-cases next.end_server) [
                      | inl last ↦ record {
                        stop = returns;
                        after = next;
                        is_done = receive-step fuel fd s true is some_bytes a last;
                        same = next_same;
                        talk = ends a.rest is last;
                      }
                      | inr more ↦ record {
                        stop = ih.stop;
                        after = ih.after;
                        is_done = receive-step fuel fd s false is some_bytes a more ∙ ih.is_done;
                        same = Untouched-trans next_same ih.same;
                        talk = answers a.rest is more ih.talk;
                      }
                    ]
              ]
        ]
      ]

  -- With a host from which finitely many bytes wait to be received, a parser with the documented
  -- results, responses that fit into the buffer and more rounds than bytes wait, the fiber of a
  -- connection, resumed with its descriptor, stops after finitely many receives, with no access out of
  -- range. To what each receive gives it sends the response that belongs to the parsed request, and
  -- goes on. It waits where the host reports EAGAIN, and returns only at another error, at the end of
  -- the connection, where the parser finds no headers, or once the server is to end. The arrays,
  -- the number of entries in use and the memory of the fibers are as they were.
  pub handle_connection-Handled :
      (fuel : ℕ) (fd : ℤ) (s : Server W M)
      → Drains host waiting
      → ((request : List ℕ) → IsResult (http.parse request).rc)
      → ResponsesFit http buffer_size
      → waiting s.world < fuel
      → fd ≢ fiber_kill_signal
      → Handled fd s (handle_connection host http fuel fd s)
  unfolding handle_connection
  handle_connection-Handled fuel fd s law results fit enough ne =
      rw (eq_ℤ-ne fd fiber_kill_signal ne) (receive-Handled fuel fd s law results fit enough)
