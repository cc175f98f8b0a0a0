-- ===== src/Httpserver/Bespoke/Receiving.antt =====
-- examples/httpserver/httpserver_bespoke.c: the loop that receives from a client, until the host has no more.
use waeio.Prelude.{
  zero_answer, other_answer, ap, eq_ℤ→eq, eq_ℤ→ne, ℕ, zero, suc, ◌+◌, ◌<◌, ◌≤◌, ◌≡◌, refl, ◌∙◌,
  arith, inl, inr, Bool, true, false, ◌||◌, is_neg, eq_ℤ, to_nat, List, [], ◌++◌, Option, some,
  length, length-append, Bool-cases, Outcome, done, read_in_range, ◌==◌,
}
use waeio.Wasio.{Host}
use waeio.Httpserver.Response.Fits.{write_behind}
use waeio.Httpserver.Request.{Http}
use waeio.Httpserver.Request.Answers.{IsResult, ResponsesFit}
use waeio.Httpserver.Bespoke.{Server, buffer_size, recv_size, receive_all}
use waeio.Httpserver.Bespoke.Accepting.{none_here}
use waeio.Httpserver.Bespoke.Draining.{Drains, Calm}
use waeio.Httpserver.Bespoke.Talking.{
  client, asked, filled, reply, sending, answered, Talk, waits, refused, gone, send_fails, answers,
  answer_request-Answered, receive_all-step,
}

-- What serving leaves alone.
pub record Same {W : Type 0} (s t : Server W) : Type 0 where
  pub fds_is : t.fds ≡ s.fds
  pub nfds_is : t.nfds ≡ s.nfds
  pub flag_is : t.compress_array ≡ s.compress_array
  pub reqbuf_size : length t.reqbuf ≡ length s.reqbuf
  pub resbuf_size : length t.resbuf ≡ length s.resbuf

Same-trans : {W : Type 0} {s t u : Server W} → Same s t → Same t u → Same s u
Same-trans a b = record {
  fds_is = b.fds_is ∙ a.fds_is;
  nfds_is = b.nfds_is ∙ a.nfds_is;
  flag_is = b.flag_is ∙ a.flag_is;
  reqbuf_size = b.reqbuf_size ∙ a.reqbuf_size;
  resbuf_size = b.resbuf_size ∙ a.resbuf_size;
}

or_false : (b : Bool) → (b || false) ≡ b
or_false true = refl
or_false false = refl

or_true : (b : Bool) → (b || true) ≡ true
or_true true = refl
or_true false = refl

module _ {W : Type 0} (host : Host W) (http : Http) (waiting : W → ℕ) where
  -- The loop that receives has ended.
  pub record Received (i : ℕ) (close_conn : Bool) (s : Server W)
      (o : Outcome (Option (Bool × Server W))) : Type 0 where
    pub closes : Bool
    pub after : Server W
    pub returns : o ≡ done (some (closes, after))
    pub talk : Talk host http i close_conn s closes after
    pub same : Same s after
    pub calm : (count : W → ℕ) → Calm host count → count after.world ≤ count s.world

  filled-Same :
      (i : ℕ) (s : Server W) (rest : List ℕ)
      → length (asked host http i s).bytes + length rest ≡ length s.reqbuf
      → Same s (filled host http i s rest)
  filled-Same i s rest size = record {
    fds_is = refl;
    nfds_is = refl;
    flag_is = refl;
    reqbuf_size = length-append (asked host http i s).bytes rest ∙ size;
    resbuf_size = refl;
  }

  pub receive_all-Received :
      (fuel i : ℕ) (close_conn : Bool) (s : Server W)
      → Drains host waiting
      → ((request : List ℕ) → IsResult (http.parse request).rc)
      → ResponsesFit http buffer_size
      → length s.reqbuf ≡ buffer_size
      → length s.resbuf ≡ buffer_size
      → i < length s.fds
      → waiting s.world < fuel
      → Received i close_conn s (receive_all host http fuel i close_conn s)
  unfolding receive_all
  receive_all-Received zero i close_conn s law results fit req res inside enough =
      absurd (omega (arith, enough))
  receive_all-Received (suc fuel) i close_conn s law results fit req res inside enough =
      let fd = client host http i s in
      let r = asked host http i s in
      let w =
        write_behind [] s.reqbuf r.bytes 0 refl
          (omega (arith, law.at_most s.world fd recv_size, req)) in
      let s' = filled host http i s w.0 in
      let same = filled-Same i s w.0 w.2 in
      elim (Bool-cases (is_neg r.reply.answer)) [
        | inl neg ↦ elim (Bool-cases (eq_ℤ s'.host_errno host.eagain)) [
          | inl again ↦ record {
            closes = close_conn;
            after = s';
            returns =
                rw (read_in_range s.fds i none_here inside, w.1, neg, again)
                  (ap (λ b. done (some (b, s'))) (or_false close_conn));
            talk = waits w.0 w.1 neg (eq_ℤ→eq _ _ again);
            same = same;
            calm = λ count c. c.by_recv s.world fd recv_size;
          }
          | inr failed ↦ record {
            closes = true;
            after = s';
            returns =
                rw (read_in_range s.fds i none_here inside, w.1, neg, failed)
                  (ap (λ b. done (some (b, s'))) (or_true close_conn));
            talk = refused w.0 w.1 neg (eq_ℤ→ne _ _ failed);
            same = same;
            calm = λ count c. c.by_recv s.world fd recv_size;
          }
        ]
        | inr got ↦ elim (Bool-cases (to_nat r.reply.answer == 0)) [
          | inl none_left ↦ record {
            closes = true;
            after = s';
            returns = rw (read_in_range s.fds i none_here inside, w.1, got, none_left) refl;
            talk = gone w.0 w.1 (zero_answer r.reply.answer got none_left);
            same = same;
            calm = λ count c. c.by_recv s.world fd recv_size;
          }
          | inr some_bytes ↦
              let ne = other_answer r.reply.answer some_bytes in
              let a = answer_request-Answered host http i close_conn s w.0 results fit res inside in
              let text = (reply host http i s w.0).0 in
              let next = answered host http i s w.0 a.behind in
              let next_same : Same s next = record {
                fds_is = refl;
                nfds_is = refl;
                flag_is = refl;
                reqbuf_size = same.reqbuf_size;
                resbuf_size = a.same_size;
              } in
              let fewer = law.received s.world fd recv_size got some_bytes in
              let no_more = law.sent s'.world fd (text ++ a.behind) (length text) in
              let flag = close_conn || (reply host http i s w.0).1 in
              let ih =
                receive_all-Received fuel i flag next law results fit (next_same.reqbuf_size ∙ req)
                  (next_same.resbuf_size ∙ res) inside (omega (arith, enough, fewer, no_more)) in
              elim (Bool-cases (is_neg (sending host http i s w.0 a.behind).answer)) [
                | inr went ↦ record {
                  closes = ih.closes;
                  after = ih.after;
                  returns =
                      receive_all-step host http i fuel close_conn s w.0 false inside w.1 got
                        some_bytes a went
                      ∙ ih.returns;
                  talk = answers w.0 a.behind w.1 got ne went ih.talk;
                  same = Same-trans next_same ih.same;
                  calm = λ count c. omega (
                    arith,
                    c.by_recv s.world fd recv_size,
                    c.by_send s'.world fd (text ++ a.behind) (length text),
                    ih.calm count c,
                  );
                }
                | inl failed ↦ record {
                  closes = true;
                  after = next;
                  returns =
                      receive_all-step host http i fuel close_conn s w.0 true inside w.1 got
                        some_bytes a failed;
                  talk = send_fails w.0 a.behind w.1 got ne failed;
                  same = next_same;
                  calm = λ count c. omega (
                    arith,
                    c.by_recv s.world fd recv_size,
                    c.by_send s'.world fd (text ++ a.behind) (length text),
                  );
                }
              ]
        ]
      ]
