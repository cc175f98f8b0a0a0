-- ===== src/Httpserver/Bespoke/Talking.antt =====
-- examples/httpserver/httpserver_bespoke.c: what passes between a client and the server in the loop that
-- receives.
use waeio.Prelude.{
  ◌≢◌, pos, ℕ, suc, ◌<◌, ◌≡◌, refl, ◌∙◌, arith, Bool, true, false, ◌||◌, ℤ, is_neg, to_nat, List,
  ◌++◌, some, length, get_or, length-append, done, assert, read_in_range, ◌==◌, if◌then◌else◌,
}
use waeio.Wasio.{Host, Reply, RecvReply}
use waeio.Driver.{write_bytes}
use waeio.Httpserver.Request.{Http}
use waeio.Httpserver.Request.Answers.{IsResult, ResponsesFit, reply_to, respond-reply_to}
use waeio.Httpserver.Bespoke.{Server, heard, buffer_size, recv_size, answer_request, receive_all}
use waeio.Httpserver.Bespoke.Accepting.{none_here}

module _ {W : Type 0} (host : Host W) (http : Http) (i : ℕ) where
  abbrev pub client : Server W → ℤ
  client s = (get_or s.fds i none_here).fd

  abbrev pub asked : Server W → RecvReply W
  asked s = host.recv s.world (client s) recv_size

  -- The bytes that the host gave are in the buffer, in front of the rest of what it held.
  abbrev pub Stored : Server W → List ℕ → Type 0
  Stored s rest = write_bytes s.reqbuf 0 (asked s).bytes ≡ done ((asked s).bytes ++ rest)

  abbrev pub filled : Server W → List ℕ → Server W
  filled s rest = record (heard s (asked s).reply) { reqbuf = (asked s).bytes ++ rest }

  -- Which response belongs to the request in the buffer, and whether the server is to end.
  abbrev pub reply : Server W → List ℕ → List ℕ × Bool
  reply s rest = reply_to http (http.parse ((asked s).bytes ++ rest))

  -- The response is in its buffer, in front of `behind`.
  abbrev pub prepared : Server W → List ℕ → List ℕ → Server W
  prepared s rest behind = record (filled s rest) {
    resbuf = (reply s rest).0 ++ behind;
    end_server = s.end_server || (reply s rest).1;
  }

  abbrev pub sending : Server W → List ℕ → List ℕ → Reply W
  sending s rest behind =
      host.send (filled s rest).world (client s) ((reply s rest).0 ++ behind)
        (length (reply s rest).0)

  abbrev pub answered : Server W → List ℕ → List ℕ → Server W
  answered s rest behind = heard (prepared s rest behind) (sending s rest behind)

  -- What passes between a client and the server in the loop that receives. The flags say whether the
  -- connection is to be closed, before and after.
  pub data Talk : Bool → Server W → Bool → Server W → Type 0 where
    waits :
        {flag : Bool} {s : Server W} (rest : List ℕ)
        → Stored s rest
        → is_neg (asked s).reply.answer ≡ true
        → (filled s rest).host_errno ≡ host.eagain
        → Talk flag s flag (filled s rest)
    refused :
        {flag : Bool} {s : Server W} (rest : List ℕ)
        → Stored s rest
        → is_neg (asked s).reply.answer ≡ true
        → (filled s rest).host_errno ≢ host.eagain
        → Talk flag s true (filled s rest)
    gone :
        {flag : Bool} {s : Server W} (rest : List ℕ)
        → Stored s rest
        → (asked s).reply.answer ≡ pos 0
        → Talk flag s true (filled s rest)
    send_fails :
        {flag : Bool} {s : Server W} (rest behind : List ℕ)
        → Stored s rest
        → is_neg (asked s).reply.answer ≡ false
        → (asked s).reply.answer ≢ pos 0
        → is_neg (sending s rest behind).answer ≡ true
        → Talk flag s true (answered s rest behind)
    answers :
        {flag closes : Bool} {s after : Server W} (rest behind : List ℕ)
        → Stored s rest
        → is_neg (asked s).reply.answer ≡ false
        → (asked s).reply.answer ≢ pos 0
        → is_neg (sending s rest behind).answer ≡ false
        → Talk (flag || (reply s rest).1) (answered s rest behind) closes after
        → Talk flag s closes after

  -- A request has been answered.
  pub record Answered (flag : Bool) (s : Server W) (rest : List ℕ) : Type 0 where
    pub behind : List ℕ
    pub same_size : length ((reply s rest).0 ++ behind) ≡ length s.resbuf
    returns : answer_request host http i flag (filled s rest) ≡ (
        if is_neg (sending s rest behind).answer
        then done (false, true, answered s rest behind)
        else done (true, flag || (reply s rest).1, answered s rest behind))

  pub answer_request-Answered :
      (flag : Bool) (s : Server W) (rest : List ℕ)
      → ((request : List ℕ) → IsResult (http.parse request).rc)
      → ResponsesFit http buffer_size
      → length s.resbuf ≡ buffer_size
      → i < length s.fds
      → Answered flag s rest
  unfolding answer_request
  answer_request-Answered flag s rest results fit size inside =
      let reqbuf = (asked s).bytes ++ rest in
      let a =
        respond-reply_to http assert s.resbuf buffer_size (http.parse reqbuf) fit
          (omega (arith, size)) refl (results reqbuf) in
      record {
        behind = a.0;
        same_size = length-append (reply s rest).0 a.0 ∙ a.2;
        returns = rw (a.1, read_in_range s.fds i none_here inside) refl;
      }

  pub receive_all-step :
      (fuel : ℕ) (flag : Bool) (s : Server W) (rest : List ℕ) (failed : Bool)
      → i < length s.fds
      → Stored s rest
      → is_neg (asked s).reply.answer ≡ false
      → (to_nat (asked s).reply.answer == 0) ≡ false
      → (a : Answered flag s rest) → is_neg (sending s rest a.behind).answer ≡ failed
      → let next = answered s rest a.behind in
        receive_all host http (suc fuel) i flag s ≡ (
          if failed
          then done (some (true, next))
          else receive_all host http fuel i (flag || (reply s rest).1) next)
  unfolding receive_all
  receive_all-step fuel flag s rest true inside stored got some_bytes a q =
      rw (read_in_range s.fds i none_here inside, stored, got, some_bytes, a.returns) (rw q refl)
  receive_all-step fuel flag s rest false inside stored got some_bytes a q =
      rw (read_in_range s.fds i none_here inside, stored, got, some_bytes, a.returns) (rw q refl)
