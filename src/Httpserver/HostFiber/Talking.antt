-- ===== src/Httpserver/HostFiber/Talking.antt =====
-- examples/httpserver/httpserver_fiber.c: what passes between a connection, its fiber and the host.
use waeio.Prelude.{
  ℕ, pos, true, ◌-◌, ◌≡◌, ◌≢◌, Bool, false, ◌||◌, ℤ, is_neg, List, ◌++◌, length, replicate,
}
use waeio.Wasio.{Host, RecvReply}
use waeio.Httpserver.Request.{Http}
use waeio.Httpserver.Request.Answers.{reply_to}
use waeio.Httpserver.WasioFiber.Coroutines.{Stop, yields, returns, buffer_size}
use waeio.Httpserver.HostFiber.{Server, heard}

-- Which response the host is asked to send for the bytes of a request, and whether the server is to end.
abbrev pub reply_for : Http → List ℕ → List ℕ × Bool
reply_for http received =
    reply_to http (http.parse (received ++ replicate (buffer_size - length received) 0))

module _ {W M : Type 0} (host : Host W) (http : Http) (fd : ℤ) where
  abbrev pub asked : Server W M → RecvReply W
  asked s = host.recv s.world fd buffer_size

  abbrev pub heard_from : Server W M → Server W M
  heard_from s = heard s (asked s).reply

  -- The server once it has sent the response to what it received, with `rest` behind it in the buffer.
  abbrev pub answered : Server W M → List ℕ → Server W M
  answered s rest =
      let reply = reply_for http (asked s).bytes in
      let t = record (heard_from s) { end_server = s.end_server || reply.1 } in
      heard t (host.send t.world fd (reply.0 ++ rest) (length reply.0))

  -- The host gave bytes, and the parser finds headers in them.
  pub record IsRequest (s : Server W M) : Type 0 where
    pub got : is_neg (asked s).reply.answer ≡ false
    pub some_bytes : (asked s).reply.answer ≢ pos 0
    pub headers :
        (http.parse
          ((asked s).bytes ++ replicate (buffer_size - length (asked s).bytes) 0)).num_headers
        ≢ 0

  -- What passes between a connection and its fiber until the fiber stops.
  pub data Talk : Server W M → Stop (Unit {0}) → Server W M → Type 0 where
    waits :
        {s : Server W M}
        → is_neg (asked s).reply.answer ≡ true
        → (heard_from s).host_errno ≡ host.eagain
        → Talk s (yields tt) (heard_from s)
    refused :
        {s : Server W M}
        → is_neg (asked s).reply.answer ≡ true
        → (heard_from s).host_errno ≢ host.eagain
        → Talk s returns (heard_from s)
    gone : {s : Server W M} → (asked s).reply.answer ≡ pos 0 → Talk s returns (heard_from s)
    no_headers :
        {s : Server W M}
        → is_neg (asked s).reply.answer ≡ false
        → (asked s).reply.answer ≢ pos 0
        → (http.parse
            ((asked s).bytes ++ replicate (buffer_size - length (asked s).bytes) 0)).num_headers
          ≡ 0
        → Talk s returns (heard_from s)
    ends :
        {s : Server W M} (rest : List ℕ)
        → IsRequest s
        → (answered s rest).end_server ≡ true
        → Talk s returns (answered s rest)
    answers :
        {s : Server W M} (rest : List ℕ) {stop : Stop (Unit {0})} {after : Server W M}
        → IsRequest s
        → (answered s rest).end_server ≡ false
        → Talk (answered s rest) stop after
        → Talk s stop after
