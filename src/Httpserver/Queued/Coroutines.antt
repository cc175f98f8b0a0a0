-- ===== src/Httpserver/Queued/Coroutines.antt =====
-- examples/httpserver/httpserver.c: the code of the two kinds of fibers. Each runs from one
-- `fiber_yield` to the next. The parser is a parameter; it gets the buffer, the two lengths that the
-- code passes, and the number of headers, which it also changes.
use waeio.Prelude.{
  ℕ, zero, suc, ◌-◌, ◌==◌, ◌||◌, ℤ, pos, negsuc, minus_one, is_neg, eq_ℤ, to_nat, to_u32, to_int32,
  List, [], length, Option, some, none, add32, sub32, if◌then◌else◌, Outcome, done, ◌>>=◌, ◌>>◌,
  ltb, assert,
}
use waeio.Wasio.{WasioResult, ok, eagain, Host}
use waeio.Wasio.Table.{wasio_accept, wasio_recv, wasio_send, wasio_notify_recv}
use waeio.Driver.{write_bytes}
use waeio.Httpserver.Response.{bytes, response_ok, response_notfound, response_err}
use waeio.Httpserver.Request.{Parsed, eq_bytes}
use waeio.Httpserver.WasioFiber.{fiber_kill_signal}
use waeio.Httpserver.WasioFiber.Coroutines.{
  Stop, yields, returns, ListenerWait, for_room, for_connection,
}
use waeio.Httpserver.Queued.{
  Server, Platform, CmdTag, yield, recv, send, quit, cmd_make, push_rear, notified,
}

abbrev pub buffer_size : ℕ
buffer_size = 65536

abbrev pub max_headers : ℕ
max_headers = 100

-- `max_clients`
abbrev pub max_clients : {W M : Type 0} → Platform W M → ℕ
max_clients env = env.max_connections - 1

pub record Service : Type 0 where
  pub parse : List ℕ → ℕ → ℕ → ℕ → Parsed
  pub date : List ℕ
  pub decimal : ℕ → List ℕ
  pub response_body : List ℕ

abbrev pub commands : {W M : Type 0} → CmdTag → ℤ → Server W M → Server W M
commands tag fd s = record s { cmd = cmd_make tag fd }

-- The calls of the backend in `w_recv` and `w_send`: the number of bytes or -1, or a wait.
pub data Attempt : Type 0 where
  waits : Attempt
  gives : ℤ → Attempt

abbrev pub attempt_of : WasioResult → ℕ → Attempt
attempt_of eagain nbytes = waits
attempt_of ok nbytes = gives (to_int32 nbytes)
attempt_of _ nbytes = gives minus_one

module _ {W M : Type 0} (host : Host W) (env : Platform W M) where
  -- `w_accept`, with `left` connections to go until `*naccepted`, which is `clients`, is `max_accept`.
  unfoldable pub w_accept : ℕ → ℤ → Server W M → Outcome (WasioResult × Server W M)
  w_accept zero fd s = done (ok, s)
  w_accept (suc left) fd s = wasio_accept host s.wasio fd minus_one >>= λ r.
      (let s' = record s { wasio = r.2 } in
        let taken = notified s' (wasio_notify_recv s'.wasio fd) >>= λ t.
        push_rear (record t { memory = (env.fiber_alloc t.memory).1 })
          (record { fiber = (env.fiber_alloc t.memory).0; fd = r.1 })
        >>= λ u. w_accept left fd (record u { clients = add32 u.clients 1 }) in
        elim r.0 [ ok ↦ taken | code ↦ done (code, s') ])

  -- `listener` at the head of its loop. The number of connections to accept is `max_clients - clients`,
  -- a subtraction of words, and the loop of `w_accept` runs while `clients` is below it.
  unfoldable pub listen_on : ℤ → Server W M → Outcome (Stop ListenerWait × Server W M)
  listen_on sockfd s =
      let max_accept = sub32 (max_clients env) s.clients in
      let accepted = w_accept (max_accept - s.clients) sockfd s >>= λ r.
      done (yields for_connection, commands recv sockfd r.1) in
      if s.clients == max_clients env
      then done (yields for_room, commands yield (pos 0) s)
      else accepted

  -- `listener` from a yield, with the value it is resumed with; its start is `listen_on`.
  unfoldable pub listener_resumed : ℤ → ℤ → Server W M → Outcome (Stop ListenerWait × Server W M)
  listener_resumed sockfd ans s =
      if eq_ℤ ans fiber_kill_signal then done (returns, s) else listen_on sockfd s

-- Where `handle_connection` calls the backend: in `w_recv`, with the buffer, the bytes in it and the
-- number of headers, or in `w_send`, with what is to be done afterwards, the buffer and its length.
pub data Point : Type 0 where
  receiving : List ℕ → ℕ → ℕ → Point
  sending : ℤ → List ℕ → ℤ → Point

-- Its yields.
pub data ConnectionWait : Type 0 where
  at_call : Point → ConnectionWait
  at_quit : ConnectionWait

pub data Next : Type 0 where
  goes : Point → Next
  stops : Stop ConnectionWait → Next

-- What the code does with a parsed request: 1 for the text, 2 to quit, 0 for not found.
abbrev pub path_code : List ℕ → ℤ
path_code path =
    if eq_bytes path (bytes "/")
    then pos 1
    else if eq_bytes path (bytes "/quit")
    then pos 2
    else pos 0

-- The response to a request, written over it.
unfoldable pub reply : Service → ℤ → List ℕ → Outcome (ℤ × List ℕ)
reply http ans reqbuf =
    let farewell = bytes "OK bye...\n" in
    let failure = bytes "I/O failure" in
    if is_neg ans
    then response_err http.date http.decimal reqbuf buffer_size failure (length failure)
    else if eq_ℤ ans (pos 1)
    then response_ok http.date http.decimal reqbuf buffer_size http.response_body
        (length http.response_body)
    else if eq_ℤ ans (pos 2)
    then response_ok http.date http.decimal reqbuf buffer_size farewell (length farewell)
    else response_notfound http.date http.decimal reqbuf buffer_size [] 0

module _ {W M : Type 0} (host : Host W) (http : Service) where
  -- `w_recv` and `w_send` before their first call of the backend.
  abbrev pub start_recv : ℤ → List ℕ → ℕ → ℕ → Server W M → Next × Server W M
  start_recv fd reqbuf buflen num_headers s =
      (goes (receiving reqbuf buflen num_headers), commands recv fd s)

  abbrev pub start_send : ℤ → ℤ → ℤ × List ℕ → Server W M → Next × Server W M
  start_send fd ans (nbytes, reqbuf) s = (goes (sending ans reqbuf nbytes), commands send fd s)

  -- `buflen` bytes are in the buffer, `prevbuflen` of them from earlier calls.
  unfoldable pub parsed : ℤ → List ℕ → ℕ → ℕ → ℕ → Server W M → Outcome (Next × Server W M)
  parsed fd reqbuf prevbuflen buflen num_headers s =
      let p = http.parse reqbuf (sub32 buffer_size buflen) prevbuflen num_headers in
      let answered = λ (ans : ℤ). reply http ans reqbuf >>= λ r. done (start_send fd ans r s) in
      let partial =
        assert (eq_ℤ p.rc (negsuc 1))
        >> (if buflen == buffer_size
            then answered minus_one
            else done (start_recv fd reqbuf buflen p.num_headers s)) in
      if ltb 0 (to_nat p.rc)
      then answered (path_code p.path)
      else if eq_ℤ p.rc minus_one
      then answered minus_one
      else partial

  -- From a call of the backend to the next, or to a yield or the end.
  unfoldable pub advance : Point → ℤ → Server W M → Outcome (Next × Server W M)
  advance (receiving reqbuf buflen num_headers) fd s = do
    r ← wasio_recv host s.wasio fd (sub32 buffer_size buflen) 0
    reqbuf' ← write_bytes reqbuf buflen r.2
    let s' = record s { wasio = r.3 }
    let got = λ (n : ℤ).
        if is_neg n || eq_ℤ n (pos 0)
        then done (stops returns, s')
        else parsed fd reqbuf' buflen (add32 buflen (to_nat n)) num_headers s'
    elim (attempt_of r.0 r.1) [
      | waits ↦ done (stops (yields (at_call (receiving reqbuf' buflen num_headers))), s')
      | gives n ↦ got n
    ]
  advance (sending ans reqbuf nbytes) fd s = do
    r ← wasio_send host s.wasio fd reqbuf (to_u32 nbytes) 0
    let s' = record s { wasio = r.2 }
    let sent =
        if eq_ℤ ans (pos 2)
        then (stops (yields at_quit), commands quit minus_one s')
        else start_recv fd reqbuf 0 max_headers s'
    elim (attempt_of r.0 r.1) [
      | waits ↦ done (stops (yields (at_call (sending ans reqbuf nbytes))), s')
      | gives n ↦ done sent
    ]

  -- `handle_connection` from a point, for at most `fuel` calls of the backend.
  unfoldable pub converse :
      ℕ → Next × Server W M → ℤ → Outcome (Option (Stop ConnectionWait × Server W M))
  converse fuel (stops stop, s) fd = done (some (stop, s))
  converse zero (goes point, s) fd = done none
  converse (suc fuel) (goes point, s) fd = advance point fd s >>= λ next. converse fuel next fd

  -- `handle_connection` from its start; `reqbuf` is what its buffer holds then.
  unfoldable pub handle_connection :
      ℕ → List ℕ → ℤ → Server W M → Outcome (Option (Stop ConnectionWait × Server W M))
  handle_connection fuel reqbuf clientfd s =
      converse fuel (start_recv clientfd reqbuf 0 max_headers s) clientfd

  -- What it goes on with when it is resumed with `code`: the signal to stop ends the call of the
  -- backend with a negative number.
  unfoldable pub resumed : ConnectionWait → ℤ → ℤ → Server W M → Next × Server W M
  resumed at_quit clientfd code s = (stops returns, s)
  resumed (at_call (receiving reqbuf buflen num_headers)) clientfd code s =
      if eq_ℤ code fiber_kill_signal
      then (stops returns, s)
      else (goes (receiving reqbuf buflen num_headers), s)
  resumed (at_call (sending ans reqbuf nbytes)) clientfd code s =
      if eq_ℤ code fiber_kill_signal
      then if eq_ℤ ans (pos 2)
        then (stops (yields at_quit), commands quit minus_one s)
        else start_recv clientfd reqbuf 0 max_headers s
      else (goes (sending ans reqbuf nbytes), s)

  unfoldable pub connection_resumed :
      ℕ → ConnectionWait → ℤ → ℤ → Server W M → Outcome (Option (Stop ConnectionWait × Server W M))
  connection_resumed fuel wait clientfd code s =
      converse fuel (resumed wait clientfd code s) clientfd
