-- ===== src/Httpserver/Sample.antt =====
-- examples/httpserver: a host on which as many connections, or as many messages, wait as its state says,
-- and a service with short responses, that the tests of the servers share.
use waeio.Prelude.{
  ℕ, zero, suc, ◌+◌, ◌<◌, ◌≤◌, ◌≡◌, arith, inl, false, ℤ, pos, minus_one, is_neg, to_nat, List, [],
  ◌∷◌, length, take, length-take, some, ◌==◌,
}
use waeio.Wasio.{Host, Reply, RecvReply}
use waeio.Wasio.Sample.{says, toy_close}
use waeio.Httpserver.Response.{response_texts, bytes}
use waeio.Httpserver.Response.Fits.{concat}
use waeio.Httpserver.Request.{Http}
use waeio.Httpserver.Request.Answers.{IsResult, ResponsesFit}
use waeio.Httpserver.Bespoke.Draining.{Drains}

abbrev pub would_block : ℕ → Reply ℕ
would_block w = record { answer = minus_one; errno = some (pos 11); world = w }

abbrev waiting_accept : ℕ → Reply ℕ
waiting_accept zero = would_block 0
waiting_accept (suc w) = says (pos (w + 5)) w

abbrev message : List ℕ
message = 71 ∷ 69 ∷ []

abbrev waiting_recv : ℕ → ℕ → RecvReply ℕ
waiting_recv zero len = record { reply = would_block 0; bytes = [] }
waiting_recv (suc w) len = record {
  reply = says (pos (length (take len message))) w;
  bytes = take len message;
}

abbrev pub counting : Host ℕ
counting = record {
  eagain = pos 11;
  ewouldblock = pos 11;
  listen = λ w port backlog. says (pos 4) w;
  accept = λ w fd. waiting_accept w;
  recv = λ w fd len. waiting_recv w len;
  send = λ w fd buf len. says (pos len) w;
  close = toy_close;
  poll = λ w fds n timeout. record { reply = says (pos 1) w; fds = fds };
}

pub counting-Drains : Drains counting (λ w. w)
counting-Drains = record {
  at_most = at_most;
  received = received;
  sent = λ w fd buf len. omega arith;
}
  where
    at_most : (w : ℕ) (fd : ℤ) (len : ℕ) → length (waiting_recv w len).bytes ≤ len
    at_most zero fd len = omega arith
    at_most (suc w) fd len = omega (arith, length-take len message)

    received :
        (w : ℕ) (fd : ℤ) (len : ℕ)
        → is_neg (waiting_recv w len).reply.answer ≡ false
        → (to_nat (waiting_recv w len).reply.answer == 0) ≡ false
        → (waiting_recv w len).reply.world < w
    received zero fd len got some_bytes = cc
    received (suc w) fd len got some_bytes = omega arith

abbrev pub short : Http
short = record {
  parse = λ request. record { rc = pos 1; num_headers = 1; path = 47 ∷ [] };
  date = [];
  decimal = λ n. 48 ∷ [];
  response_body = 104 ∷ 105 ∷ [];
}

pub short-IsResult : (request : List ℕ) → IsResult (short.parse request).rc
short-IsResult request = inl (omega arith)

pub short-ResponsesFit : ResponsesFit short 4096
unfolding concat response_texts bytes
short-ResponsesFit = record {
  word = omega arith;
  served_fits = omega arith;
  bye_fits = omega arith;
  not_found_fits = omega arith;
  bad_fits = omega arith;
  too_large_fits = omega arith;
}
