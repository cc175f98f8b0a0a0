-- ===== src/Httpserver/Bespoke/Tests.antt =====
-- examples/httpserver/httpserver_bespoke.c: the theorems on a small array.
use waeio.Prelude.{
  negsuc, Bool, true, some, zero, suc, ℕ, ◌<◌, ◌≤◌, ◌≡◌, refl, ◌⊎◌, arith, false, ℤ, pos, minus_one,
  is_neg, [], ◌∷◌, map, take, length, replicate, length-replicate, done, fault,
}
use waeio.Wasio.{Pollfd}
use waeio.Httpserver.Compress.{open_keys}
use waeio.Httpserver.Sample.{counting, counting-Drains, short, short-IsResult, short-ResponsesFit}
use waeio.Httpserver.Bespoke.{Server, close_all, accept_all, serve_client, request_round}
use waeio.Httpserver.Bespoke.Draining.{Calm}
use waeio.Httpserver.Bespoke.Workload.{Workload, InBounds}
use waeio.Httpserver.Bespoke.Rounds.{request_round-Ends}
use waeio.Httpserver.Bespoke.Closing.{fd_of, close_each, close_all-close_each}
use waeio.Httpserver.Bespoke.Accepting.{Accepted, accept_all_cases}
use waeio.Httpserver.Bespoke.Serving.{Served, serve_client-Served}

abbrev entry : ℤ → Pollfd
entry fd = record { fd = fd; events = 1; revents = 1 }

-- The listener, a closed entry, a client, and a place that is not in use.
abbrev server : Server ℕ
server = record {
  world = 1;
  host_errno = pos 0;
  fds = entry (pos 4) ∷ entry minus_one ∷ entry (pos 6) ∷ entry (pos 0) ∷ [];
  nfds = 3;
  end_server = false;
  compress_array = false;
  reqbuf = replicate 4096 0;
  resbuf = replicate 4096 0;
}

close_all-close_each_example :
    close_all counting 3 0 server
    ≡ done (close_each counting server (open_keys is_neg (map fd_of (take 3 server.fds))))
close_all-close_each_example = close_all-close_each counting 3 server (omega arith)

accept_all_cases_example :
    ((4 ≤ 4) × Accepted counting 1 (pos 4) server (5 ∷ []) (accept_all counting 1 (pos 4) 2 server))
    ⊎ ((4 < 4) × (accept_all counting 1 (pos 4) 2 server ≡ fault))
accept_all_cases_example =
    accept_all_cases counting 1 (pos 4) (5 ∷ []) 2 server (refl, refl) (omega arith) (omega arith)
      (omega arith)

buffer_length : length server.reqbuf ≡ 4096
buffer_length = length-replicate 4096 (let n : ℕ = 0 in n)

serve_client-Served_example :
    Served counting short (λ w. w) server 2 (serve_client counting short 2 2 server)
serve_client-Served_example =
    serve_client-Served counting short (λ w. w) 2 2 server counting-Drains short-IsResult
      short-ResponsesFit buffer_length buffer_length (omega arith) (omega arith)

calm : Calm counting (λ w. w)
calm = record { by_recv = by_recv; by_send = λ w fd buf len. omega arith; by_close = by_close }
  where
    by_recv : (w : ℕ) (fd : ℤ) (len : ℕ) → (counting.recv w fd len).reply.world ≤ w
    by_recv zero fd len = omega arith
    by_recv (suc w) fd len = omega arith

    by_close : (w : ℕ) (fd : ℤ) → (counting.close w fd).world ≤ w
    by_close w (pos fd) = omega arith
    by_close w (negsuc n) = omega arith

-- As many connections, and as many messages, are to come as the state says.
counting-Workload : Workload counting (λ w. w) (λ w. w)
counting-Workload = record {
  drains = counting-Drains;
  in_place = record { same_length = λ w fds n t. refl; same_fd = λ w fds n t e. refl };
  calm_conns = calm;
  calm_bytes = calm;
  accepted = accepted;
  conns_by_accept = by_accept;
  bytes_by_accept = by_accept;
  conns_by_poll = λ w fds n t. omega arith;
  bytes_by_poll = λ w fds n t. omega arith;
}
  where
    accepted :
        (w : ℕ) (fd : ℤ)
        → is_neg (counting.accept w fd).answer ≡ false
        → (counting.accept w fd).world < w
    accepted zero fd q = cc
    accepted (suc w) fd q = omega arith

    by_accept : (w : ℕ) (fd : ℤ) → (counting.accept w fd).world ≤ w
    by_accept zero fd = omega arith
    by_accept (suc w) fd = omega arith

server-InBounds : InBounds counting (λ w. w) (λ w. w) 2 server
server-InBounds = record {
  room = omega arith;
  word = omega arith;
  enough_conns = omega arith;
  enough_bytes = omega arith;
  reqbuf_size = buffer_length;
  resbuf_size = buffer_length;
}

request_round-Ends_example :
    (goes_on : Bool) × (t : Server ℕ) × (request_round counting 1 short (pos 4) 2 server
      ≡ done (some (goes_on, t)))
    × InBounds counting (λ w. w) (λ w. w) 2 t
    × (goes_on ≡ true → t.end_server ≡ false)
request_round-Ends_example =
    request_round-Ends counting 1 short (pos 4) (λ w. w) (λ w. w) 2 server
      (record {
        work = counting-Workload;
        results = short-IsResult;
        responses = short-ResponsesFit;
      })
      server-InBounds
