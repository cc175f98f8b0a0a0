-- ===== src/Httpserver/Tests.antt =====
-- examples/httpserver: the theorems on small arrays and a short response.
use waeio.Prelude.{
  Option, ◌⊎◌, aborted, ℕ, zero, suc, ◌+◌, ◌<◌, ◌≤◌, ◌≡◌, refl, arith, true, false, ℤ, pos,
  minus_one, eq_ℤ, List, [], ◌∷◌, ◌++◌, length, get_or, replicate, length-replicate, Outcome, done,
  assert,
}
use waeio.Wasio.{Pollfd}
use waeio.Httpserver.{compress}
use waeio.Httpserver.Compress.{keys_from, open_keys}
use waeio.Httpserver.Sample.{counting, short, short-IsResult, short-ResponsesFit}
use waeio.Httpserver.Request.{respond}
use waeio.Httpserver.Request.Answers.{Answers, reply_to, respond-reply_to}
use waeio.Httpserver.Response.{make_response, response_texts}
use waeio.Httpserver.Response.Fits.{response, concat, make_response_fits}
use waeio.Wasio.Poll.Runs.{IsPollHost}
use waeio.Waeio.{fiber_yield}
use waeio.Httpserver.WasioFiber.{FiberClosure, Server, Platform, entry_closed, entry_copy}
use waeio.Httpserver.WasioFiber.Main.{request_loop}
use waeio.Httpserver.WasioFiber.Safe.{Fits}
use waeio.Httpserver.WasioFiber.Entries.{KeepsEntries}
use waeio.Httpserver.WasioFiber.Rounds.{Runs, request_loop-Runs}
use waeio.Httpserver.WasioFiber.Commands.{none_here, fd_and_fiber, compress_pairs}

abbrev entry : ℤ → Pollfd
entry fd = record { fd = fd; events = 1; revents = 0 }

abbrev fiber_of : ℕ → FiberClosure
fiber_of n = record { fiber = n; fd = pos n }

-- Three connections of which the first is closed.
abbrev three : List (Pollfd × FiberClosure)
three =
    (entry minus_one, fiber_of 5) ∷ (entry (pos 6), fiber_of 6) ∷ (entry (pos 7), fiber_of 7) ∷ []

abbrev beyond : Pollfd × FiberClosure
beyond = (none_here, fiber_of 0)

compressed_three :
    compress entry_closed entry_copy 3 0 three 3
    ≡ done (
      (entry (pos 6), fiber_of 6) ∷ (entry (pos 7), fiber_of 7) ∷ (entry (pos 7), fiber_of 7) ∷ [],
      2,
    )
unfolding compress waeio.Prelude.write
compressed_three = refl

compress_pairs_example :
    (after : List (Pollfd × FiberClosure)) × (n' : ℕ) × (compress entry_closed entry_copy 3 0 three
        3
      ≡ done (after, n'))
    × (n'
        ≡ length (
            open_keys
              (λ (k : ℤ × FiberClosure). eq_ℤ k.0 minus_one)
              (keys_from fd_and_fiber
                (λ k. eq_ℤ k.0 minus_one)
                entry_copy
                (λ here next. refl)
                beyond
                3
                0
                three)))
    × (keys_from fd_and_fiber
          (λ k. eq_ℤ k.0 minus_one)
          entry_copy
          (λ here next. refl)
          beyond
          n'
          0
          after
        ≡ open_keys
            (λ (k : ℤ × FiberClosure). eq_ℤ k.0 minus_one)
            (keys_from fd_and_fiber
              (λ k. eq_ℤ k.0 minus_one)
              entry_copy
              (λ here next. refl)
              beyond
              3
              0
              three))
compress_pairs_example = compress_pairs three beyond 3 (omega arith)

abbrev no_decimal : ℕ → List ℕ
no_decimal n = 48 ∷ []

abbrev blank : List ℕ
blank = replicate 100 0

abbrev empty_response : List ℕ
empty_response = response [] no_decimal (52 ∷ 48 ∷ 52 ∷ []) [] 0

empty_response_size : length empty_response ≡ 73
unfolding concat response_texts
empty_response_size = refl

make_response_fits_example :
    (rest : List ℕ) × (make_response [] no_decimal blank 100 (52 ∷ 48 ∷ 52 ∷ []) [] 0
      ≡ done (pos (length empty_response), empty_response ++ rest))
    × (length empty_response + length rest ≡ length blank)
make_response_fits_example =
    make_response_fits [] no_decimal (52 ∷ 48 ∷ 52 ∷ []) [] 0 blank 100
      (omega (arith, empty_response_size)) (omega arith) (omega arith)

abbrev blank_4096 : List ℕ
blank_4096 = replicate 4096 0

buffer_length : length blank_4096 ≡ 4096
buffer_length = length-replicate 4096 (let n : ℕ = 0 in n)

respond-reply_to_example :
    Answers short blank_4096
      (reply_to short (short.parse []))
      (respond short assert blank_4096 4096 (short.parse []))
respond-reply_to_example =
    respond-reply_to short assert blank_4096 4096 (short.parse []) short-ResponsesFit
      (omega (arith, buffer_length)) refl (short-IsResult [])

-- Fibers that yield, and a listener with a client that is readable.
abbrev platform : Platform ℕ ℕ
platform = record {
  pollin = 1;
  pollhup = 16;
  fiber_alloc = λ m. (m, m + 1);
  fiber_free = λ m fiber. m;
  fiber_resume = λ s fiber. (fiber_yield, s);
}

abbrev server : Server ℕ ℕ
server = record {
  wasio = record {
    wfd = record {
      capacity = 3;
      length = 2;
      fds = entry (pos 4) ∷ record { fd = pos 5; events = 1; revents = 1 } ∷ entry minus_one ∷ [];
    };
    host_errno = pos 0;
    world = 1;
  };
  fibers = fiber_of 4 ∷ fiber_of 5 ∷ fiber_of 0 ∷ [];
  end_server = false;
  fd = minus_one;
  memory = 6;
}

server-Fits : Fits 3 server
server-Fits = record {
  wfd = record { within = omega arith; room = refl; word = omega arith };
  capacity_is = refl;
  fibers_room = refl;
}

platform-KeepsEntries : KeepsEntries counting platform 3
platform-KeepsEntries = record { fits = λ s fiber f. f; no_fewer = λ s fiber. omega arith }

counting-IsPollHost : IsPollHost counting 1
counting-IsPollHost = record { same_length = λ w fds n timeout. refl }

request_loop-Runs_example :
    (request_loop counting platform 2 (pos 1000) server ≡ aborted)
    ⊎ ((o : Option (Server ℕ ℕ)) × (request_loop counting platform 2 (pos 1000) server ≡ done o)
        × Runs counting platform 3 o)
request_loop-Runs_example =
    request_loop-Runs counting platform 3 2 (pos 1000) server platform-KeepsEntries
      counting-IsPollHost server-Fits
