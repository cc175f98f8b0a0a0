-- ===== src/Wasio/Tests.antt =====
-- The backends run on a small host, and the theorems about them at concrete states.
use waeio.Prelude.{
  ℕ, zero, suc, ◌+◌, ◌<◌, ◌≡◌, ◌≢◌, refl, ◌⊎◌, inl, arith, ℤ, pos, negsuc, minus_one, List, [], ◌∷◌,
  bit, done,
}
use waeio.Freelist.{Freelist, live, calc_vector_len}
use waeio.Freelist.View.{free, IsFreelist}
use waeio.Wasio.{error, efull, translate_error}
use waeio.Wasio.Sample.{
  says, toy, toy-ClosesOpen, toy-PollsInPlace, first_taken, first_taken-IsFreelist, one_open,
  one_open-IsTable,
}
use waeio.Wasio.Poll
use waeio.Wasio.Poll.Bounds.{IsWfd}
use waeio.Wasio.Poll.Runs.{Sound, IsPollHost, run-Sound, wasio_accept_full}
use waeio.Wasio.Table
use waeio.Wasio.Table.{Wfd, State, unused, after}
use waeio.Wasio.Table.Wrap.{Wrapped, wasio_wrap_cases}
use waeio.Wasio.Table.Close.{Closed, wasio_close_cases}
use waeio.Wasio.Table.Calls.{Call, run}
use waeio.Wasio.Table.Spec.{Moves}
use waeio.Wasio.Table.View.{view, Refines}
use waeio.Wasio.Table.Runs.{run-Refines}
use waeio.Wasio.Wasi
use waeio.Wasio.Wasi.Wrap.{HasRoom}
use waeio.Wasio.Wasi.Accept.{RefusesUnopened, Accepted, wasio_accept-wasio_recv}

toy-IsPollHost : IsPollHost toy 1
toy-IsPollHost = record { same_length = λ w fds n t. refl }

-- The backend of one array, with room for one descriptor.
abbrev poll_empty : Poll.State ℕ
poll_empty = record {
  wfd = record {
    capacity = 1;
    length = 0;
    fds = record { fd = pos 0; events = 0; revents = 0 } ∷ [];
  };
  host_errno = pos 0;
  world = 3;
}

abbrev poll_full : Poll.State ℕ
poll_full = record {
  wfd = record {
    capacity = 1;
    length = 1;
    fds = record { fd = pos 3; events = 1; revents = 0 } ∷ [];
  };
  host_errno = pos 0;
  world = 4;
}

poll_empty-IsWfd : IsWfd poll_empty.wfd
poll_empty-IsWfd = record { within = omega arith; room = refl; word = omega arith }

poll_full-IsWfd : IsWfd poll_full.wfd
poll_full-IsWfd = record { within = omega arith; room = refl; word = omega arith }

abbrev open_and_close : List Poll.Runs.Call
open_and_close = Poll.Runs.accepts (pos 0) (pos 0) ∷ Poll.Runs.closes (pos 3) ∷ []

run-Sound_example : Sound toy 1 0 1 (Poll.Runs.run toy 1 poll_empty open_and_close)
run-Sound_example = run-Sound toy 1 poll_empty open_and_close toy-IsPollHost poll_empty-IsWfd

wasio_wrap_cases_example :
    Wrapped one_open one_open-IsTable (pos 9) (Table.wasio_wrap one_open (pos 9) (pos 0))
    ⊎ ((one_open.wfd.length ≡ one_open.wfd.capacity)
        × (Table.wasio_wrap one_open (pos 9) (pos 0) ≡ done (efull, pos 0, one_open)))
wasio_wrap_cases_example = wasio_wrap_cases one_open one_open-IsTable (pos 9) (pos 0)

wasio_close_cases_example :
    ((pos 0 ≢ pos 0)
      × (Table.wasio_close toy one_open (pos 0)
          ≡ done (
            translate_error toy (after toy one_open (says (pos 0) 8)).host_errno,
            after toy one_open (says (pos 0) 8),
          )))
    ⊎ ((pos 0 ≡ pos 0)
        × Closed one_open-IsTable
            (after toy one_open (says (pos 0) 8))
            0
            (Table.wasio_close toy one_open (pos 0)))
wasio_close_cases_example =
    wasio_close_cases toy toy-ClosesOpen one_open one_open-IsTable 0 (omega arith)

abbrev session : List Call
session =
    Call.accepts 0 (pos 0)
    ∷ Call.notifies_send 1
    ∷ Call.polls 0 (pos 0)
    ∷ Call.recvs 1 16 0
    ∷ Call.sends 1 (1 ∷ []) 1 0
    ∷ Call.closes 1
    ∷ Call.closes 1
    ∷ []

run-Refines_example :
    Refines (Moves toy (view one_open one_open-IsTable) session) 2 (run toy one_open session)
run-Refines_example =
    run-Refines toy one_open session one_open-IsTable toy-ClosesOpen toy-PollsInPlace (
      omega arith,
      (omega arith, (tt, (omega arith, (omega arith, (omega arith, (omega arith, tt)))))),
    )

-- The backend on the C library.
abbrev toy_recv : ℕ → ℤ → ℕ → ℤ × List ℕ × ℕ
toy_recv w (pos fd) len = (pos 1, 104 ∷ [], w)
toy_recv w (negsuc n) len = (minus_one, [], w)

abbrev toy_system : Wasi.System ℕ
toy_system = record {
  pollin = 1;
  pollout = 4;
  accept = λ w fd. (pos w, w + 1);
  recv = toy_recv;
  send = λ w fd buf len. (pos len, w);
  close = λ w fd. (pos 0, w);
  poll = λ w fds n timeout. (pos 0, fds, w);
}

abbrev wasi_open : Wasi.State ℕ
wasi_open = record { wfd = one_open.wfd; world = 8 }

abbrev wasi_open-HasRoom : HasRoom wasi_open.wfd
wasi_open-HasRoom = record {
  list = first_taken;
  list_is = refl;
  invariant = first_taken-IsFreelist;
  size_eq = refl;
  aligned = inl (omega arith);
  vfds_room = refl;
  fds_room = refl;
}

toy_system-RefusesUnopened : RefusesUnopened toy_system
toy_system-RefusesUnopened = record { refuses = λ w len. refl }

wasio_accept-wasio_recv_example :
    (x : Accepted toy_system wasi_open wasi_open-HasRoom 0
      (omega arith)
      (Wasi.wasio_accept toy_system wasi_open (pos 0) (pos 0)))
    × ((len recvlen : ℕ)
        → Wasi.wasio_recv toy_system x.after (pos x.entry) len recvlen
          ≡ done (error, recvlen, [], x.after))
wasio_accept-wasio_recv_example =
    wasio_accept-wasio_recv toy_system wasi_open wasi_open-HasRoom 0 (omega arith) (pos 0) 1
      toy_system-RefusesUnopened (omega arith) (unfold free bit in refl)

-- Both descriptors are in use.
abbrev both_taken : Freelist
both_taken = record { size = 2; len = 1; vector = 0xffff_fffc ∷ [] }

abbrev wasi_full : Wasi.State ℕ
wasi_full = record {
  wfd = record {
    capacity = 2;
    length = 2;
    fl = live both_taken;
    vfds =
        record { fd = pos 7; events = 1; revents = 0 }
        ∷ record { fd = pos 5; events = 1; revents = 0 }
        ∷ [];
    fds = pos 7 ∷ minus_one ∷ [];
  };
  world = 8;
}

both_taken-IsFreelist : IsFreelist both_taken
unfolding calc_vector_len
both_taken-IsFreelist = record {
  positive = omega arith;
  fits = omega arith;
  len_eq = refl;
  same_length = refl;
  words = omega arith;
}

none_free : (j : ℕ) → j < 2 → free both_taken j ≢ 1
unfolding free bit
none_free zero h one = omega (arith, one)
none_free (suc zero) h one = omega (arith, one)
none_free (suc (suc j)) h one = omega (arith, h)
