-- ===== src/Wasio/Sample.antt =====
-- A small host, and a table on it, that the tests of the backends and of the scheduler share.
use waeio.Prelude.{
  ℕ, zero, suc, ◌+◌, ◌<◌, ◌≡◌, refl, inl, arith, ℤ, pos, negsuc, minus_one, [], ◌∷◌, get_or, some,
  none, bit,
}
use waeio.Freelist.{Freelist, live, calc_vector_len}
use waeio.Freelist.View.{free, IsFreelist}
use waeio.Wasio.{Reply, Host}
use waeio.Wasio.Table.{State, unused}
use waeio.Wasio.Table.Invariant.{IsTable, free_count}
use waeio.Wasio.Table.Close.{ClosesOpen}
use waeio.Wasio.Table.Calls.{PollsInPlace}

-- A host that hands out descriptors in order; its state is the next of them.
abbrev pub says : ℤ → ℕ → Reply ℕ
says answer w = record { answer = answer; errno = none; world = w }

abbrev pub refuse : ℕ → Reply ℕ
refuse w = record { answer = minus_one; errno = some (pos 9); world = w }

abbrev pub toy_close : ℕ → ℤ → Reply ℕ
toy_close w (pos fd) = says (pos 0) w
toy_close w (negsuc n) = refuse w

abbrev pub toy : Host ℕ
toy = record {
  eagain = pos 11;
  ewouldblock = pos 11;
  listen = λ w port backlog. says (pos w) (w + 1);
  accept = λ w fd. says (pos w) (w + 1);
  recv = λ w fd len. record { reply = says (pos 2) w; bytes = 104 ∷ 105 ∷ [] };
  send = λ w fd buf len. says (pos len) w;
  close = toy_close;
  poll = λ w fds n timeout. record { reply = says (pos 0) w; fds = fds };
}

pub toy-ClosesOpen : ClosesOpen toy
toy-ClosesOpen = record { refuses = λ w e. cc }

pub toy-PollsInPlace : PollsInPlace toy
toy-PollsInPlace = record { same_length = λ w fds n t. refl; same_fd = λ w fds n t e. refl }

-- The backend with virtual descriptors: of two, the first is bound to the host's descriptor 7.
abbrev pub first_taken : Freelist
first_taken = record { size = 2; len = 1; vector = 0xffff_fffe ∷ [] }

abbrev pub one_open : State ℕ
one_open = record {
  wfd = record {
    capacity = 2;
    length = 1;
    fl = live first_taken;
    vfds = record { fd = pos 7; events = 1; revents = 0 } ∷ unused ∷ [];
    fds = pos 7 ∷ minus_one ∷ [];
  };
  host_errno = pos 0;
  pollin = 1;
  pollout = 1;
  world = 8;
}

pub first_taken-IsFreelist : IsFreelist first_taken
unfolding calc_vector_len
first_taken-IsFreelist = record {
  positive = omega arith;
  fits = omega arith;
  len_eq = refl;
  same_length = refl;
  words = omega arith;
}

first_used : free first_taken 0 ≡ 0
unfolding free bit
first_used = refl

pub one_open-IsTable : IsTable one_open.wfd
one_open-IsTable = record {
  list = first_taken;
  list_is = refl;
  invariant = first_taken-IsFreelist;
  size_eq = refl;
  aligned = inl (omega arith);
  vfds_room = refl;
  fds_room = refl;
  unused_fd = second_unused;
  agrees = agree;
  counted = unfold free_count free bit in refl;
}
  where
    second_unused :
        (e : ℕ) → e < 2 → free first_taken e ≡ 1 → get_or one_open.wfd.fds e minus_one ≡ minus_one
    second_unused zero h one = absurd (omega (arith, one, first_used))
    second_unused (suc zero) h one = refl
    second_unused (suc (suc e)) h one = absurd (omega (arith, h))

    agree : (e : ℕ) → (get_or one_open.wfd.vfds e unused).fd ≡ get_or one_open.wfd.fds e minus_one
    agree zero = refl
    agree (suc zero) = refl
    agree (suc (suc e)) = refl
