-- ===== src/Driver/Tests.antt =====
-- src/host/driver/socket.c: the theorems on a small kernel and eight bytes of guest memory.
use waeio.Prelude.{
  ℕ, ◌+◌, ◌≡◌, refl, arith, ℤ, pos, minus_one, List, [], ◌∷◌, length, some, none, done, write,
}
use waeio.Wasio.{Reply}
use waeio.Driver.{i32, Machine, memory_write_u32}
use waeio.Driver.Memory.{Stored, memory_write_u32-Stored}
use waeio.Driver.Socket.{Kernel, host_accept}
use waeio.Driver.Results.{AcceptEnds, host_accept-AcceptEnds}

abbrev zeros : List ℕ
zeros = 0 ∷ 0 ∷ 0 ∷ 0 ∷ 0 ∷ 0 ∷ 0 ∷ 0 ∷ []

abbrev machine : Machine ℕ
machine = record { memory = zeros; errno = pos 0; kernel = 5 }

abbrev answers : ℤ → ℕ → Reply ℕ
answers n k = record { answer = n; errno = none; world = k }

abbrev fails : ℤ → ℕ → Reply ℕ
fails e k = record { answer = minus_one; errno = some e; world = k }

-- The kernel has nothing to accept, and no address can be reused.
abbrev kernel : Kernel ℕ
kernel = record {
  o_nonblock = 2048;
  socket = λ k. answers (pos k) (k + 1);
  reuse_address = λ k fd. fails (pos 22) k;
  bind = λ k fd port. answers (pos 0) k;
  listen = λ k fd backlog. answers (pos 0) k;
  connect = λ k fd address port. answers (pos 0) k;
  accept = λ k fd. fails (pos 11) k;
  get_flags = λ k fd. answers (pos 2) k;
  set_flags = λ k fd flags. answers (pos 0) k;
  recv = λ k fd len. record { reply = answers (pos 2) k; bytes = 104 ∷ 105 ∷ [] };
  send = λ k fd bytes. answers (pos (length bytes)) k;
  close = λ k fd. answers (pos 0) k;
}

-- 2571 is 0x0a0b.
stored_bytes : memory_write_u32 zeros 2 2571 ≡ done (0 ∷ 0 ∷ 11 ∷ 10 ∷ 0 ∷ 0 ∷ 0 ∷ 0 ∷ [])
unfolding memory_write_u32 write
stored_bytes = refl

memory_write_u32-Stored_example : Stored zeros 2 2571 (memory_write_u32 zeros 2 2571)
memory_write_u32-Stored_example = memory_write_u32-Stored zeros 2 2571 (omega arith) (omega arith)

-- A kernel with a connection, which it cannot make non-blocking.
abbrev accepting : Kernel ℕ
accepting = record kernel {
  accept = λ k fd. answers (pos 7) k;
  set_flags = λ k fd flags. fails (pos 9) k;
}

host_accept-AcceptEnds_example :
    AcceptEnds accepting machine
      (pos 3)
      (pos 4)
      (omega arith)
      (host_accept accepting (i32 (pos 3) ∷ i32 (pos 4) ∷ []) machine)
host_accept-AcceptEnds_example =
    host_accept-AcceptEnds accepting machine (pos 3) (pos 4) (omega arith)
