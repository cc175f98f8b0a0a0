-- ===== src/Driver/Results.antt =====
-- src/host/driver/socket.c: what the guest sees of a call.
use waeio.Prelude.{
  ℕ, ◌+◌, ◌<◌, ◌≤◌, ◌≡◌, ◌≢◌, eq_ℤ→eq, eq_ℤ→ne, refl, ap, ◌⊎◌, inl, inr, arith, true, false, ℤ, pos,
  negsuc, minus_one, is_neg, eq_ℤ, to_u32, List, [], ◌∷◌, length, get_or, set, length-set, u32_mod,
  bit_or, ltb, Bool-cases, ltb→lt, Outcome, done, fault, write,
}
use waeio.Wasio.{Reply}
use waeio.Driver.{WasmVal, i32, Machine, int32_arg, uint32_arg, write_errno, write_bytes, called}
use waeio.Driver.Memory.{memory_read_u32, memory_write_u32-Stored}
use waeio.Driver.Socket.{Kernel, host_accept, set_nonblocking, host_listen, host_recv}

-- `(uint32_t)x` is a word.
pub to_u32-lt : (x : ℤ) → to_u32 x < u32_mod
to_u32-lt (pos n) = omega arith
to_u32-lt (negsuc n) = omega arith

-- `m` with `errno` stored in the guest's word at `offset`.
pub record Reported {K : Type 0} (m : Machine K) (offset : ℕ) (after : Machine K) : Type 0 where
  pub errno_is : memory_read_u32 after.memory offset ≡ to_u32 m.errno
  pub same_length : length after.memory ≡ length m.memory
  pub others :
      (j : ℕ) → (j < offset) ⊎ (offset + 3 < j) → get_or after.memory j 0 ≡ get_or m.memory j 0
  pub same_kernel : after.kernel ≡ m.kernel

module _ {K : Type 0} where
  write_errno-Reported :
      (m : Machine K) (args : List WasmVal) (i offset : ℕ)
      → uint32_arg args i ≡ done offset
      → offset + 3 < length m.memory
      → (after : Machine K) × (write_errno m args i ≡ done after) × Reported m offset after
  unfolding write_errno
  write_errno-Reported m args i offset q inside =
      let x = memory_write_u32-Stored m.memory offset (to_u32 m.errno) inside (to_u32-lt m.errno) in
      (
        record m { memory = x.after },
        rw (q, x.returns),
        record {
          errno_is = x.word_is;
          same_length = x.same_length;
          others = x.others;
          same_kernel = refl;
        },
      )

module _ {K : Type 0} (kernel : Kernel K) (m : Machine K) (sockfd offset : ℤ)
    (inside : to_u32 offset + 3 < length m.memory) where
  abbrev accept_args : List WasmVal
  accept_args = i32 sockfd ∷ i32 offset ∷ []

  abbrev pub accepted : Reply K
  accepted = kernel.accept m.kernel sockfd

  abbrev pub asked : Machine K
  asked = called m accepted

  -- What fcntl(2) answers when asked for the flags of the new descriptor, and the guest's machine then.
  abbrev pub flags : Reply K
  flags = kernel.get_flags asked.kernel accepted.answer

  abbrev pub asked_flags : Machine K
  asked_flags = called asked flags

  -- What it answers when these flags, with O_NONBLOCK, are set.
  abbrev pub setting : Reply K
  setting =
      kernel.set_flags asked_flags.kernel accepted.answer
        (bit_or (to_u32 flags.answer) kernel.o_nonblock)

  -- How `host_accept(sockfd, offset)` ends.
  pub data AcceptEnds (result : Outcome (WasmVal × Machine K)) : Type 0 where
    refused :
        is_neg accepted.answer ≡ true
        → (after : Machine K) → Reported asked (to_u32 offset) after
        → result ≡ done (i32 accepted.answer, after)
        → AcceptEnds result
    without_blocking :
        is_neg accepted.answer ≡ false
        → flags.answer ≢ minus_one
        → setting.answer ≡ pos 0
        → result ≡ done (i32 accepted.answer, called asked_flags setting)
        → AcceptEnds result
    no_flags :
        is_neg accepted.answer ≡ false
        → flags.answer ≡ minus_one
        → (after : Machine K) → Reported asked_flags (to_u32 offset) after
        → result ≡ done (i32 accepted.answer, after)
        → AcceptEnds result
    not_set :
        is_neg accepted.answer ≡ false
        → flags.answer ≢ minus_one
        → setting.answer ≢ pos 0
        → (after : Machine K) → Reported (called asked_flags setting) (to_u32 offset) after
        → result ≡ done (i32 accepted.answer, after)
        → AcceptEnds result

  report :
      (m' : Machine K)
      → m'.memory ≡ m.memory
      → (after : Machine K) × (write_errno m' accept_args 1 ≡ done after)
        × Reported m' (to_u32 offset) after
  unfolding uint32_arg int32_arg
  report m' same =
      write_errno-Reported m' accept_args 1 (to_u32 offset) refl
        (omega (arith, inside, ap (λ l. length l) same))

  -- With a word inside the guest's memory to report to, `host_accept` returns what accept(2) answers.
  -- If that is an error, the word holds the `errno` of accept(2). If it is a descriptor, fcntl(2) is
  -- asked for its flags and then, unless that fails, to set them with O_NONBLOCK. When it answers 0
  -- to that, the memory is untouched; when either call fails, the descriptor is returned all the same,
  -- and the word holds the `errno` of the call that failed. No byte but those of the word changes.
  pub host_accept-AcceptEnds : AcceptEnds (host_accept kernel accept_args m)
  unfolding host_accept int32_arg set_nonblocking
  host_accept-AcceptEnds = elim (Bool-cases (is_neg accepted.answer)) [
    | inl neg ↦ let x = report asked refl in refused neg x.0 x.2 (rw (neg, x.1))
    | inr ok ↦ elim (Bool-cases (eq_ℤ flags.answer minus_one)) [
      | inl none_got ↦
          let x = report asked_flags refl in
          no_flags ok (eq_ℤ→eq _ _ none_got) x.0 x.2 (rw (ok, none_got, x.1))
      | inr got ↦
          let ne : flags.answer ≢ minus_one = eq_ℤ→ne _ _ got in
          elim (Bool-cases (eq_ℤ setting.answer (pos 0))) [
            | inl was_set ↦ without_blocking ok ne (eq_ℤ→eq _ _ was_set) (rw (ok, got, was_set))
            | inr failed ↦
                let x = report (called asked_flags setting) refl in
                not_set ok ne (eq_ℤ→ne _ _ failed) x.0 x.2 (rw (ok, got, failed, x.1))
          ]
    ]
  ]

module _ {K : Type 0} (kernel : Kernel K) (m : Machine K) where
  -- When the socket is there but its address cannot be made reusable, and the word for `errno` lies
  -- in the guest's memory, `host_listen` returns the socket, like a success. The kernel is as the
  -- failed call left it: the socket was neither bound nor made to listen.
  pub host_listen_not_reused :
      (port backlog offset : ℤ) (fd : ℕ)
      → to_u32 offset + 3 < length m.memory
      → (kernel.socket m.kernel).answer ≡ pos fd
      → eq_ℤ (kernel.reuse_address (kernel.socket m.kernel).world (pos fd)).answer (pos 0) ≡ false
      → (after : Machine K) × (host_listen kernel (i32 port ∷ i32 backlog ∷ i32 offset ∷ []) m
          ≡ done (i32 (pos fd), after))
        × (after.kernel ≡ (kernel.reuse_address (kernel.socket m.kernel).world (pos fd)).world)
  unfolding host_listen int32_arg uint32_arg
  host_listen_not_reused port backlog offset fd inside opened not_reused =
      let m2 =
        called (called m (kernel.socket m.kernel))
          (kernel.reuse_address (kernel.socket m.kernel).world (pos fd)) in
      let x =
        write_errno-Reported m2 (i32 port ∷ i32 backlog ∷ i32 offset ∷ []) 2 (to_u32 offset) refl
          inside in
      (x.0, rw (opened, not_reused, x.1), x.2.same_kernel)

  write_bytes_fault :
      (mem : List ℕ) (offset x : ℕ) (xs : List ℕ)
      → length mem ≤ offset + length xs
      → write_bytes mem offset (x ∷ xs) ≡ fault
  unfolding write_bytes write
  write_bytes_fault mem offset x [] h = elim (Bool-cases (ltb offset (length mem))) [
    | inr out ↦ rw out
    | inl here ↦ absurd (omega (arith, h, ltb→lt _ _ here))
  ]
  write_bytes_fault mem offset x (y ∷ xs) h = elim (Bool-cases (ltb offset (length mem))) [
    | inr out ↦ rw out
    | inl here ↦ rw here (
        write_bytes_fault (set mem offset x) (offset + 1) y xs
          (omega (arith, h, length-set mem offset x)))
  ]

  -- Whatever offset and length the guest passes, `host_recv` hands them to the kernel: when the
  -- received bytes, at least one, reach beyond the memory of the guest, the access is out of its
  -- range.
  pub host_recv_out_of_range :
      (sockfd boffset blen offset : ℤ) (x : ℕ) (xs : List ℕ)
      → (kernel.recv m.kernel sockfd (to_u32 blen)).bytes ≡ x ∷ xs
      → length m.memory ≤ to_u32 boffset + length xs
      → host_recv kernel (i32 sockfd ∷ i32 boffset ∷ i32 blen ∷ i32 offset ∷ []) m ≡ fault
  unfolding host_recv int32_arg uint32_arg
  host_recv_out_of_range sockfd boffset blen offset x xs q h =
      rw (q, write_bytes_fault m.memory (to_u32 boffset) x xs h)
