-- ===== src/Driver/Socket.antt =====
-- src/host/driver/socket.c: the bindings that a guest imports from the host's socket module. The
-- system calls are parameters.
use waeio.Prelude.{
  negsuc, fault, drop, add_ℤ, ℕ, zero, suc, ◌%◌, ◌==◌, ℤ, pos, minus_one, is_neg, eq_ℤ, to_u32,
  List, [], ◌∷◌, length, bit_or, if◌then◌else◌, Outcome, done, ◌>>=◌, ◌>>◌, assert, read,
}
use waeio.Wasio.{Reply, RecvReply}
use waeio.Driver.{
  WasmVal, i32, i64, Machine, int32_arg, uint32_arg, write_errno, write_bytes, read_bytes, called,
}

-- The system calls. A port has been through `htons`, and an address through `inet_addr`.
pub record Kernel (K : Type 0) : Type 0 where
  pub o_nonblock : ℕ
  pub socket : K → Reply K
  pub reuse_address : K → ℤ → Reply K
  pub bind : K → ℤ → ℕ → Reply K
  pub listen : K → ℤ → ℤ → Reply K
  pub connect : K → ℤ → List ℕ → ℕ → Reply K
  pub accept : K → ℤ → Reply K
  pub get_flags : K → ℤ → Reply K
  pub set_flags : K → ℤ → ℕ → Reply K
  pub recv : K → ℤ → ℕ → RecvReply K
  pub send : K → ℤ → List ℕ → Reply K
  pub close : K → ℤ → Reply K

module _ {K : Type 0} (kernel : Kernel K) (args : List WasmVal) where
  -- `errno` is reported, and the answer returned.
  abbrev pub fail : Machine K → ℕ → ℤ → Outcome (WasmVal × Machine K)
  fail m args_offset answer = do m' ← write_errno m args args_offset; done (i32 answer, m')

  abbrev pub fail64 : Machine K → ℕ → ℤ → Outcome (WasmVal × Machine K)
  fail64 m args_offset answer = do m' ← write_errno m args args_offset; done (i64 answer, m')

  -- `flags == -1 || fcntl(fd, F_SETFL, flags | O_NONBLOCK) != 0`, with the report of `errno`.
  unfoldable pub set_nonblocking : Machine K → ℕ → ℤ → Outcome (Machine K)
  set_nonblocking m args_offset fd =
      let flags = kernel.get_flags m.kernel fd in
      let m1 = called m flags in
      if eq_ℤ flags.answer minus_one
      then write_errno m1 args args_offset
      else let set =
          kernel.set_flags m1.kernel fd (bit_or (to_u32 flags.answer) kernel.o_nonblock) in
        if eq_ℤ set.answer (pos 0)
        then done (called m1 set)
        else write_errno (called m1 set) args args_offset

  unfoldable pub host_accept : Machine K → Outcome (WasmVal × Machine K)
  unfolding set_nonblocking
  host_accept m = do
    assert (length args == 2)
    sockfd ← int32_arg args 0
    let ans = kernel.accept m.kernel sockfd
    if is_neg ans.answer
        then fail (called m ans) 1 ans.answer
        else do m' ← set_nonblocking (called m ans) 1 ans.answer; done (i32 ans.answer, m')

  -- `host_listen` once there is a socket: it is bound, and made to listen without blocking.
  unfoldable pub bind_and_listen : Machine K → ℤ → ℤ → ℤ → Outcome (WasmVal × Machine K)
  unfolding set_nonblocking
  bind_and_listen m sockfd port backlog =
      let bound = kernel.bind m.kernel sockfd (to_u32 port % 65536) in
      let m1 = called m bound in
      if is_neg bound.answer
      then fail m1 2 bound.answer
      else let listens = kernel.listen m1.kernel sockfd backlog in
        let m2 = called m1 listens in
        if is_neg listens.answer
        then fail m2 2 listens.answer
        else do m3 ← set_nonblocking m2 2 sockfd; done (i32 sockfd, m3)

  unfoldable pub host_listen : Machine K → Outcome (WasmVal × Machine K)
  unfolding bind_and_listen
  host_listen m = do
    assert (length args == 3)
    port ← int32_arg args 0
    backlog ← int32_arg args 1
    let opened = kernel.socket m.kernel
    let m1 = called m opened
    let reused = kernel.reuse_address m1.kernel opened.answer
    let m2 = called m1 reused
    if eq_ℤ reused.answer (pos 0)
        then if is_neg opened.answer
          then fail m2 2 opened.answer
          else bind_and_listen m2 opened.answer port backlog
        else fail m2 2 opened.answer

  -- The string that starts at an address, up to its null byte.
  unfoldable c_string : List ℕ → Outcome (List ℕ)
  c_string [] = fault
  c_string (zero ∷ xs) = done []
  c_string (suc x ∷ xs) = c_string xs >>= λ rest. done (suc x ∷ rest)

  unfoldable string_at : List ℕ → ℤ → Outcome (List ℕ)
  unfolding c_string
  string_at mem (pos offset) = c_string (drop offset mem)
  string_at mem (negsuc offset) = fault

  -- The two numbers are signed: an offset below 0 is in front of the memory.
  unfoldable pub host_connect : Machine K → Outcome (WasmVal × Machine K)
  unfolding set_nonblocking string_at
  host_connect m = do
    assert (length args == 4)
    addr_offset ← int32_arg args 0
    addr_len ← int32_arg args 1
    port ← int32_arg args 2
    let opened = kernel.socket m.kernel
    let m1 = called m opened
    if is_neg opened.answer then fail64 m1 2 opened.answer else do
      last ← read m.memory (add_ℤ addr_offset addr_len)
      assert (last == 0)
      address ← string_at m.memory addr_offset
      let connected = kernel.connect m1.kernel opened.answer address (to_u32 port % 65536)
      let m2 = called m1 connected
      if is_neg connected.answer
          then fail64 m2 3 connected.answer
          else do m3 ← set_nonblocking m2 3 opened.answer; done (i32 opened.answer, m3)

  -- The kernel writes what it received from `mem+boffset` on; the code does not compare `boffset`
  -- and `blen` with the size of the memory.
  unfoldable pub host_recv : Machine K → Outcome (WasmVal × Machine K)
  host_recv m = do
    assert (length args == 4)
    sockfd ← int32_arg args 0
    boffset ← uint32_arg args 1
    blen ← uint32_arg args 2
    let r = kernel.recv m.kernel sockfd blen
    memory ← write_bytes m.memory boffset r.bytes
    let m1 = record (called m r.reply) { memory = memory }
    if is_neg r.reply.answer then fail m1 3 r.reply.answer else done (i32 r.reply.answer, m1)

  unfoldable pub host_send : Machine K → Outcome (WasmVal × Machine K)
  host_send m = do
    assert (length args == 4)
    sockfd ← int32_arg args 0
    boffset ← uint32_arg args 1
    blen ← uint32_arg args 2
    bytes ← read_bytes m.memory boffset blen
    let ans = kernel.send m.kernel sockfd bytes
    let m1 = called m ans
    if is_neg ans.answer then fail m1 3 ans.answer else done (i32 ans.answer, m1)

  unfoldable pub host_close : Machine K → Outcome (WasmVal × Machine K)
  host_close m = do
    assert (length args == 2)
    sockfd ← int32_arg args 0
    let ans = kernel.close m.kernel sockfd
    let m1 = called m ans
    if is_neg ans.answer then fail m1 1 ans.answer else done (i32 ans.answer, m1)
