-- ===== src/Driver/Poll.antt =====
-- src/host/driver/poll.c: the binding of poll(2), which works on the entries in the guest's memory.
use waeio.Prelude.{
  ℕ, ◌*◌, ◌==◌, ℤ, is_neg, List, length, if◌then◌else◌, Outcome, done, ◌>>=◌, ◌>>◌, assert,
}
use waeio.Wasio.{RecvReply}
use waeio.Driver.{
  WasmVal, i32, Machine, int32_arg, uint32_arg, write_errno, write_bytes, read_bytes, called,
}

-- `poll` is the system call, which gets the bytes of the entries in the guest's memory, their number
-- and the timeout, and answers with the bytes that it leaves there. The arguments are the offset of
-- the entries, their number, the timeout, and the offset of the word for `errno`.
unfoldable pub host_poll :
    {K : Type 0}
    → (K → List ℕ → ℕ → ℤ → RecvReply K)
    → List WasmVal
    → Machine K
    → Outcome (WasmVal × Machine K)
host_poll poll args m = do
  assert (length args == 4)
  soffset ← uint32_arg args 0
  slen ← uint32_arg args 1
  timeout ← int32_arg args 2
  stored ← read_bytes m.memory soffset (slen * 8)
  let r = poll m.kernel stored slen timeout
  memory ← write_bytes m.memory soffset r.bytes
  let m1 = record (called m r.reply) { memory = memory }
  let failed = write_errno m1 args 3 >>= λ m2. done (i32 r.reply.answer, m2)
  if is_neg r.reply.answer then failed else done (i32 r.reply.answer, m1)
