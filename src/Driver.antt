-- ===== src/Driver.antt =====
-- inc/host/wasmtime_utils.h: what the host's bindings share: values, the memory of the guest, and
-- the report of `errno`. The instance exports its memory, as a list of bytes; an access outside
-- that list is an access to memory of the host, and a fault here.
pub mod Socket
pub mod Memory
pub mod Results
pub mod Poll
mod Tests
use waeio.Prelude.{
  ℕ, zero, suc, ◌+◌, ◌*◌, ◌/◌, ◌%◌, ◌==◌, Bool, true, false, ℤ, pos, negsuc, List, [], ◌∷◌, length,
  to_u32, u32, if◌then◌else◌, Outcome, done, fault, aborted, ◌>>=◌, read, write,
}
use waeio.Wasio.{Reply, errno_after}

-- `wasmtime_val_t`, of the kinds that the bindings use.
pub data WasmVal : Type 0 where
  i32 i64 : ℤ → WasmVal

-- The memory of the guest, the host's `errno`, and the state of the kernel.
pub record Machine (K : Type 0) : Type 0 where
  pub memory : List ℕ
  pub errno : ℤ
  pub kernel : K

-- `int32_t_of_wasmtime_val_t` of an argument, and the same as `uint32_t`.
unfoldable pub int32_arg : List WasmVal → ℕ → Outcome ℤ
int32_arg args i = read args (pos i) >>= of_val
  where
    of_val : WasmVal → Outcome ℤ
    of_val (i32 v) = done v
    of_val (i64 v) = aborted

unfoldable pub uint32_arg : List WasmVal → ℕ → Outcome ℕ
unfolding int32_arg
uint32_arg args i = int32_arg args i >>= λ v. done (to_u32 v)

-- `(uint8_t)x`
abbrev pub u8 : ℕ → ℕ
u8 x = x % 256

-- `memory_write_u32(mem+offset, u32)`: the bytes of a word, the lowest first.
unfoldable pub memory_write_u32 : List ℕ → ℕ → ℕ → Outcome (List ℕ)
memory_write_u32 mem offset word = do
  mem1 ← write mem (pos offset) (u8 word)
  mem2 ← write mem1 (pos (offset + 1)) (u8 (word / 256))
  mem3 ← write mem2 (pos (offset + 2)) (u8 (word / 65536))
  write mem3 (pos (offset + 3)) (u8 (word / 16777216))

-- `xs` written behind each other from an offset, and the bytes that lie there.
unfoldable pub write_bytes : List ℕ → ℕ → List ℕ → Outcome (List ℕ)
write_bytes mem offset [] = done mem
write_bytes mem offset (x ∷ xs) = do
  mem' ← write mem (pos offset) x
  write_bytes mem' (offset + 1) xs

unfoldable pub read_bytes : List ℕ → ℕ → ℕ → Outcome (List ℕ)
read_bytes mem offset zero = done []
read_bytes mem offset (suc len) = do
  x ← read mem (pos offset)
  xs ← read_bytes mem (offset + 1) len
  done (x ∷ xs)

module _ {K : Type 0} where
  -- WRITE_ERRNO
  unfoldable pub write_errno : Machine K → List WasmVal → ℕ → Outcome (Machine K)
  unfolding memory_write_u32 uint32_arg
  write_errno m args args_offset = do
    offset ← uint32_arg args args_offset
    memory ← memory_write_u32 m.memory offset (to_u32 m.errno)
    done (record m { memory = memory })

  -- The machine after a system call.
  abbrev pub called : Machine K → Reply K → Machine K
  called m r = record m { errno = errno_after m.errno r.errno; kernel = r.world }
