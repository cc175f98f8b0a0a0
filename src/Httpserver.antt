-- ===== src/Httpserver.antt =====
-- examples/httpserver: the removal of closed connections from the array that is polled, as
-- httpserver_bespoke.c and httpserver_wasio_fiber.c do it. What an entry is, which part of it moves
-- and when it is closed differ, and are parameters here.
pub mod Compress
pub mod WasioFiber
pub mod Response
pub mod Request
pub mod Bespoke
pub mod HostFiber
pub mod Queued
pub mod Sample
mod Tests
use waeio.Prelude.{
  ℕ, zero, suc, ◌+◌, ◌-◌, Bool, pos, List, if◌then◌else◌, Outcome, done, ◌>>=◌, read, write,
}

-- `closed` tells a closed entry, and `copy here next` is the assignment of the parts that move.
module _ {A : Type 0} (closed : A → Bool) (copy : A → A → A) where
  -- The inner loop, for `count` entries from `j` on: each takes the parts of the entry behind it.
  unfoldable pub shift : ℕ → ℕ → List A → Outcome (List A)
  shift zero j xs = done xs
  shift (suc count) j xs = do
    next ← read xs (pos (j + 1))
    here ← read xs (pos j)
    xs' ← write xs (pos j) (copy here next)
    shift count (j + 1) xs'

  -- The outer loop at index `i`, where `left` is `nfds - i`. After a shift the code lowers `i` and
  -- the loop raises it again, so it looks at the same index.
  unfoldable pub compress : ℕ → ℕ → List A → ℕ → Outcome (List A × ℕ)
  unfolding shift
  compress zero i xs nfds = done (xs, nfds)
  compress (suc left) i xs nfds = do
    x ← read xs (pos i)
    let keep = compress left (i + 1) xs nfds
    let remove = shift left i xs >>= λ xs'. compress left i xs' (nfds - 1)
    if closed x then remove else keep
