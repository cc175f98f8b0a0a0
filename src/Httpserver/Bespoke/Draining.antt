-- ===== src/Httpserver/Bespoke/Draining.antt =====
-- examples/httpserver/httpserver_bespoke.c: what its loops rely on of the host.
use waeio.Prelude.{ℕ, ◌<◌, ◌≤◌, ◌≡◌, false, ℤ, is_neg, to_nat, List, length, ◌==◌}
use waeio.Wasio.{Host}

-- What the loop relies on of the host: recv(2) stores at most what is asked for, and the bytes that
-- wait to be received, as `waiting` counts them, become fewer with each successful call, and no more by a
-- call of send(2).
pub record Drains {W : Type 0} (host : Host W) (waiting : W → ℕ) : Type 0 where
  pub at_most : (w : W) (fd : ℤ) (len : ℕ) → length (host.recv w fd len).bytes ≤ len
  pub received :
      (w : W) (fd : ℤ) (len : ℕ)
      → is_neg (host.recv w fd len).reply.answer ≡ false
      → (to_nat (host.recv w fd len).reply.answer == 0) ≡ false
      → waiting (host.recv w fd len).reply.world < waiting w
  pub sent :
      (w : W) (fd : ℤ) (buf : List ℕ) (len : ℕ) → waiting (host.send w fd buf len).world ≤ waiting w

-- No call while a client is served makes the count higher.
pub record Calm {W : Type 0} (host : Host W) (count : W → ℕ) : Type 0 where
  pub by_recv : (w : W) (fd : ℤ) (len : ℕ) → count (host.recv w fd len).reply.world ≤ count w
  pub by_send :
      (w : W) (fd : ℤ) (buf : List ℕ) (len : ℕ) → count (host.send w fd buf len).world ≤ count w
  pub by_close : (w : W) (fd : ℤ) → count (host.close w fd).world ≤ count w
