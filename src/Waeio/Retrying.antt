-- ===== src/Waeio/Retrying.antt =====
-- src/waeio.c: `waeio_recv`, resumed until it returns.
use waeio.Prelude.{
  ℕ, zero, suc, ◌≡◌, ◌<◌, refl, arith, true, false, ℤ, pos, negsuc, minus_one, eq_ℤ, List, [], ◌∷◌,
  length, All, Option, some, none, get_or, Outcome, done, ◌>>=◌, read_in_range, ==_iff,
}
use waeio.Wasio.{WasioResult, eagain, Host, translate_error}
use waeio.Wasio.Table.{State, after, wasio_recv}
use waeio.Wasio.Table.Invariant.{IsTable}
use waeio.Waeio.Api.{fiber_kill_signal, View, Progress, yields, returns, recv_result, waeio_recv}

module _ {W : Type 0} (host : Host W) (vfd unset : ℤ) (len : ℕ) where
  -- `waeio_recv` from its first yield, resumed with each of the answers in turn for as long as it
  -- yields: its return value, if it has returned, and what it leaves.
  unfoldable pub recv_run : List ℤ → View W → Outcome (Option ℤ × View W)
  recv_run [] v = done (none, v)
  recv_run (ans ∷ answers) v = do
    r ← waeio_recv host vfd unset len ans v
    let rest = recv_run answers r.2
    go r.0 r.2 rest
    where
      go :
          Progress (Unit {0}) ℤ → View W → Outcome (Option ℤ × View W) → Outcome (Option ℤ × View W)
      go (yields cmd wait) v' rest = rest
      go (returns n) v' rest = done (some n, v')

module _ {W : Type 0} (host : Host W) (len : ℕ) where
  -- The host would block for the first `n` calls of `recv` on `fd`, and then receives `k` bytes;
  -- the last state is `w'`.
  pub data Receives (fd : ℤ) (k : ℕ) (w' : W) : ℕ → W → Type 0 where
    ready :
        (w : W)
        → (host.recv w fd len).reply.answer ≡ pos k
        → (host.recv w fd len).reply.world ≡ w'
        → Receives fd k w' zero w
    would_block :
        (w : W) (n m : ℕ)
        → (host.recv w fd len).reply.answer ≡ negsuc m
        → (host.recv w fd len).reply.errno ≡ some host.eagain
        → Receives fd k w' n (host.recv w fd len).reply.world
        → Receives fd k w' (suc n) w

unfoldable pub NotKilled : ℤ → Type 0
NotKilled ans = eq_ℤ ans fiber_kill_signal ≡ false

module _ {W : Type 0} (host : Host W) (e : ℕ) (unset : ℤ) (len : ℕ) where
  eagain_is : translate_error host host.eagain ≡ eagain
  unfolding translate_error
  eagain_is = rw (self host.eagain)
    where
      self : (a : ℤ) → eq_ℤ a a ≡ true
      self (pos n) = (==_iff n n).1 refl
      self (negsuc n) = (==_iff n n).1 refl

  wasio_recv-eq :
      (s : State W)
      → IsTable s.wfd
      → e < s.wfd.capacity
      → let r = host.recv s.world (get_or s.wfd.fds e minus_one) len in
        ((k : ℕ)
          → r.reply.answer ≡ pos k
          → wasio_recv host s (pos e) len 0
            ≡ done (WasioResult.ok, k, r.bytes, after host s r.reply))
        × ((m : ℕ)
            → r.reply.answer ≡ negsuc m
            → r.reply.errno ≡ some host.eagain
            → wasio_recv host s (pos e) len 0 ≡ done (eagain, 0, r.bytes, after host s r.reply))
  unfolding wasio_recv
  wasio_recv-eq s t below =
      let inside = read_in_range s.wfd.fds e minus_one (omega (arith, below, t.fds_room)) in
      (λ k q. rw (inside, q), λ m q x. rw (inside, q, x, eagain_is))

  -- For a descriptor of a table that satisfies the invariant: if the host refuses `n` times with its
  -- EAGAIN and then receives `k` bytes, `waeio_recv`, resumed with any `n + 1` answers of which none
  -- is the kill signal, returns `k`. The table stays as it was, and the host is in the state after
  -- the last call.
  pub recv_run_returns :
      (v : View W) (n k : ℕ) (w' : W) (answers : List ℤ)
      → IsTable v.wasio.wfd
      → e < v.wasio.wfd.capacity
      → All NotKilled answers
      → length answers ≡ suc n
      → Receives host len (get_or v.wasio.wfd.fds e minus_one) k w' n v.wasio.world
      → (v' : View W) × (recv_run host (pos e) unset len answers v ≡ done (some (pos k), v'))
        × (v'.wasio.wfd ≡ v.wasio.wfd)
        × (v'.wasio.world ≡ w')
  unfolding recv_run waeio_recv recv_result NotKilled
  recv_run_returns v n k w' [] t below names size r = absurd (omega (arith, size))
  recv_run_returns v _ k w' (ans ∷ answers) t below names size (ready w q last) =
      let fd = get_or v.wasio.wfd.fds e minus_one in
      (
        record v { wasio = after host v.wasio (host.recv v.wasio.world fd len).reply },
        rw (names.0, (wasio_recv-eq v.wasio t below).0 k q),
        refl,
        last,
      )
  recv_run_returns v _ k w' (ans ∷ answers) t below names size (would_block w n m q x rest) =
      let fd = get_or v.wasio.wfd.fds e minus_one in
      let v1 : View W = record v {
        wasio = after host v.wasio (host.recv v.wasio.world fd len).reply;
      } in
      let ih = recv_run_returns v1 n k w' answers t below names.1 (omega (arith, size)) rest in
      (ih.0, rw (names.0, (wasio_recv-eq v.wasio t below).1 m q x) ih.1, ih.2, ih.3)
