-- ===== src/Wasio/Table/Calls.antt =====
-- src/wasio_host.c: sequences of calls on a table, and how a run of them can end.
use waeio.Prelude.{
  ℕ, ◌<◌, ◌≡◌, ℤ, pos, List, [], ◌∷◌, length, get_or, Outcome, done, aborted, fault, ◌>>=◌,
}
use waeio.Wasio.{WasioResult, Pollfd, Host}
use waeio.Wasio.Table.{
  State, unused, wasio_listen, wasio_accept, wasio_poll, wasio_recv, wasio_send, wasio_close,
  wasio_notify_recv, wasio_notify_send,
}
use waeio.Wasio.Table.Invariant.{IsTable}

-- A call; a virtual descriptor is an index, and result variables hold what they hold.
pub data Call : Type 0 where
  listens : ℤ → ℤ → ℤ → Call
  accepts : ℕ → ℤ → Call
  polls : ℕ → ℤ → Call
  recvs : ℕ → ℕ → ℕ → Call
  sends : ℕ → List ℕ → ℕ → ℕ → Call
  closes : ℕ → Call
  notifies_recv notifies_send : ℕ → Call

-- The descriptor that a call names is one of the table's.
abbrev pub Names : ℕ → Call → Type 0
Names capacity (listens vfd port backlog) = Unit {0}
Names capacity (accepts e new_conn) = e < capacity
Names capacity (polls evlen timeout) = Unit {0}
Names capacity (recvs e len recvlen) = e < capacity
Names capacity (sends e buf len sendlen) = e < capacity
Names capacity (closes e) = e < capacity
Names capacity (notifies_recv e) = e < capacity
Names capacity (notifies_send e) = e < capacity

-- What poll(2) documents: it adds no entry and changes no descriptor.
pub record PollsInPlace {W : Type 0} (host : Host W) : Type 0 where
  pub same_length :
      (w : W) (fds : List Pollfd) (n : ℕ) (timeout : ℤ)
      → length (host.poll w fds n timeout).fds ≡ length fds
  pub same_fd :
      (w : W) (fds : List Pollfd) (n : ℕ) (timeout : ℤ) (e : ℕ)
      → (get_or (host.poll w fds n timeout).fds e unused).fd ≡ (get_or fds e unused).fd

module _ {W : Type 0} where
  -- The state in the last place of a result.
  abbrev pub with_out : {A : Type 0} → Outcome (WasioResult × A × State W) → Outcome (State W)
  with_out (done (code, out, s)) = done s
  with_out aborted = aborted
  with_out fault = fault

  abbrev pub with_code : Outcome (WasioResult × State W) → Outcome (State W)
  with_code (done (code, s)) = done s
  with_code aborted = aborted
  with_code fault = fault

  abbrev pub with_bytes : Outcome (WasioResult × ℕ × List ℕ × State W) → Outcome (State W)
  with_bytes (done (code, out, bytes, s)) = done s
  with_bytes aborted = aborted
  with_bytes fault = fault

module _ {W : Type 0} (host : Host W) where
  unfoldable pub step : State W → Call → Outcome (State W)
  step s (listens vfd port backlog) = with_out (wasio_listen host s vfd port backlog)
  step s (accepts e new_conn) = with_out (wasio_accept host s (pos e) new_conn)
  step s (polls evlen timeout) = done ((wasio_poll host s evlen timeout).2)
  step s (recvs e len recvlen) = with_bytes (wasio_recv host s (pos e) len recvlen)
  step s (sends e buf len sendlen) = with_out (wasio_send host s (pos e) buf len sendlen)
  step s (closes e) = with_code (wasio_close host s (pos e))
  step s (notifies_recv e) = with_code (wasio_notify_recv s (pos e))
  step s (notifies_send e) = with_code (wasio_notify_send s (pos e))

  unfoldable pub run : State W → List Call → Outcome (State W)
  run s [] = done s
  run s (c ∷ cs) = step s c >>= λ s'. run s' cs

  -- A normal return with a table of the same capacity.
  pub record Returns (cap : ℕ) (o : Outcome (State W)) : Type 0 where
    pub state : State W
    pub returns : o ≡ done state
    pub table : IsTable state.wfd
    pub capacity_is : state.wfd.capacity ≡ cap
