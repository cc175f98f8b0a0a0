-- ===== src/Wasio/Poll/Runs.antt =====
-- src/wasio/host_poll.c: sequences of calls.
use waeio.Prelude.{
  ℕ, ◌≤◌, ◌≡◌, refl, ◌∙◌, inl, inr, arith, subst, ℤ, is_neg, List, [], ◌∷◌, length, Outcome, done,
  aborted, fault, ◌>>=◌, Bool-cases,
}
use waeio.Wasio.{WasioResult, Pollfd, Host}
use waeio.Wasio.Poll.{
  State, wasio_listen, wasio_accept, wasio_poll, wasio_recv, wasio_send, wasio_close, after,
}
use waeio.Wasio.Poll.Bounds.{
  IsWfd, Added, no_room, refused, registered, wasio_accept-Added, wasio_listen-Added,
}

-- A call, with its arguments and what the caller's result variable holds before it.
pub data Call : Type 0 where
  listens : ℤ → ℤ → ℤ → Call
  accepts : ℤ → ℤ → Call
  polls : ℕ → ℤ → Call
  recvs : ℤ → ℕ → ℕ → Call
  sends : ℤ → List ℕ → ℕ → ℕ → Call
  closes : ℤ → Call

module _ {W : Type 0} (host : Host W) (pollin : ℕ) where
  state_of : Outcome (WasioResult × ℤ × State W) → Outcome (State W)
  state_of (done (code, out, s)) = done s
  state_of aborted = aborted
  state_of fault = fault

  unfoldable pub step : State W → Call → Outcome (State W)
  unfolding state_of
  step s (listens vfd port backlog) = state_of (wasio_listen host pollin s vfd port backlog)
  step s (accepts vfd new_conn) = state_of (wasio_accept host pollin s vfd new_conn)
  step s (polls nready timeout) = done ((wasio_poll host pollin s nready timeout).2)
  step s (recvs vfd len recvlen) = done ((wasio_recv host pollin s vfd len recvlen).3)
  step s (sends vfd buf len sendlen) = done ((wasio_send host pollin s vfd buf len sendlen).2)
  step s (closes vfd) = done ((wasio_close host pollin s vfd).1)

  unfoldable pub run : State W → List Call → Outcome (State W)
  run s [] = done s
  run s (c ∷ cs) = step s c >>= λ s'. run s' cs

  -- What poll(2) documents: it changes no descriptor and adds no entry.
  pub record IsPollHost : Type 0 where
    pub same_length :
        (w : W) (fds : List Pollfd) (n : ℕ) (timeout : ℤ)
        → length (host.poll w fds n timeout).fds ≡ length fds

  -- An outcome that is no undefined access: the invariant, with at least `n` entries in use and
  -- the capacity unchanged; or an abort.
  pub data Sound (n cap : ℕ) : Outcome (State W) → Type 0 where
    stops : Sound n cap aborted
    goes :
        (s : State W) → IsWfd s.wfd → n ≤ s.wfd.length → s.wfd.capacity ≡ cap → Sound n cap (done s)

  Added-Sound :
      (s : State W) {r : _} {out : ℤ} {result : Outcome (WasioResult × ℤ × State W)}
      → IsWfd s.wfd
      → Added host pollin s r out result
      → Sound s.wfd.length s.wfd.capacity (state_of result)
  unfolding state_of
  Added-Sound s v (no_room full e) = rw (e, state_of) stops
  Added-Sound s {r} v (refused h n q e) =
      rw (e, state_of) (goes (after host pollin s r) v (omega arith) refl)
  Added-Sound s v (registered h fd q x) =
      rw (x.returns, state_of) (goes x.rest x.invariant (rw x.wfd_is (omega arith)) (rw x.wfd_is))

  -- Of the calls that only pass bytes or close, none touches the entries.
  wfd-wasio_recv :
      (s : State W) (vfd : ℤ) (len recvlen : ℕ)
      → (wasio_recv host pollin s vfd len recvlen).3.wfd ≡ s.wfd
  unfolding wasio_recv
  wfd-wasio_recv s vfd len recvlen = ground arith

  wfd-wasio_send :
      (s : State W) (vfd : ℤ) (buf : List ℕ) (len sendlen : ℕ)
      → (wasio_send host pollin s vfd buf len sendlen).2.wfd ≡ s.wfd
  unfolding wasio_send
  wfd-wasio_send s vfd buf len sendlen = ground arith

  pub wfd-wasio_close : (s : State W) (vfd : ℤ) → (wasio_close host pollin s vfd).1.wfd ≡ s.wfd
  unfolding wasio_close
  wfd-wasio_close s vfd = ground arith

  pub wfd-wasio_poll :
      (s : State W) (nready : ℕ) (timeout : ℤ)
      → (wasio_poll host pollin s nready timeout).2.wfd
        ≡ record (s.wfd) { fds = (host.poll s.world s.wfd.fds s.wfd.length timeout).fds }
  unfolding wasio_poll
  wfd-wasio_poll s nready timeout =
      elim (Bool-cases (is_neg (host.poll s.world s.wfd.fds s.wfd.length timeout).reply.answer)) [
        | inl e ↦ rw e
        | inr e ↦ rw e
      ]

  same-Sound :
      (s t : State W) → IsWfd s.wfd → t.wfd ≡ s.wfd → Sound s.wfd.length s.wfd.capacity (done t)
  same-Sound s t v e = goes t (rw e v) (rw e (omega arith)) (rw e)

  step-Sound :
      (s : State W) (c : Call)
      → IsPollHost
      → IsWfd s.wfd
      → Sound s.wfd.length s.wfd.capacity (step s c)
  unfolding step
  step-Sound s (listens vfd port backlog) p v =
      Added-Sound s v (wasio_listen-Added host pollin s vfd port backlog v)
  step-Sound s (accepts vfd new_conn) p v =
      Added-Sound s v (wasio_accept-Added host pollin s vfd new_conn v)
  step-Sound s (polls nready timeout) p v =
      let e = wfd-wasio_poll s nready timeout in
      goes _
        (rw e (record {
          within = v.within;
          room = p.same_length s.world s.wfd.fds s.wfd.length timeout ∙ v.room;
          word = v.word;
        }))
        (rw e (omega arith)) (rw e)
  step-Sound s (recvs vfd len recvlen) p v = same-Sound s _ v (wfd-wasio_recv s vfd len recvlen)
  step-Sound s (sends vfd buf len sendlen) p v =
      same-Sound s _ v (wfd-wasio_send s vfd buf len sendlen)
  step-Sound s (closes vfd) p v = same-Sound s _ v (wfd-wasio_close s vfd)

  Sound-mono : {n m cap : ℕ} {o : Outcome (State W)} → n ≤ m → Sound m cap o → Sound n cap o
  Sound-mono h stops = stops
  Sound-mono h (goes s v k e) = goes s v (omega arith) e

  then-Sound :
      {n cap : ℕ} {o : Outcome (State W)} (k : State W → Outcome (State W))
      → Sound n cap o
      → ((s : State W) → IsWfd s.wfd → Sound s.wfd.length s.wfd.capacity (k s))
      → Sound n cap (o >>= k)
  then-Sound k stops rest = stops
  then-Sound k (goes s v le e) rest =
      Sound-mono le (subst (λ x. Sound s.wfd.length x (k s)) e (rest s v))

  -- With a host that polls in place, any sequence of calls on a structure that satisfies the
  -- invariant makes no access outside the block. It ends with an abort, or with the invariant, the
  -- same capacity, and no fewer entries in use than before: closing a descriptor gives no entry
  -- back.
  pub run-Sound :
      (s : State W) (cs : List Call)
      → IsPollHost
      → IsWfd s.wfd
      → Sound s.wfd.length s.wfd.capacity (run s cs)
  unfolding run
  run-Sound s [] p v = goes s v (omega arith) refl
  run-Sound s (c ∷ cs) p v =
      then-Sound (λ s'. run s' cs) (step-Sound s c p v) (λ s' v'. run-Sound s' cs p v')

  -- With a host that polls in place: once every entry is in use, on a structure that satisfies the
  -- invariant, `wasio_accept` aborts after any further calls that end normally, also when these
  -- close every descriptor.
  pub wasio_accept_full :
      (s s' : State W) (cs : List Call) (vfd new_conn : ℤ)
      → IsPollHost
      → IsWfd s.wfd
      → s.wfd.length ≡ s.wfd.capacity
      → run s cs ≡ done s'
      → wasio_accept host pollin s' vfd new_conn ≡ aborted
  wasio_accept_full s s' cs vfd new_conn p v full e = go (rw e at (run-Sound s cs p v))
    where
      stuck :
          {n cap : ℕ} {o : Outcome (State W)}
          → n ≡ cap
          → Sound n cap o
          → o ≡ done s'
          → (s'.wfd.capacity ≤ s'.wfd.length) × IsWfd s'.wfd
      stuck q stops d = cc
      stuck q (goes t w le c) d = let t_is : t ≡ s' = cc in rw (← t_is) (omega arith, w)

      go :
          Sound s.wfd.length s.wfd.capacity (done s')
          → wasio_accept host pollin s' vfd new_conn ≡ aborted
      go so =
          let at_end = stuck full so refl in
          elim (wasio_accept-Added host pollin s' vfd new_conn at_end.1) [
            | no_room q r ↦ r
            | refused h _ _ _ ↦ absurd (omega (arith, h, at_end.0))
            | registered h _ _ _ ↦ absurd (omega (arith, h, at_end.0))
          ]
