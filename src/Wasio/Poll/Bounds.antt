-- ===== src/Wasio/Poll/Bounds.antt =====
-- src/wasio/host_poll.c: the array of poll entries is written inside its bounds, and never shrinks.
use waeio.Prelude.{
  ℕ, ◌+◌, ◌<◌, ◌≤◌, ◌≡◌, refl, ◌∙◌, arith, Bool, true, false, ℤ, pos, negsuc, length, set, ltb, leb,
  add32, u32_mod, length-set, length-replicate, Outcome, done, aborted, write_in_range, ltb→lt,
  ltb_false→le, assert, ◌>>◌,
}
use waeio.Wasio.{WasioResult, ok, Pollfd, Reply, Host, translate_error}
use waeio.Wasio.Poll.{
  Wfd, State, static_initializer, push_entry, after, add_descriptor, wasio_listen, wasio_accept,
}

-- The entries in use lie in the block, which has room for `capacity` of them.
pub record IsWfd (wfd : Wfd) : Type 0 where
  pub within : wfd.length ≤ wfd.capacity
  pub room : length wfd.fds ≡ wfd.capacity
  pub word : wfd.capacity < u32_mod

pub static_initializer-IsWfd : (n : ℕ) → n < u32_mod → IsWfd (static_initializer n)
unfolding static_initializer
static_initializer-IsWfd n h = record {
  within = omega arith;
  room = length-replicate n _;
  word = h;
}

-- The entry that `push_entry` writes, and the structure after it.
abbrev pub appended : Wfd → Pollfd → Wfd
appended wfd entry = record wfd { length = wfd.length + 1; fds = set wfd.fds wfd.length entry }

push_entry_lem :
    (wfd : Wfd) (entry : Pollfd)
    → IsWfd wfd
    → wfd.length < wfd.capacity
    → push_entry wfd entry ≡ done (appended wfd entry)
unfolding push_entry
push_entry_lem wfd entry v h =
    let next : add32 wfd.length 1 ≡ wfd.length + 1 = omega (arith, v.word) in
    rw (write_in_range wfd.fds wfd.length entry (omega (arith, v.room)), next)

appended-IsWfd :
    (wfd : Wfd) (entry : Pollfd)
    → IsWfd wfd
    → wfd.length < wfd.capacity
    → IsWfd (appended wfd entry)
appended-IsWfd wfd entry v h = record {
  within = omega arith;
  room = length-set wfd.fds wfd.length entry ∙ v.room;
  word = v.word;
}

module _ {W : Type 0} (host : Host W) (pollin : ℕ) where
  -- A call that registers the descriptor `fd`: it becomes the last entry, waiting for input.
  pub record Registered (s : State W) (fd : ℕ) (result : Outcome (WasioResult × ℤ × State W))
      : Type 0 where
    pub rest : State W
    pub returns : result ≡ done (ok, pos fd, rest)
    pub wfd_is : rest.wfd ≡ appended s.wfd (record { fd = pos fd; events = pollin; revents = 0 })
    pub invariant : IsWfd rest.wfd

  add_descriptor-neg :
      (s : State W) (n : ℕ) (out : ℤ)
      → add_descriptor host pollin s (negsuc n) out
        ≡ done (translate_error host s.host_errno, out, s)
  unfolding add_descriptor
  add_descriptor-neg s n out = refl

  add_descriptor-pos :
      (s : State W) (fd : ℕ) (out : ℤ)
      → IsWfd s.wfd
      → s.wfd.length < s.wfd.capacity
      → Registered s fd (add_descriptor host pollin s (pos fd) out)
  add_descriptor-pos s fd out v h = record {
    rest = record s { wfd = appended s.wfd entry };
    returns = returned;
    wfd_is = refl;
    invariant = appended-IsWfd s.wfd entry v h;
  }
    where
      entry : Pollfd
      entry = record { fd = pos fd; events = pollin; revents = 0 }

      returned :
          add_descriptor host pollin s (pos fd) out
          ≡ done (ok, pos fd, record s { wfd = appended s.wfd entry })
      returned =
          let still : leb (s.wfd.length + 1) s.wfd.capacity ≡ true = ground arith in
          unfold add_descriptor in rw (push_entry_lem s.wfd entry v h, still)

  -- The outcomes of a call that asks the host for a descriptor, where `r` is the host's reply and
  -- `out` is what the caller's variable holds.
  pub data Added (s : State W) (r : Reply W) (out : ℤ)
      (result : Outcome (WasioResult × ℤ × State W)) : Type 0 where
    no_room : s.wfd.length ≡ s.wfd.capacity → result ≡ aborted → Added s r out result
    refused :
        s.wfd.length < s.wfd.capacity
        → (n : ℕ) → r.answer ≡ negsuc n
        → result
          ≡ done
              (translate_error host (after host pollin s r).host_errno, out, after host pollin s r)
        → Added s r out result
    registered :
        s.wfd.length < s.wfd.capacity
        → (fd : ℕ) → r.answer ≡ pos fd
        → Registered (after host pollin s r) fd result
        → Added s r out result

  add_cases :
      (s : State W) (r : Reply W) (answer out : ℤ)
      → r.answer ≡ answer
      → IsWfd s.wfd
      → (room : Bool) → ltb s.wfd.length s.wfd.capacity ≡ room
      → Added s r out (assert room >> add_descriptor host pollin (after host pollin s r) answer out)
  add_cases s r answer out e v false full =
      no_room (omega (arith, v.within, ltb_false→le _ _ full)) refl
  add_cases s r (negsuc n) out e v true free =
      refused (ltb→lt _ _ free) n e (add_descriptor-neg (after host pollin s r) n out)
  add_cases s r (pos fd) out e v true free =
      let h : s.wfd.length < s.wfd.capacity = ltb→lt _ _ free in
      registered h fd e (add_descriptor-pos (after host pollin s r) fd out v h)

  -- On a structure that satisfies the invariant `wasio_accept` aborts when every entry is in use;
  -- otherwise it asks the host, and passes its error on with no entry changed, or writes the new
  -- descriptor behind the last entry, inside the block, and returns it.
  pub wasio_accept-Added :
      (s : State W) (vfd new_conn : ℤ)
      → IsWfd s.wfd
      → Added s (host.accept s.world vfd) new_conn (wasio_accept host pollin s vfd new_conn)
  unfolding wasio_accept
  wasio_accept-Added s vfd new_conn v =
      add_cases s (host.accept s.world vfd) _ new_conn refl v _ refl

  -- The same of `wasio_listen`.
  pub wasio_listen-Added :
      (s : State W) (vfd port backlog : ℤ)
      → IsWfd s.wfd
      → Added s (host.listen s.world port backlog) vfd (wasio_listen host pollin s vfd port backlog)
  unfolding wasio_listen
  wasio_listen-Added s vfd port backlog v =
      add_cases s (host.listen s.world port backlog) _ vfd refl v _ refl
