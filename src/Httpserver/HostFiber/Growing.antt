-- ===== src/Httpserver/HostFiber/Growing.antt =====
-- examples/httpserver/httpserver_fiber.c: a connection more, and what the fiber that listens has done.
use waeio.Prelude.{
  ℕ, zero, suc, ◌+◌, ◌<◌, ◌≡◌, ◌≢◌, refl, ap, ◌∙◌, arith, true, ℤ, pos, is_neg, List, [], ◌∷◌,
  Option, some, length, get_or, set, length-set, get_or-set_self, get_or-set_ne, add32, u32_mod,
  Outcome, done, read_in_range, write_in_range,
}
use waeio.Wasio.{Pollfd, Host}
use waeio.Httpserver.WasioFiber.{FiberClosure}
use waeio.Httpserver.WasioFiber.Coroutines.{Stop, yields, returns}
use waeio.Httpserver.HostFiber.{Server, Platform, heard}
use waeio.Httpserver.HostFiber.Coroutines.{ListenerWait, for_room, for_connection, add_connection}
use waeio.Httpserver.HostFiber.Bounds.{none_here, no_fiber, Fits}

module _ {W M : Type 0} (host : Host W) (env : Platform W M) where
  -- Asked for connections on `fd`, the host hands out `new`, one after the other.
  unfoldable pub Handed : ℤ → W → List ℕ → W → Type 0
  Handed fd w [] w' = w' ≡ w
  Handed fd w (conn ∷ new) w' =
      ((host.accept w fd).answer ≡ pos conn) × Handed fd (host.accept w fd).world new w'

  -- The memory of the fibers after `n` of them have been made.
  unfoldable pub memory_after : ℕ → M → M
  memory_after zero m = m
  memory_after (suc n) m = memory_after n (env.fiber_alloc m).1

  -- Why the listener stopped, when the host has handed out what it has and is in the state `asked`.
  abbrev pub Why : ℤ → W → Server W M → Stop ListenerWait → Server W M → Type 0
  Why fd asked s (yields for_room) after =
      (after.nfds ≡ env.max_connections) × (after.world ≡ asked) × (after.end_server ≡ s.end_server)
  Why fd asked s (yields (for_connection answer)) after =
      (is_neg answer ≡ true)
      × (answer ≡ (host.accept asked fd).answer)
      × (after.world ≡ (host.accept asked fd).world)
      × (after.host_errno ≡ host.eagain)
      × (after.end_server ≡ s.end_server)
  Why fd asked s returns after =
      (is_neg (host.accept asked fd).answer ≡ true)
      × (after.world ≡ (host.accept asked fd).world)
      × (after.host_errno ≢ host.eagain)
      × (after.end_server ≡ true)

  -- The connections `new` stand behind the entries in use, each with its fiber at the same index.
  pub record Listened (fd : ℤ) (s : Server W M)
      (o : Outcome (Option (Stop ListenerWait × Server W M))) : Type 0 where
    pub stop : Stop ListenerWait
    pub after : Server W M
    pub new : List ℕ
    pub asked : W
    pub handed : Handed fd s.world new asked
    pub is_returned : o ≡ done (some (stop, after))
    pub fits : Fits host env after
    pub nfds_is : after.nfds ≡ s.nfds + length new
    pub before_fds : (j : ℕ) → j < s.nfds → get_or after.fds j none_here ≡ get_or s.fds j none_here
    pub before_fibers :
        (j : ℕ) → j < s.nfds → get_or after.fibers j no_fiber ≡ get_or s.fibers j no_fiber
    pub added :
        (k : ℕ)
        → k < length new
        → ((get_or after.fds (s.nfds + k) none_here).fd ≡ pos (get_or new k 0))
          × ((get_or after.fds (s.nfds + k) none_here).events ≡ env.pollin)
          × (get_or after.fibers (s.nfds + k) no_fiber ≡ record {
            fiber = (env.fiber_alloc (memory_after k s.memory)).0;
            fd = pos (get_or new k 0);
          })
    pub memory_is : after.memory ≡ memory_after (length new) s.memory
    pub why : Why fd asked s stop after

  -- The state with one more connection.
  abbrev pub grown : ℤ → Server W M → ℕ → Server W M
  grown fd s conn =
      let child = env.fiber_alloc s.memory in
      record (heard s (host.accept s.world fd)) {
        fds =
            set s.fds s.nfds
              (record (get_or s.fds s.nfds none_here) { fd = pos conn; events = env.pollin });
        fibers = set s.fibers s.nfds (record { fiber = child.0; fd = pos conn });
        memory = child.1;
        nfds = s.nfds + 1;
      }

  pub grown-Fits :
      (fd : ℤ) (s : Server W M) (conn : ℕ)
      → Fits host env s
      → s.nfds < env.max_connections
      → Fits host env (grown fd s conn)
  grown-Fits fd s conn f room = record {
    fds_room = length-set s.fds s.nfds _ ∙ f.fds_room;
    fibers_room = length-set s.fibers s.nfds _ ∙ f.fibers_room;
    within = omega (arith, room);
  }

  pub add_connection_lem :
      (fd : ℤ) (s : Server W M) (conn : ℕ)
      → Fits host env s
      → s.nfds < env.max_connections
      → env.max_connections < u32_mod
      → add_connection host env (pos conn) (heard s (host.accept s.world fd))
        ≡ done (grown fd s conn)
  unfolding add_connection
  add_connection_lem fd s conn f room word =
      let next : add32 s.nfds 1 ≡ s.nfds + 1 = omega (arith, room, word) in
      let inside : s.nfds < length s.fds = omega (arith, room, f.fds_room) in
      let inside' : s.nfds < length s.fibers = omega (arith, room, f.fibers_room) in
      rw
        (
          read_in_range s.fds s.nfds none_here inside,
          write_in_range s.fds s.nfds _ inside,
          write_in_range s.fibers s.nfds _ inside',
          next,
        )
        refl

  -- The state and the connections after one more.
  pub cons-Listened :
      (fd : ℤ) (s : Server W M) (conn : ℕ) {o : Outcome (Option (Stop ListenerWait × Server W M))}
      → Fits host env s
      → s.nfds < env.max_connections
      → (host.accept s.world fd).answer ≡ pos conn
      → Listened fd (grown fd s conn) o
      → Listened fd s o
  unfolding Handed memory_after
  cons-Listened fd s conn f room e x = record {
    stop = x.stop;
    after = x.after;
    new = conn ∷ x.new;
    asked = x.asked;
    handed = (e, x.handed);
    is_returned = x.is_returned;
    fits = x.fits;
    nfds_is = omega (arith, x.nfds_is);
    before_fds = λ j lt.
        x.before_fds j (omega (arith, lt))
        ∙ get_or-set_ne s.fds s.nfds j _ none_here (omega (arith, lt));
    before_fibers = λ j lt.
        x.before_fibers j (omega (arith, lt))
        ∙ get_or-set_ne s.fibers s.nfds j _ no_fiber (omega (arith, lt));
    added = added_at;
    memory_is = x.memory_is;
    why = same_why x.stop x.after x.why;
  }
    where
      here_fd :
          get_or x.after.fds s.nfds none_here
          ≡ record (get_or s.fds s.nfds none_here) { fd = pos conn; events = env.pollin }
      here_fd =
          x.before_fds s.nfds (omega arith)
          ∙ get_or-set_self s.fds s.nfds _ none_here (omega (arith, room, f.fds_room))

      here_fiber :
          get_or x.after.fibers s.nfds no_fiber
          ≡ record { fiber = (env.fiber_alloc s.memory).0; fd = pos conn }
      here_fiber =
          x.before_fibers s.nfds (omega arith)
          ∙ get_or-set_self s.fibers s.nfds _ no_fiber (omega (arith, room, f.fibers_room))

      added_at :
          (k : ℕ)
          → k < length (conn ∷ x.new)
          → ((get_or x.after.fds (s.nfds + k) none_here).fd ≡ pos (get_or (conn ∷ x.new) k 0))
            × ((get_or x.after.fds (s.nfds + k) none_here).events ≡ env.pollin)
            × (get_or x.after.fibers (s.nfds + k) no_fiber ≡ record {
              fiber = (env.fiber_alloc (memory_after k s.memory)).0;
              fd = pos (get_or (conn ∷ x.new) k 0);
            })
      added_at zero lt =
          let q : s.nfds + 0 ≡ s.nfds = omega arith in
          rw q
            (ap (λ (p : Pollfd). p.fd) here_fd, ap (λ (p : Pollfd). p.events) here_fd, here_fiber)
      added_at (suc k) lt =
          let q : s.nfds + suc k ≡ s.nfds + 1 + k = omega arith in
          rw q (x.added k (omega (arith, lt)))

      same_why :
          (stop : Stop ListenerWait) (after : Server W M)
          → Why fd x.asked (grown fd s conn) stop after
          → Why fd x.asked s stop after
      same_why (yields for_room) after w = w
      same_why (yields (for_connection a)) after w = w
      same_why returns after w = w

  -- No connection was added.
  pub stopped :
      (fd : ℤ) (s after : Server W M) (stop : Stop ListenerWait)
      {o : Outcome (Option (Stop ListenerWait × Server W M))}
      → o ≡ done (some (stop, after))
      → Fits host env s
      → after.fds ≡ s.fds
      → after.fibers ≡ s.fibers
      → after.nfds ≡ s.nfds
      → after.memory ≡ s.memory
      → Why fd s.world s stop after
      → Listened fd s o
  unfolding Handed memory_after
  stopped fd s after stop q f fds fibers nfds memory why = record {
    stop = stop;
    after = after;
    new = [];
    asked = s.world;
    handed = refl;
    is_returned = q;
    fits = record {
      fds_room = ap length fds ∙ f.fds_room;
      fibers_room = ap length fibers ∙ f.fibers_room;
      within = omega (arith, nfds, f.within);
    };
    nfds_is = omega (arith, nfds);
    before_fds = λ j lt. ap (λ (l : List Pollfd). get_or l j none_here) fds;
    before_fibers = λ j lt. ap (λ (l : List FiberClosure). get_or l j no_fiber) fibers;
    added = λ k lt. absurd (omega (arith, lt));
    memory_is = memory;
    why = why;
  }
