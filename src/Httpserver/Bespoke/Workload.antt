-- ===== src/Httpserver/Bespoke/Workload.antt =====
-- examples/httpserver/httpserver_bespoke.c: a run in which the host has a bounded number of connections and
-- bytes to hand out, and what a step of the server may change.
use waeio.Prelude.{
  List, ℕ, zero, suc, ◌+◌, ◌<◌, ◌≤◌, ◌≡◌, refl, ap, Bool, ◌∙◌, arith, inl, inr, true, false, ℤ,
  is_neg, eq_ℤ, Option, some, length, length-set, u32_mod, Bool-cases, Outcome, done, ◌>>?◌,
  ℤ-cases,
}
use waeio.Wasio.{Pollfd, Host}
use waeio.Wasio.Table.Calls.{PollsInPlace}
use waeio.Httpserver.Bespoke.{Server, heard, buffer_size, accept_all}
use waeio.Httpserver.Bespoke.Accepting.{grown, accept_all-cons}
use waeio.Httpserver.Bespoke.Draining.{Drains, Calm}

-- `conns` counts the connections that the host has still to hand out, and `bytes` the bytes, in the
-- whole run: a call that gives one makes the count smaller, and no call makes it larger.
pub record Workload {W : Type 0} (host : Host W) (conns bytes : W → ℕ) : Type 0 where
  pub drains : Drains host bytes
  pub in_place : PollsInPlace host
  pub calm_conns : Calm host conns
  pub calm_bytes : Calm host bytes
  pub accepted :
      (w : W) (fd : ℤ)
      → is_neg (host.accept w fd).answer ≡ false
      → conns (host.accept w fd).world < conns w
  pub conns_by_accept : (w : W) (fd : ℤ) → conns (host.accept w fd).world ≤ conns w
  pub bytes_by_accept : (w : W) (fd : ℤ) → bytes (host.accept w fd).world ≤ bytes w
  pub conns_by_poll :
      (w : W) (fds : List Pollfd) (n : ℕ) (t : ℤ)
      → conns (host.poll w fds n t).reply.world ≤ conns w
  pub bytes_by_poll :
      (w : W) (fds : List Pollfd) (n : ℕ) (t : ℤ)
      → bytes (host.poll w fds n t).reply.world ≤ bytes w

module _ {W : Type 0} (host : Host W) (conns bytes : W → ℕ) where
  -- There is room for every connection to come, and `fuel` exceeds what is to come.
  pub record InBounds (fuel : ℕ) (s : Server W) : Type 0 where
    pub room : s.nfds + conns s.world ≤ length s.fds
    pub word : length s.fds < u32_mod
    pub enough_conns : conns s.world < fuel
    pub enough_bytes : bytes s.world < fuel
    pub reqbuf_size : length s.reqbuf ≡ buffer_size
    pub resbuf_size : length s.resbuf ≡ buffer_size

  pub record Keeps (s t : Server W) : Type 0 where
    pub size : length t.fds ≡ length s.fds
    pub load : t.nfds + conns t.world ≤ s.nfds + conns s.world
    pub fewer_conns : conns t.world ≤ conns s.world
    pub fewer_bytes : bytes t.world ≤ bytes s.world
    pub reqbuf_is : length t.reqbuf ≡ length s.reqbuf
    pub resbuf_is : length t.resbuf ≡ length s.resbuf

  pub Keeps-refl : (s : Server W) → Keeps s s
  Keeps-refl s = record {
    size = refl;
    load = omega arith;
    fewer_conns = omega arith;
    fewer_bytes = omega arith;
    reqbuf_is = refl;
    resbuf_is = refl;
  }

  pub Keeps-world :
      (s : Server W) (w : W) (errno : ℤ) (ended : Bool)
      → conns w ≤ conns s.world
      → bytes w ≤ bytes s.world
      → Keeps s (record s { world = w; host_errno = errno; end_server = ended })
  Keeps-world s w errno ended c b = record {
    size = refl;
    load = omega (arith, c);
    fewer_conns = c;
    fewer_bytes = b;
    reqbuf_is = refl;
    resbuf_is = refl;
  }

  pub Keeps-trans : {s t u : Server W} → Keeps s t → Keeps t u → Keeps s u
  Keeps-trans a b = record {
    size = b.size ∙ a.size;
    load = omega (arith, a.load, b.load);
    fewer_conns = omega (arith, a.fewer_conns, b.fewer_conns);
    fewer_bytes = omega (arith, a.fewer_bytes, b.fewer_bytes);
    reqbuf_is = b.reqbuf_is ∙ a.reqbuf_is;
    resbuf_is = b.resbuf_is ∙ a.resbuf_is;
  }

  pub InBounds-Keeps : {fuel : ℕ} {s t : Server W} → InBounds fuel s → Keeps s t → InBounds fuel t
  InBounds-Keeps b k = record {
    room = omega (arith, b.room, k.load, k.size);
    word = omega (arith, b.word, k.size);
    enough_conns = omega (arith, b.enough_conns, k.fewer_conns);
    enough_bytes = omega (arith, b.enough_bytes, k.fewer_bytes);
    reqbuf_size = k.reqbuf_is ∙ b.reqbuf_size;
    resbuf_size = k.resbuf_is ∙ b.resbuf_size;
  }

  -- The code ends before its fuel does.
  pub record Ends {A : Type 0} (server : A → Server W) (s : Server W) (o : Outcome (Option A))
      : Type 0 where
    pub result : A
    pub returns : o ≡ done (some result)
    pub keeps : Keeps s (server result)

  pub ends :
      {A : Type 0} (f : A → Server W) (s : Server W) (a : A)
      → Keeps s (f a)
      → Ends f s (done (some a))
  ends f s a k = record { result = a; returns = refl; keeps = k }

  pub then-Ends :
      {A B : Type 0} (f : A → Server W) (g : B → Server W) (s : Server W) (o : Outcome (Option A))
      (k : A → Outcome (Option B))
      → Ends f s o
      → ((a : A) → Keeps s (f a) → Ends g (f a) (k a))
      → Ends g s (o >>? k)
  then-Ends f g s o k x next =
      let y = next x.result x.keeps in
      record {
        result = y.result;
        returns = ap (λ m. m >>? k) x.returns ∙ y.returns;
        keeps = Keeps-trans x.keeps y.keeps;
      }

  -- The loop that accepts has room for all that it is given.
  pub accept_all-Ends :
      (pollin : ℕ) (listen_sd : ℤ) (fuel : ℕ) (s : Server W)
      → Workload host conns bytes
      → s.nfds + conns s.world ≤ length s.fds
      → length s.fds < u32_mod
      → conns s.world < fuel
      → Ends (λ t. t) s (accept_all host pollin listen_sd fuel s)
  unfolding accept_all
  accept_all-Ends pollin sd zero s law room word enough = absurd (omega (arith, enough))
  accept_all-Ends pollin sd (suc fuel) s law room word enough =
      elim (ℤ-cases (host.accept s.world sd).answer) [
        | inl (fd, e) ↦
            let fewer : conns (host.accept s.world sd).world < conns s.world =
              law.accepted s.world sd (rw e refl) in
            let size : length (grown host pollin sd s fd).fds ≡ length s.fds =
              length-set s.fds s.nfds _ in
            let ih =
              accept_all-Ends pollin sd fuel (grown host pollin sd s fd) law
                (omega (arith, room, fewer, size)) (omega (arith, word, size))
                (omega (arith, enough, fewer)) in
            let step =
              accept_all-cons host pollin sd s fuel fd e (omega (arith, room, fewer)) word in
            record {
              result = ih.result;
              returns = step ∙ ih.returns;
              keeps =
                  Keeps-trans
                    (record {
                      size = size;
                      load = omega (arith, fewer);
                      fewer_conns = omega (arith, fewer);
                      fewer_bytes = law.bytes_by_accept s.world sd;
                      reqbuf_is = refl;
                      resbuf_is = refl;
                    })
                    ih.keeps;
            }
        | inr (n, e) ↦
            let s' = heard s (host.accept s.world sd) in
            let kept = law.conns_by_accept s.world sd in
            let kept_bytes = law.bytes_by_accept s.world sd in
            elim (Bool-cases (eq_ℤ s'.host_errno host.ewouldblock)) [
              | inl again ↦ record {
                result = s';
                returns = rw (e, again) refl;
                keeps = Keeps-world s s'.world s'.host_errno s'.end_server kept kept_bytes;
              }
              | inr failed ↦ record {
                result = record s' { end_server = true };
                returns = rw (e, failed) refl;
                keeps = Keeps-world s s'.world s'.host_errno true kept kept_bytes;
              }
            ]
      ]
