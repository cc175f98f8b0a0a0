-- ===== src/Httpserver/Bespoke/Accepting.antt =====
-- examples/httpserver/httpserver_bespoke.c: the loop that accepts all waiting connections.
use waeio.Prelude.{
  ℕ, zero, suc, ◌+◌, ◌<◌, ◌≤◌, ◌≡◌, ◌⊎◌, refl, sym, ap, ◌∙◌, arith, inl, inr, true, ℤ, pos,
  minus_one, is_neg, eq_ℤ, List, [], ◌∷◌, Option, some, length, get_or, set, length-set,
  get_or-set_self, get_or-set_ne, add32, u32_mod, Bool-cases, Outcome, done, fault, read_in_range,
  read_beyond, subst, write_in_range, if◌then◌else◌, ltb, ltb→lt, ltb_false→le,
}
use waeio.Wasio.{Pollfd, Host}
use waeio.Httpserver.Bespoke.{Server, heard, add_connection, accept_all}

abbrev pub none_here : Pollfd
none_here = record { fd = minus_one; events = 0; revents = 0 }

-- The host hands out the descriptors of the list, one at each call, and then refuses.
abbrev pub Waiting : {W : Type 0} → Host W → ℤ → W → List ℕ → Type 0
Waiting host listen_sd w [] = is_neg (host.accept w listen_sd).answer ≡ true
Waiting host listen_sd w (fd ∷ fds) =
    ((host.accept w listen_sd).answer ≡ pos fd)
    × Waiting host listen_sd (host.accept w listen_sd).world fds

module _ {W : Type 0} (host : Host W) (pollin : ℕ) (listen_sd : ℤ) where
  -- The connections `new` stand behind the entries that were in use, each polled for input.
  pub record Accepted (s : Server W) (new : List ℕ) (result : Outcome (Option (Server W)))
      : Type 0 where
    pub after : Server W
    pub returns : result ≡ done (some after)
    pub nfds_is : after.nfds ≡ s.nfds + length new
    pub same_length : length after.fds ≡ length s.fds
    pub before : (j : ℕ) → j < s.nfds → get_or after.fds j none_here ≡ get_or s.fds j none_here
    pub added :
        (k : ℕ)
        → k < length new
        → ((get_or after.fds (s.nfds + k) none_here).fd ≡ pos (get_or new k 0))
          × ((get_or after.fds (s.nfds + k) none_here).events ≡ pollin)
    pub ends :
        after.end_server ≡ (if eq_ℤ after.host_errno host.ewouldblock then s.end_server else true)
    pub same_buffers : (after.reqbuf ≡ s.reqbuf) × (after.resbuf ≡ s.resbuf)
    pub same_flag : after.compress_array ≡ s.compress_array

  -- The state with one more entry.
  abbrev pub grown : Server W → ℕ → Server W
  grown s fd = record (heard s (host.accept s.world listen_sd)) {
    fds =
        set s.fds s.nfds (record (get_or s.fds s.nfds none_here) { fd = pos fd; events = pollin });
    nfds = s.nfds + 1;
  }

  add_connection_lem :
      (s : Server W) (fd : ℕ)
      → s.nfds < length s.fds
      → length s.fds < u32_mod
      → add_connection pollin (heard s (host.accept s.world listen_sd)) (pos fd) ≡ done (grown s fd)
  unfolding add_connection
  add_connection_lem s fd room word =
      let next : add32 s.nfds 1 ≡ s.nfds + 1 = omega (arith, room, word) in
      rw (read_in_range s.fds s.nfds none_here room, write_in_range s.fds s.nfds _ room, next) refl

  add_connection_full :
      (s : Server W) (fd : ℤ) → length s.fds ≤ s.nfds → add_connection pollin s fd ≡ fault
  unfolding add_connection
  add_connection_full s fd full = rw (read_beyond s.fds s.nfds full) refl

  cons-Accepted :
      (s : Server W) (fd : ℕ) (new : List ℕ) {result : Outcome (Option (Server W))}
      → s.nfds < length s.fds
      → Accepted (grown s fd) new result
      → Accepted s (fd ∷ new) result
  cons-Accepted s fd new room a = record {
    after = a.after;
    returns = a.returns;
    nfds_is = omega (arith, a.nfds_is);
    same_length = a.same_length ∙ length-set s.fds s.nfds _;
    before = λ j lt.
        a.before j (omega (arith, lt))
        ∙ get_or-set_ne s.fds s.nfds j _ none_here (omega (arith, lt));
    added = added_at;
    ends = a.ends;
    same_buffers = a.same_buffers;
    same_flag = a.same_flag;
  }
    where
      here :
          get_or a.after.fds s.nfds none_here
          ≡ record (get_or s.fds s.nfds none_here) { fd = pos fd; events = pollin }
      here = a.before s.nfds (omega arith) ∙ get_or-set_self s.fds s.nfds _ none_here room

      added_at :
          (k : ℕ)
          → k < length (fd ∷ new)
          → ((get_or a.after.fds (s.nfds + k) none_here).fd ≡ pos (get_or (fd ∷ new) k 0))
            × ((get_or a.after.fds (s.nfds + k) none_here).events ≡ pollin)
      added_at zero lt =
          let q : s.nfds + 0 ≡ s.nfds = omega arith in
          rw q (ap (λ (p : Pollfd). p.fd) here, ap (λ (p : Pollfd). p.events) here)
      added_at (suc k) lt =
          let q : s.nfds + suc k ≡ s.nfds + 1 + k = omega arith in
          rw q (a.added k (omega (arith, lt)))

  nothing-Accepted :
      (s : Server W) (fuel : ℕ)
      → Waiting host listen_sd s.world []
      → Accepted s [] (accept_all host pollin listen_sd (suc fuel) s)
  unfolding accept_all
  nothing-Accepted s fuel w =
      let s' = heard s (host.accept s.world listen_sd) in
      elim (Bool-cases (eq_ℤ s'.host_errno host.ewouldblock)) [
        | inl q ↦ record {
          after = s';
          returns = rw (w, q) refl;
          nfds_is = omega arith;
          same_length = refl;
          before = λ j lt. refl;
          added = λ k lt. absurd (omega (arith, lt));
          ends = rw q refl;
          same_buffers = (refl, refl);
          same_flag = refl;
        }
        | inr q ↦ record {
          after = record s' { end_server = true };
          returns = rw (w, q) refl;
          nfds_is = omega arith;
          same_length = refl;
          before = λ j lt. refl;
          added = λ k lt. absurd (omega (arith, lt));
          ends = rw q refl;
          same_buffers = (refl, refl);
          same_flag = refl;
        }
      ]

  pub accept_all-cons :
      (s : Server W) (fuel fd : ℕ)
      → (host.accept s.world listen_sd).answer ≡ pos fd
      → s.nfds < length s.fds
      → length s.fds < u32_mod
      → accept_all host pollin listen_sd (suc fuel) s
        ≡ accept_all host pollin listen_sd fuel (grown s fd)
  unfolding accept_all
  accept_all-cons s fuel fd e room word = rw (e, add_connection_lem s fd room word) refl

  accept_all-full :
      (s : Server W) (fuel fd : ℕ)
      → (host.accept s.world listen_sd).answer ≡ pos fd
      → length s.fds ≤ s.nfds
      → accept_all host pollin listen_sd (suc fuel) s ≡ fault
  unfolding accept_all
  accept_all-full s fuel fd e full =
      rw (e, add_connection_full (heard s (host.accept s.world listen_sd)) (pos fd) full) refl

  -- When the host has the connections `new` waiting and then refuses, and the loop may ask often
  -- enough: if there is room for them in the array of fewer than 2 ^ 32 entries, they are added
  -- behind the entries in use, in their order and polled for input, the other entries in use stay,
  -- and the server is told to end exactly when the last error was another than EWOULDBLOCK; if there
  -- is not, the code writes beyond the array.
  pub accept_all_cases :
      (new : List ℕ) (fuel : ℕ) (s : Server W)
      → Waiting host listen_sd s.world new
      → length new < fuel
      → s.nfds ≤ length s.fds
      → length s.fds < u32_mod
      → ((s.nfds + length new ≤ length s.fds)
          × Accepted s new (accept_all host pollin listen_sd fuel s))
        ⊎ ((length s.fds < s.nfds + length new) × (accept_all host pollin listen_sd fuel s ≡ fault))
  accept_all_cases new zero s w enough fits word = absurd (omega (arith, enough))
  accept_all_cases [] (suc fuel) s w enough fits word =
      inl (omega (arith, fits), nothing-Accepted s fuel w)
  accept_all_cases (fd ∷ new) (suc fuel) s w enough fits word =
      let size : length (grown s fd).fds ≡ length s.fds = length-set s.fds s.nfds _ in
      let more = λ (room : s.nfds < length s.fds).
        accept_all_cases new fuel (grown s fd) w.1 (omega (arith, enough))
          (omega (arith, room, size)) (omega (arith, word, size)) in
      elim (Bool-cases (ltb s.nfds (length s.fds))) [
        | inl below ↦
            let room = ltb→lt _ _ below in
            let step = accept_all-cons s fuel fd w.0 room word in
            elim (more room) [
              | inl (fit, a) ↦ inl (
                omega (arith, fit, size),
                subst (Accepted s (fd ∷ new)) (sym step) (cons-Accepted s fd new room a),
              )
              | inr (over, q) ↦ inr (omega (arith, over, size), step ∙ q)
            ]
        | inr above ↦
            let full = ltb_false→le _ _ above in
            inr (omega (arith, full), accept_all-full s fuel fd w.0 full)
      ]
