-- ===== src/Httpserver/HostFiber/Safe.antt =====
-- examples/httpserver/httpserver_fiber.c: code that stays within the arrays, and what it may take out of
-- use.
use waeio.Prelude.{
  ℕ, ◌+◌, ◌<◌, ◌≤◌, ◌≡◌, refl, ap, ◌∙◌, arith, ℤ, length, set, length-set, get_or, u32_mod, sub32,
  Outcome, done, ◌>>=◌, read_in_range, write_in_range,
}
use waeio.Wasio.{Pollfd, Host}
use waeio.Httpserver.WasioFiber.{set_closed}
use waeio.Httpserver.HostFiber.{Server, Platform, update_entry, drop_entry}
use waeio.Httpserver.HostFiber.Bounds.{none_here, Fits}

module _ {W M : Type 0} (host : Host W) (env : Platform W M) where
  -- What the code assumes of a fiber: it keeps the arrays in their bounds and takes no entry out of use.
  pub record KeepsEntries : Type 0 where
    pub fits :
        (s : Server W M) (fiber : ℕ) (v : ℤ)
        → Fits host env s
        → Fits host env (env.fiber_resume s fiber v).1
    pub no_fewer :
        (s : Server W M) (fiber : ℕ) (v : ℤ) → s.nfds ≤ (env.fiber_resume s fiber v).1.nfds

  -- The code has a result, with a server within its bounds that has at most `lost` entries less in use.
  pub record Safe {A : Type 0} (server : A → Server W M) (lost n : ℕ) (o : Outcome A) : Type 0 where
    pub result : A
    pub returns : o ≡ done result
    pub fits : Fits host env (server result)
    pub no_fewer : n ≤ (server result).nfds + lost

  pub returns-Safe :
      {A : Type 0} (f : A → Server W M) (lost n : ℕ) (a : A)
      → Fits host env (f a)
      → n ≤ (f a).nfds + lost
      → Safe f lost n (done a)
  returns-Safe f lost n a fits le = record {
    result = a;
    returns = refl;
    fits = fits;
    no_fewer = le;
  }

  pub weaken-Safe :
      {A : Type 0} (f : A → Server W M) (lost n n' lost' : ℕ) {o : Outcome A}
      → Safe f lost n o
      → n' + lost ≤ n + lost'
      → Safe f lost' n' o
  weaken-Safe f lost n n' lost' x le = record {
    result = x.result;
    returns = x.returns;
    fits = x.fits;
    no_fewer = omega (arith, x.no_fewer, le);
  }

  pub bind-Safe :
      {A B : Type 0} (f : A → Server W M) (g : B → Server W M) (lost more n : ℕ) {o : Outcome A}
      {k : A → Outcome B}
      → Safe f lost n o
      → ((a : A) → Fits host env (f a) → n ≤ (f a).nfds + lost → Safe g more (f a).nfds (k a))
      → Safe g (lost + more) n (o >>= k)
  bind-Safe f g lost more n {o} {k} x next =
      let y = next x.result x.fits x.no_fewer in
      record {
        result = y.result;
        returns = ap (λ m. m >>= k) x.returns ∙ y.returns;
        fits = y.fits;
        no_fewer = omega (arith, x.no_fewer, y.no_fewer);
      }

  pub update_entry-Safe :
      (i : ℕ) (change : Pollfd → Pollfd) (s : Server W M)
      → Fits host env s
      → i < env.max_connections
      → Safe (λ t. t) 0 s.nfds (update_entry i change s)
  unfolding update_entry
  update_entry-Safe i change s f below =
      let inside : i < length s.fds = omega (arith, below, f.fds_room) in
      let new = change (get_or s.fds i none_here) in
      record {
        result = record s { fds = set s.fds i new };
        returns =
            rw (read_in_range s.fds i none_here inside, write_in_range s.fds i new inside) refl;
        fits = record {
          fds_room = length-set s.fds i new ∙ f.fds_room;
          fibers_room = f.fibers_room;
          within = f.within;
        };
        no_fewer = omega arith;
      }

  pub drop_entry-Safe :
      (i : ℕ) (s : Server W M)
      → Fits host env s
      → i < env.max_connections
      → env.max_connections < u32_mod
      → 0 < s.nfds
      → Safe (λ t. t) 1 s.nfds (drop_entry i s)
  unfolding drop_entry update_entry
  drop_entry-Safe i s f below word used =
      bind-Safe (λ t. t) (λ t. t) 0 1 s.nfds (update_entry-Safe i set_closed s f below)
        (λ t fits le.
          returns-Safe (λ t. t) 1 t.nfds (record t { nfds = sub32 t.nfds 1 })
            (record {
              fds_room = fits.fds_room;
              fibers_room = fits.fibers_room;
              within = omega (arith, fits.within, le, used, word);
            })
            (omega (arith, fits.within, le, used, word)))
