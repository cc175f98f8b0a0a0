-- ===== src/Wasio/Table/Spec.antt =====
-- src/wasio_host.c: what the backend promises its clients, without the freelist and the arrays: a
-- finite map from virtual descriptors to the host's.
use waeio.Prelude.{
  ℕ, ◌+◌, ◌<◌, ◌≡◌, ◌≢◌, ℤ, pos, minus_one, is_neg, true, false, List, [], ◌∷◌, Option, none, some,
  length, get_or, if◌then◌else◌, ◌==◌,
}
use waeio.Wasio.{Pollfd, Host, Reply}
use waeio.Wasio.Table.{unused}
use waeio.Wasio.Table.Calls.{
  Call, listens, accepts, polls, recvs, sends, closes, notifies_recv, notifies_send,
}

-- The map below `capacity`, how many descriptors it binds, and the state of the host.
pub record Bindings (W : Type 0) : Type 0 where
  pub image : ℕ → Option ℤ
  pub capacity : ℕ
  pub count : ℕ
  pub world : W

-- What the host is asked about for a virtual descriptor: -1 where it has no image.
abbrev pub or_closed : Option ℤ → ℤ
or_closed none = minus_one
or_closed (some fd) = fd

module _ {W : Type 0} where
  -- The map stays, and the host's state is `w`.
  pub record Same (a : Bindings W) (w : W) (b : Bindings W) : Type 0 where
    pub image_is : (j : ℕ) → b.image j ≡ a.image j
    pub capacity_is : b.capacity ≡ a.capacity
    pub count_is : b.count ≡ a.count
    pub world_is : b.world ≡ w

  -- `e`, the least descriptor without an image, gets the image `fd`.
  pub record Binds (a : Bindings W) (e : ℕ) (fd : ℤ) (w : W) (b : Bindings W) : Type 0 where
    pub below : e < a.capacity
    pub fresh : a.image e ≡ none
    pub least : (j : ℕ) → j < e → a.image j ≢ none
    pub image_is : (j : ℕ) → b.image j ≡ (if e == j then some fd else a.image j)
    pub capacity_is : b.capacity ≡ a.capacity
    pub count_is : b.count ≡ a.count + 1
    pub world_is : b.world ≡ w

  -- `e` loses its image.
  pub record Unbinds (a : Bindings W) (e : ℕ) (w : W) (b : Bindings W) : Type 0 where
    pub held : a.image e ≢ none
    pub image_is : (j : ℕ) → b.image j ≡ (if e == j then none else a.image j)
    pub capacity_is : b.capacity ≡ a.capacity
    pub count_is : b.count + 1 ≡ a.count
    pub world_is : b.world ≡ w

  -- The host was asked for a descriptor, and replied `r`.
  pub data Acquires (a : Bindings W) (r : Reply W) (b : Bindings W) : Type 0 where
    refused : is_neg r.answer ≡ true → Same a r.world b → Acquires a r b
    no_room : is_neg r.answer ≡ false → a.count ≡ a.capacity → Same a r.world b → Acquires a r b
    gained : (e : ℕ) → is_neg r.answer ≡ false → Binds a e r.answer r.world b → Acquires a r b

  -- The host was asked to close the image of `e`, and replied `r`.
  pub data Releases (a : Bindings W) (e : ℕ) (r : Reply W) (b : Bindings W) : Type 0 where
    kept : r.answer ≢ pos 0 → Same a r.world b → Releases a e r b
    released : r.answer ≡ pos 0 → Unbinds a e r.world b → Releases a e r b

module _ {W : Type 0} (host : Host W) where
  -- The host was asked to poll entries that name exactly the images.
  pub record Polls (a : Bindings W) (timeout : ℤ) (b : Bindings W) : Type 0 where
    pub fds : List Pollfd
    pub room : length fds ≡ a.capacity
    pub asks : (e : ℕ) → e < a.capacity → (get_or fds e unused).fd ≡ or_closed (a.image e)
    pub same : Same a (host.poll a.world fds a.capacity timeout).reply.world b

  -- What each call does. Calls other than these three kinds leave the map alone: they only ask the
  -- host, about the image of the descriptor that they name.
  abbrev pub Move : Bindings W → Call → Bindings W → Type 0
  Move a (listens vfd port backlog) b = Acquires a (host.listen a.world port backlog) b
  Move a (accepts e new_conn) b = Acquires a (host.accept a.world (or_closed (a.image e))) b
  Move a (closes e) b = Releases a e (host.close a.world (or_closed (a.image e))) b
  Move a (polls evlen timeout) b = Polls a timeout b
  Move a (recvs e len recvlen) b =
      Same a (host.recv a.world (or_closed (a.image e)) len).reply.world b
  Move a (sends e buf len sendlen) b =
      Same a (host.send a.world (or_closed (a.image e)) buf len).world b
  Move a (notifies_recv e) b = Same a a.world b
  Move a (notifies_send e) b = Same a a.world b

  -- A sequence of moves, one for each call.
  abbrev pub Moves : Bindings W → List Call → Bindings W → Type 0
  Moves a [] d = Same a a.world d
  Moves a (c ∷ cs) d = (b : Bindings W) × Move a c b × Moves b cs d
