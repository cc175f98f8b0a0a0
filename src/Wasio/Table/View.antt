-- ===== src/Wasio/Table/View.antt =====
-- src/wasio_host.c: the map from virtual descriptors that a table stands for.
use waeio.Prelude.{
  ℕ, ◌<◌, ◌≡◌, ◌≢◌, refl, ◌∙◌, arith, inl, inr, ℤ, minus_one, List, get_or, none, Outcome, done,
  ◌==◌, Bool-cases,
}
use waeio.Freelist.{Freelist}
use waeio.Freelist.View.{free}
use waeio.Wasio.Table.{Wfd, State, unused}
use waeio.Wasio.Table.Invariant.{IsTable, lookup}
use waeio.Wasio.Table.Spec.{Bindings, or_closed}

-- The map that a table stands for.
abbrev pub view : {W : Type 0} (s : State W) → IsTable s.wfd → Bindings W
view s t = record {
  image = lookup t.list s.wfd.fds;
  capacity = s.wfd.capacity;
  count = s.wfd.length;
  world = s.world;
}

-- What the code reads for a descriptor of the table is its image, or -1.
pub translates :
    {wfd : Wfd} (t : IsTable wfd) (e : ℕ)
    → e < wfd.capacity
    → get_or wfd.fds e minus_one ≡ or_closed (lookup t.list wfd.fds e)
unfolding lookup
translates {wfd} t e below = elim (Bool-cases (free t.list e == 1)) [
  | inl is_free ↦ rw is_free (t.unused_fd e below (ground arith))
  | inr taken ↦ rw taken refl
]

pub polled :
    {wfd : Wfd} (t : IsTable wfd) (e : ℕ)
    → e < wfd.capacity
    → (get_or wfd.vfds e unused).fd ≡ or_closed (lookup t.list wfd.fds e)
polled t e below = t.agrees e ∙ translates t e below

pub lookup-ne_none :
    (list : Freelist) (fds : List ℤ) (e : ℕ) → free list e ≢ 1 → lookup list fds e ≢ none
unfolding lookup
lookup-ne_none list fds e h = ground arith

module _ {W : Type 0} where
  -- A normal return with a table of the same capacity, whose map is as `P` says.
  pub record Refines (P : Bindings W → Type 0) (cap : ℕ) (o : Outcome (State W)) : Type 0 where
    pub state : State W
    pub returns : o ≡ done state
    pub table : IsTable state.wfd
    pub capacity_is : state.wfd.capacity ≡ cap
    pub moves : P (view state table)
