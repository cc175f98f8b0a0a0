-- ===== src/Wasio/Table/Runs.antt =====
-- src/wasio_host.c: any sequence of calls on a table stays within it, and does what the map from
-- virtual descriptors does.
use waeio.Prelude.{ℕ, ◌≡◌, refl, sym, ◌∙◌, ap, subst, List, [], ◌∷◌, All, ◌>>=◌}
use waeio.Wasio.{Host}
use waeio.Wasio.Table.{State}
use waeio.Wasio.Table.Invariant.{IsTable}
use waeio.Wasio.Table.Close.{ClosesOpen}
use waeio.Wasio.Table.Calls.{Call, Names, PollsInPlace, run, Returns}
use waeio.Wasio.Table.Spec.{Moves}
use waeio.Wasio.Table.View.{view, Refines}
use waeio.Wasio.Table.Moves.{step-Refines}

module _ {W : Type 0} (host : Host W) where
  -- With a host that refuses to close -1 and polls in place, any sequence of calls that name
  -- descriptors of the table returns normally, with the invariant and the capacity kept, and it is a
  -- sequence of moves of the map from virtual descriptors to the host's, one move for each call:
  -- accepting and listening bind the least descriptor without an image to the host's answer, or
  -- leave the map when the host refuses or all descriptors are bound; closing unbinds a descriptor
  -- that was bound, or leaves the map when the host refuses; every other call leaves the map; and
  -- each call asks the host about the image of the descriptor it names, or about all images.
  pub run-Refines :
      (s : State W) (cs : List Call) (t : IsTable s.wfd)
      → ClosesOpen host
      → PollsInPlace host
      → All (Names s.wfd.capacity) cs
      → Refines (Moves host (view s t) cs) s.wfd.capacity (run host s cs)
  unfolding run
  run-Refines s [] t law p names = record {
    state = s;
    returns = refl;
    table = t;
    capacity_is = refl;
    moves = record { image_is = λ j. refl; capacity_is = refl; count_is = refl; world_is = refl };
  }
  run-Refines s (c ∷ cs) t law p names =
      let x = step-Refines host s c t law p names.0 in
      let rest =
        run-Refines x.state cs x.table law p
          (subst (λ k. All (Names k) cs) (sym x.capacity_is) names.1) in
      record {
        state = rest.state;
        returns = ap (λ o. o >>= λ s'. run host s' cs) x.returns ∙ rest.returns;
        table = rest.table;
        capacity_is = rest.capacity_is ∙ x.capacity_is;
        moves = (view x.state x.table, x.moves, rest.moves);
      }

  -- With a host that refuses to close -1 and polls in place, any sequence of calls that name
  -- descriptors of the table returns normally: it makes no access out of range, the assertion in
  -- `wasio_close` never fails, and the invariant and the capacity are kept.
  pub run-Returns :
      (s : State W) (cs : List Call) (cap : ℕ)
      → ClosesOpen host
      → PollsInPlace host
      → IsTable s.wfd
      → s.wfd.capacity ≡ cap
      → All (Names cap) cs
      → Returns host cap (run host s cs)
  run-Returns s cs cap law p t q names =
      let x = run-Refines s cs t law p (subst (λ k. All (Names k) cs) (sym q) names) in
      record {
        state = x.state;
        returns = x.returns;
        table = x.table;
        capacity_is = x.capacity_is ∙ q;
      }
