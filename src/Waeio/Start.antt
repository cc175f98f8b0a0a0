-- ===== src/Waeio/Start.antt =====
-- src/waeio.c: what `waeio_main` has set up when it enters its loop.
use waeio.Prelude.{
  ℕ, ◌<◌, ◌≡◌, refl, ◌∙◌, arith, true, ℤ, pos, List, replicate, length-replicate, length-set, set,
  to_u32, u32_mod, Outcome, done, write_in_range,
}
use waeio.Freelist.{FreelistResult, FreelistPtr, live, all_free, freelist_new}
use waeio.Freelist.Bounds.{IsAligned}
use waeio.Wasio.{ok, Host}
use waeio.Wasio.Table.{State, Exports, initialised, wasio_init, after}
use waeio.Wasio.Table.Invariant.{initialised-IsTable}
use waeio.Wasio.Table.Accept.{refused, no_room, opened, wasio_listen-Opened}
use waeio.Waeio.{nil, node, queue_push, Fibers, Ctl}
use waeio.Waeio.Requests.{IsCtl}
use waeio.Waeio.Main.{Start, set_up}

-- The queue blocks were zero, and every allocation succeeds.
pub record Granted (start : Start) : Type 0 where
  pub fl : start.fl_memory ≡ true
  pub vfds : start.vfds_memory ≡ true
  pub fds : start.fds_memory ≡ true
  pub front : start.front_block ≡ nil
  pub rear : start.rear_block ≡ nil

freelist_new-live :
    (n : ℕ) (old : FreelistPtr)
    → 0 < n
    → freelist_new n true old ≡ (FreelistResult.ok, live (all_free n))
unfolding freelist_new
freelist_new-live n old h = ground arith

module _ {W M : Type 0} (lib : Fibers W M) (host : Host W) (exports : Exports)
    (event_foreach : State W → ℕ → List ℕ) (start : Start) (wasio : State W) where
  abbrev ready_state : State W
  ready_state =
      initialised exports wasio start.max_connections (live (all_free start.max_connections))

  wasio_init-ok :
      Granted start
      → 0 < start.max_connections
      → wasio_init exports wasio start.max_connections start.fl_memory start.vfds_memory
          start.fds_memory
        ≡ done (ok, ready_state)
  unfolding wasio_init
  wasio_init-ok g positive =
      rw (g.fl, g.vfds, g.fds, freelist_new-live start.max_connections wasio.wfd.fl positive) refl

  -- The state with which the loop begins: the main fiber alone is ready, with the address of the
  -- listening descriptor, and stands in the array at that descriptor.
  pub record SetUp (memory : M) (listener : ℤ) (result : Outcome (Ctl W M × ℕ × ℤ)) : Type 0 where
    pub ctl : Ctl W M
    pub servsock : ℕ
    pub returns : result ≡ done (ctl, (lib.fiber_alloc memory listener).0, pos servsock)
    pub invariant : IsCtl ctl
    pub front_is :
        ctl.frontq
        ≡ node
            (record { fiber = (lib.fiber_alloc memory listener).0; arg = start.servsock_address })
            nil
    pub rear_is : ctl.rearq ≡ nil
    pub below : servsock < start.max_connections
    pub fibers_is :
        ctl.fibers
        ≡ set (replicate start.max_connections 0) servsock (lib.fiber_alloc memory listener).0

  -- When the allocations succeed, the blocks of the queues are zero, the size is one that the
  -- freelist handles, and the host listens, `waeio_main` reaches its loop without a failed
  -- assertion, in a state with the invariant of the scheduler: the main fiber alone is ready, and
  -- stands at the index of the listening descriptor.
  pub set_up-SetUp :
      (memory : M) (listener : ℤ) (fd : ℕ)
      → Granted start
      → 0 < start.max_connections
      → start.max_connections < u32_mod
      → IsAligned start.max_connections
      → (host.listen wasio.world (pos 8080) (pos 1000)).answer ≡ pos fd
      → SetUp memory listener (set_up lib host exports event_foreach start wasio memory listener)
  unfolding set_up queue_push wasio_init
  set_up-SetUp memory listener fd g positive word al answer =
      let t = initialised-IsTable exports wasio start.max_connections positive word al in
      elim (wasio_listen-Opened host ready_state t start.servsock (pos 8080) (pos 1000)) [
        | refused n q _ ↦ cc (q, answer)
        | no_room _ _ full _ ↦ absurd (omega (arith, full, positive))
        | opened fd' _ w ↦
            let index : to_u32 (pos w.entry) ≡ w.entry = omega (arith, w.below, word) in
            let main = (lib.fiber_alloc memory listener).0 in
            let room = length-replicate start.max_connections 0 in
            record {
              ctl = record {
                nconns = 1;
                max_conns = start.max_connections;
                frontq = node (record { fiber = main; arg = start.servsock_address }) nil;
                rearq = nil;
                wasio =
                    record (after host ready_state
                      (host.listen ready_state.world (pos 8080) (pos 1000))) { wfd = w.wfd };
                fibers = set (replicate start.max_connections 0) w.entry main;
                memory = (lib.fiber_alloc memory listener).1;
              };
              servsock = w.entry;
              returns =
                  rw
                    (
                      wasio_init-ok g positive,
                      w.returns,
                      index,
                      write_in_range (replicate start.max_connections 0) w.entry main
                          (omega (arith, w.below, room)),
                      g.front,
                      g.rear,
                    )
                    refl;
              invariant = record {
                table = w.table;
                capacity_is = w.same_capacity;
                room = length-set (replicate start.max_connections 0) w.entry main ∙ room;
              };
              front_is = refl;
              rear_is = refl;
              below = w.below;
              fibers_is = refl;
            }
      ]
