-- ===== src/Waeio/Requests.antt =====
-- src/waeio.c: what `handle_request` does for each request, and the first loop of a round.
use waeio.Prelude.{
  ap, sym, ℕ, ◌≡◌, ◌≢◌, ◌<◌, ◌++◌, refl, ◌∙◌, arith, Bool, true, false, ℤ, pos, List, [], ◌∷◌,
  length, get_or, set, length-set, get_or-set_ne, sub32, to_u32, Outcome, done, aborted,
  write_in_range,
}
use waeio.Wasio.Table.{State, unused, wasio_notify_recv, wasio_notify_send}
use waeio.Wasio.Table.Invariant.{IsTable}
use waeio.Wasio.Table.Notify.{watching, watching-IsTable, notify_lem}
use waeio.Waeio.{
  CmdTag, accept, async, suspend, recv, send, quit, Cmd, io_cmd, cmd_arg, cmd_entry, FiberResult,
  fiber_ok, fiber_error, fiber_yield, Fibers, Ctl, with_wasio, enqueue, queue_push, handle_cmd,
  handle_request,
}
use waeio.Waeio.Requeueing.{queued, IsEnded}

-- The tags of the commands that wait for a descriptor, with the mask that each waits for.
pub data Waits {W : Type 0} (w : State W) : CmdTag → ℕ → Type 0 where
  accepts : Waits w accept w.pollin
  receives : Waits w recv w.pollin
  sends : Waits w send w.pollout

-- The arrays of `ctl` have an entry for each virtual descriptor.
pub record IsCtl {W M : Type 0} (ctl : Ctl W M) : Type 0 where
  pub table : IsTable ctl.wasio.wfd
  pub capacity_is : ctl.wasio.wfd.capacity ≡ ctl.max_conns
  pub room : length ctl.fibers ≡ ctl.max_conns

-- Only QUIT stops the scheduler.
unfoldable pub goes_on : FiberResult → CmdTag → Bool
goes_on fiber_yield quit = false
goes_on fiber_yield tag = true
goes_on fiber_ok tag = true
goes_on fiber_error tag = true

Waits-goes_on :
    {W : Type 0} {w : State W} {tag : CmdTag} {mask : ℕ}
    → Waits w tag mask
    → goes_on fiber_yield tag ≡ true
unfolding goes_on
Waits-goes_on accepts = refl
Waits-goes_on receives = refl
Waits-goes_on sends = refl

module _ {W M : Type 0} (lib : Fibers W M) where
  handle_request-Waits :
      (ctl : Ctl W M) (yieldee : ℕ) (cmd : Cmd) (tag : CmdTag) (mask e : ℕ)
      → IsTable ctl.wasio.wfd
      → Waits ctl.wasio tag mask
      → cmd.tag ≡ tag
      → to_u32 (cmd_arg cmd) ≡ e
      → e < ctl.wasio.wfd.capacity
      → handle_request lib ctl yieldee fiber_yield cmd
        ≡ done (true, with_wasio ctl (record (ctl.wasio) { wfd = watching ctl.wasio.wfd e mask }))
  unfolding handle_request handle_cmd wasio_notify_recv wasio_notify_send
  handle_request-Waits ctl yieldee cmd _ mask e t accepts q r below =
      rw (q, r, notify_lem ctl.wasio t e mask below)
  handle_request-Waits ctl yieldee cmd _ mask e t receives q r below =
      rw (q, r, notify_lem ctl.wasio t e mask below)
  handle_request-Waits ctl yieldee cmd _ mask e t sends q r below =
      rw (q, r, notify_lem ctl.wasio t e mask below)

  -- A command that waits for `vfd`, built the way that `waeio_accept`, `waeio_recv` and `waeio_send`
  -- build it, where the unset word of the union names a descriptor of a table that satisfies the
  -- invariant: the request is handled, and the poll entry of every descriptor but the one that the
  -- unset word names stays as it was, whatever `vfd` is.
  pub handle_request_unset :
      (ctl : Ctl W M) (yieldee : ℕ) (tag : CmdTag) (mask : ℕ) (vfd unset : ℤ)
      → IsTable ctl.wasio.wfd
      → Waits ctl.wasio tag mask
      → to_u32 unset < ctl.wasio.wfd.capacity
      → (after : Ctl W M) × (handle_request lib ctl yieldee fiber_yield (io_cmd tag vfd unset)
          ≡ done (true, after))
        × ((j : ℕ)
            → to_u32 unset ≢ j
            → get_or after.wasio.wfd.vfds j unused ≡ get_or ctl.wasio.wfd.vfds j unused)
  handle_request_unset ctl yieldee tag mask vfd unset t w below = (
    with_wasio ctl (record (ctl.wasio) { wfd = watching ctl.wasio.wfd (to_u32 unset) mask }),
    handle_request-Waits ctl yieldee (io_cmd tag vfd unset) tag mask (to_u32 unset) t w refl refl
        below,
    λ j ne. get_or-set_ne ctl.wasio.wfd.vfds (to_u32 unset) j _ unused ne,
  )

  -- The count of connections after a fiber has stopped with an outcome.
  pub count_after : FiberResult → ℕ → ℕ
  count_after fiber_ok n = sub32 n 1
  count_after fiber_error n = n
  count_after fiber_yield n = n

  -- A request that is handled: no fiber leaves the queues, and the count of connections changes
  -- only when a fiber has finished.
  pub record Kept (ctl : Ctl W M) (status : FiberResult) (after : Ctl W M) : Type 0 where
    pub invariant : IsCtl after
    pub same_front : after.frontq ≡ ctl.frontq
    pub same_max : after.max_conns ≡ ctl.max_conns
    pub added : List ℕ
    pub rear_is : queued after.rearq ≡ added ++ queued ctl.rearq
    pub ended : IsEnded ctl.rearq → IsEnded after.rearq
    pub count_is : after.nconns ≡ count_after status ctl.nconns

  pub data Handled (ctl : Ctl W M) (status : FiberResult) (cmd : Cmd)
      : Outcome (Bool × Ctl W M) → Type 0 where
    aborts : status ≡ fiber_error → Handled ctl status cmd aborted
    keeps :
        (keep_going : Bool) (after : Ctl W M)
        → Kept ctl status after
        → keep_going ≡ goes_on status cmd.tag
        → Handled ctl status cmd (done (keep_going, after))

  spawned : Ctl W M → ℕ → Cmd → Ctl W M
  unfolding enqueue queue_push
  spawned ctl yieldee cmd =
      let child = lib.fiber_alloc ctl.memory (cmd_entry cmd) in
      enqueue
        (enqueue
          (record ctl { fibers = set ctl.fibers (to_u32 (cmd_arg cmd)) child.0; memory = child.1 })
          child.0 (pos (to_u32 (cmd_arg cmd))))
        yieldee (pos 0)

  Waits-Handled :
      (ctl : Ctl W M) (yieldee : ℕ) (cmd : Cmd) (tag : CmdTag) (mask : ℕ)
      → IsCtl ctl
      → Waits ctl.wasio tag mask
      → cmd.tag ≡ tag
      → to_u32 (cmd_arg cmd) < ctl.max_conns
      → Handled ctl fiber_yield cmd (handle_request lib ctl yieldee fiber_yield cmd)
  unfolding count_after
  Waits-Handled ctl yieldee cmd tag mask c w q below =
      let inside : to_u32 (cmd_arg cmd) < ctl.wasio.wfd.capacity =
        omega (arith, below, c.capacity_is) in
      rw
        (handle_request-Waits ctl yieldee cmd tag mask (to_u32 (cmd_arg cmd)) c.table w q refl
          inside)
        (keeps true _
          (record {
            invariant = record {
              table = watching-IsTable c.table (to_u32 (cmd_arg cmd)) mask inside;
              capacity_is = c.capacity_is;
              room = c.room;
            };
            same_front = refl;
            same_max = refl;
            added = [];
            rear_is = refl;
            ended = λ e. e;
            count_is = refl;
          })
          (sym (ap (λ t. goes_on fiber_yield t) q ∙ Waits-goes_on w)))

  yield-Handled :
      (ctl : Ctl W M) (yieldee : ℕ) (cmd : Cmd) (tag : CmdTag)
      → IsCtl ctl
      → cmd.tag ≡ tag
      → to_u32 (cmd_arg cmd) < ctl.max_conns
      → Handled ctl fiber_yield cmd (handle_request lib ctl yieldee fiber_yield cmd)
  unfolding goes_on handle_request handle_cmd enqueue queue_push queued IsEnded count_after spawned
  yield-Handled ctl yieldee cmd accept c q below =
      Waits-Handled ctl yieldee cmd accept ctl.wasio.pollin c accepts q below
  yield-Handled ctl yieldee cmd recv c q below =
      Waits-Handled ctl yieldee cmd recv ctl.wasio.pollin c receives q below
  yield-Handled ctl yieldee cmd send c q below =
      Waits-Handled ctl yieldee cmd send ctl.wasio.pollout c sends q below
  yield-Handled ctl yieldee cmd suspend c q below = rw q (
      keeps true _
        (record {
          invariant = record { table = c.table; capacity_is = c.capacity_is; room = c.room };
          same_front = refl;
          same_max = refl;
          added = yieldee ∷ [];
          rear_is = refl;
          ended = λ e. e;
          count_is = refl;
        })
        refl)
  yield-Handled ctl yieldee cmd quit c q below = rw q (
      keeps false ctl
        (record {
          invariant = c;
          same_front = refl;
          same_max = refl;
          added = [];
          rear_is = refl;
          ended = λ e. e;
          count_is = refl;
        })
        refl)
  yield-Handled ctl yieldee cmd async c q below =
      let child = (lib.fiber_alloc ctl.memory (cmd_entry cmd)).0 in
      rw (q, write_in_range ctl.fibers (to_u32 (cmd_arg cmd)) child (omega (arith, below, c.room)))
        (keeps true (spawned ctl yieldee cmd)
          (record {
            invariant = record {
              table = c.table;
              capacity_is = c.capacity_is;
              room = length-set ctl.fibers (to_u32 (cmd_arg cmd)) child ∙ c.room;
            };
            same_front = refl;
            same_max = refl;
            added = yieldee ∷ child ∷ [];
            rear_is = refl;
            ended = λ e. e;
            count_is = refl;
          })
          refl)

  -- From a state with the invariant, when the word that the code takes for the descriptor of a
  -- command is one of the table's, no request makes an access out of range: `handle_request` aborts
  -- for a fiber that failed; otherwise it returns, and tells the scheduler to stop exactly when a
  -- fiber yielded QUIT. The arrays keep their sizes and the table its invariant, the front queue
  -- stays, the rear queue keeps its fibers, and the count of connections falls by one if a fiber
  -- finished and stays if it yielded.
  pub handle_request-Handled :
      (ctl : Ctl W M) (yieldee : ℕ) (status : FiberResult) (cmd : Cmd)
      → IsCtl ctl
      → to_u32 (cmd_arg cmd) < ctl.max_conns
      → Handled ctl status cmd (handle_request lib ctl yieldee status cmd)
  unfolding handle_request count_after goes_on
  handle_request-Handled ctl yieldee fiber_ok cmd c below =
      keeps true _
        (record {
          invariant = record { table = c.table; capacity_is = c.capacity_is; room = c.room };
          same_front = refl;
          same_max = refl;
          added = [];
          rear_is = refl;
          ended = λ e. e;
          count_is = refl;
        })
        refl
  handle_request-Handled ctl yieldee fiber_error cmd c below = aborts refl
  handle_request-Handled ctl yieldee fiber_yield cmd c below =
      yield-Handled ctl yieldee cmd cmd.tag c refl below
