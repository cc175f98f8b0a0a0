-- ===== src/Wasio/Table/Notify.antt =====
-- src/wasio_host.c: `wasio_notify_recv` and `wasio_notify_send`, and the import name of
-- `host_pollout`.
use waeio.Prelude.{
  ℕ, ◌<◌, ◌≡◌, ◌≢◌, sym, ◌∙◌, ap, inl, inr, arith, Bool, true, false, ℤ, pos, minus_one, length,
  get_or, set, bit_or, length-set, get_or-set_self, get_or-set_ne, Bool-cases, ==_iff, ◌==◌, done,
  read_in_range, write_in_range,
}
use waeio.Freelist.{FreelistPtr, FreelistResult, freelist_new}
use waeio.Wasio.{ok, Pollfd}
use waeio.Wasio.Table.{
  Wfd, State, Exports, unused, init_with, wasio_init, notify, wasio_notify_recv, wasio_notify_send,
}
use waeio.Wasio.Table.Invariant.{IsTable, Agrees}

-- The table after a descriptor is polled for `mask` as well.
abbrev pub watching : Wfd → ℕ → ℕ → Wfd
watching wfd e mask = record wfd {
  vfds = set wfd.vfds e (record (get_or wfd.vfds e unused) {
    fd = get_or wfd.fds e minus_one;
    events = bit_or (get_or wfd.vfds e unused).events mask;
  });
}

pub watching-Agrees :
    {wfd : Wfd} (t : IsTable wfd) (e mask : ℕ) → e < wfd.capacity → Agrees (watching wfd e mask)
watching-Agrees {wfd} t e mask below j = elim (Bool-cases (e == j)) [
  | inl same ↦
      let q : e ≡ j = (==_iff _ _).0 same in
      rw (← q) (
        ap (λ (p : Pollfd). p.fd)
          (get_or-set_self wfd.vfds e _ unused (omega (arith, below, t.vfds_room))))
  | inr other ↦
      let ne : (e ≢ j) = ground arith in
      ap (λ (p : Pollfd). p.fd) (get_or-set_ne wfd.vfds e j _ unused ne) ∙ t.agrees j
]

unfoldable pub watching-IsTable :
    {wfd : Wfd} (t : IsTable wfd) (e mask : ℕ) → e < wfd.capacity → IsTable (watching wfd e mask)
watching-IsTable {wfd} t e mask below = record {
  list = t.list;
  list_is = t.list_is;
  invariant = t.invariant;
  size_eq = t.size_eq;
  aligned = t.aligned;
  vfds_room = length-set wfd.vfds e _ ∙ t.vfds_room;
  fds_room = t.fds_room;
  unused_fd = t.unused_fd;
  agrees = watching-Agrees t e mask below;
  counted = t.counted;
}

module _ {W : Type 0} (s : State W) where
  pub notify_lem :
      (t : IsTable s.wfd) (e mask : ℕ)
      → e < s.wfd.capacity
      → notify s (pos e) mask ≡ done (ok, record s { wfd = watching s.wfd e mask })
  unfolding notify
  notify_lem t e mask below =
      let inside : e < length s.wfd.vfds = omega (arith, below, t.vfds_room) in
      rw (
        read_in_range s.wfd.fds e minus_one (omega (arith, below, t.fds_room)),
        read_in_range s.wfd.vfds e unused inside,
        write_in_range s.wfd.vfds e _ inside,
      )

-- After `wasio_init` has succeeded, both masks are the value that the host exports as `pollin`,
-- whatever it exports as `pollout`: in every later state with these masks `wasio_notify_send` does
-- what `wasio_notify_recv` does.
pub wasio_notify_send-recv :
    {W : Type 0} (exports : Exports) (s s' later : State W) (capacity : ℕ)
    (fl_memory vfds_memory fds_memory : Bool) (vfd : ℤ)
    → wasio_init exports s capacity fl_memory vfds_memory fds_memory ≡ done (ok, s')
    → later.pollin ≡ s'.pollin
    → later.pollout ≡ s'.pollout
    → (later.pollout ≡ exports "pollin")
      × (wasio_notify_send later vfd ≡ wasio_notify_recv later vfd)
unfolding wasio_notify_send wasio_notify_recv wasio_init
wasio_notify_send-recv exports s s' later capacity fl_memory vfds_memory fds_memory vfd h p q =
    (q ∙ masks.1, ap (notify later vfd) (q ∙ masks.1 ∙ sym masks.0 ∙ sym p))
  where
    go :
        (r : FreelistResult × FreelistPtr) (v f : Bool)
        → init_with exports s capacity r v f ≡ done (ok, s')
        → (s'.pollin ≡ exports "pollin") × (s'.pollout ≡ exports "pollin")
    go (FreelistResult.ok, fl) true true e = ground arith
    go (FreelistResult.ok, fl) true false e = cc
    go (FreelistResult.ok, fl) false f e = cc
    go (FreelistResult.full, fl) v f e = cc
    go (FreelistResult.mem_err, fl) v f e = cc
    go (FreelistResult.size_err, fl) v f e = cc
    go (FreelistResult.ob_entry, fl) v f e = cc

    masks : (s'.pollin ≡ exports "pollin") × (s'.pollout ≡ exports "pollin")
    masks = go (freelist_new capacity fl_memory s.wfd.fl) vfds_memory fds_memory h
