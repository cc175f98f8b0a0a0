-- ===== src/Wasio/Wasi/Wrap.antt =====
-- src/wasio_wasi.c: its table, and `wasio_wrap`.
use waeio.Prelude.{
  ℕ, ◌<◌, ◌≡◌, ◌≢◌, refl, ◌∙◌, ◌⊎◌, inl, inr, arith, ℤ, pos, minus_one, some, length, get_or, set,
  add32, length-set, done, read_in_range, write_in_range,
}
use waeio.Freelist.{FreelistResult, Freelist, live, freelist_next}
use waeio.Freelist.View.{free, IsFreelist}
use waeio.Freelist.Next.{Found}
use waeio.Freelist.Bounds.{IsAligned, freelist_next_aligned}
use waeio.Wasio.{ok, efull}
use waeio.Wasio.Table.{Wfd, unused}
use waeio.Wasio.Wasi.{wrap_with, wasio_wrap}

-- The freelist and the two arrays have an entry for each virtual descriptor.
pub record HasRoom (wfd : Wfd) : Type 0 where
  pub list : Freelist
  pub list_is : wfd.fl ≡ live list
  pub invariant : IsFreelist list
  pub size_eq : list.size ≡ wfd.capacity
  pub aligned : IsAligned wfd.capacity
  pub vfds_room : length wfd.vfds ≡ wfd.capacity
  pub fds_room : length wfd.fds ≡ wfd.capacity

-- The table after `e` has been bound to `fd`, polled as `polled`.
abbrev pub bound : Wfd → Freelist → ℕ → ℤ → ℤ → Wfd
bound wfd list e fd polled = record wfd {
  length = add32 wfd.length 1;
  fl = live list;
  vfds = set wfd.vfds e (record (get_or wfd.vfds e unused) { fd = polled });
  fds = set wfd.fds e fd;
}

module _ {wfd : Wfd} (t : HasRoom wfd) where
  unfoldable pub bound-HasRoom :
      (x : Found t.list (freelist_next t.list 0)) (fd polled : ℤ)
      → HasRoom (bound wfd x.rest x.taken fd polled)
  bound-HasRoom x fd polled = record {
    list = x.rest;
    list_is = refl;
    invariant = x.invariant;
    size_eq = x.same_size ∙ t.size_eq;
    aligned = t.aligned;
    vfds_room = length-set wfd.vfds x.taken _ ∙ t.vfds_room;
    fds_room = length-set wfd.fds x.taken fd ∙ t.fds_room;
  }

  wrap_with-ok :
      (x : Found t.list (freelist_next t.list 0)) (fd out : ℤ)
      → x.taken < wfd.capacity
      → wrap_with wfd fd out (FreelistResult.ok, x.rest, x.taken)
        ≡ done (ok, pos x.taken, bound wfd x.rest x.taken fd minus_one)
  unfolding wrap_with
  wrap_with-ok x fd out below =
      let inside : x.taken < length wfd.vfds = omega (arith, below, t.vfds_room) in
      rw (
        read_in_range wfd.vfds x.taken unused inside,
        write_in_range wfd.vfds x.taken _ inside,
        write_in_range wfd.fds x.taken fd (omega (arith, below, t.fds_room)),
      )

  wasio_wrap-eq :
      (fd out : ℤ) (r : FreelistResult × Freelist × ℕ)
      → freelist_next t.list 0 ≡ some r
      → wasio_wrap wfd fd out ≡ wrap_with wfd fd out r
  unfolding wasio_wrap
  wasio_wrap-eq fd out r q = rw (t.list_is, q)

  -- Either a descriptor was free and is bound, or none was.
  pub wasio_wrap_cases :
      (fd out : ℤ)
      → ((x : Found t.list (freelist_next t.list 0)) × (x.taken < wfd.capacity)
          × (wasio_wrap wfd fd out ≡ done (ok, pos x.taken, bound wfd x.rest x.taken fd minus_one)))
        ⊎ (((j : ℕ) → j < wfd.capacity → free t.list j ≢ 1)
            × (wasio_wrap wfd fd out ≡ done (efull, out, wfd)))
  wasio_wrap_cases fd out =
      elim (freelist_next_aligned t.list 0 t.invariant (rw t.size_eq t.aligned)) [
        | inl (x, small, least) ↦
            let below : x.taken < wfd.capacity = omega (arith, small, t.size_eq) in
            inl (x, below, wasio_wrap-eq fd out _ x.returns ∙ wrap_with-ok x fd out below)
        | inr (x, none_free) ↦ inr (
          λ j h. none_free j (omega (arith, h, t.size_eq)),
          wasio_wrap-eq fd out _ x.0 ∙ unfold wrap_with in rw (← t.list_is),
        )
      ]
