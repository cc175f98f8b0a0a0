-- ===== src/Wasio/Table/Invariant.antt =====
-- src/wasio_host.c: the invariant that ties the freelist to the two arrays, and the map from virtual
-- descriptors to the host's that a table stands for.
use waeio.Prelude.{
  ℕ, zero, suc, ◌+◌, ◌<◌, ◌≤◌, ◌≡◌, ◌≢◌, refl, sym, ◌∙◌, ap, inl, inr, arith, ℤ, minus_one, List,
  Option, some, none, length, get_or, set, replicate, get_or-set_self, get_or-set_ne, if◌then◌else◌,
  ◌==◌, u32_mod, length-replicate, get_or-replicate, Bool-cases, ==_iff,
}
use waeio.Freelist.{Freelist, live, all_free}
use waeio.Freelist.View.{free, IsFreelist, free-le-one, lt-len_of_lt-size}
use waeio.Freelist.Bounds.{IsAligned}
use waeio.Freelist.Lifecycle.{all_free-IsFreelist, free-all_free}
use waeio.Wasio.{Pollfd}
use waeio.Wasio.Table.{Wfd, State, unused, initialised, Exports}

-- How many of the first `n` entries are free.
unfoldable pub free_count : ℕ → Freelist → ℕ
free_count zero fl = 0
free_count (suc n) fl = free_count n fl + free fl n

pub free_count-le : (n : ℕ) (fl : Freelist) → free_count n fl ≤ n
unfolding free_count
free_count-le zero fl = omega arith
free_count-le (suc n) fl = omega (arith, free_count-le n fl, free-le-one fl n)

-- A change at an entry at or above `n` does not count.
free_count_above :
    (n e v : ℕ) (fl fl' : Freelist)
    → ((j : ℕ) → free fl' j ≡ (if e == j then v else free fl j))
    → n ≤ e
    → free_count n fl' ≡ free_count n fl
unfolding free_count
free_count_above zero e v fl fl' h le = refl
free_count_above (suc n) e v fl fl' h le =
    let same : free fl' n ≡ free fl n = ground (arith, h n) in
    omega (arith, same, free_count_above n e v fl fl' h (omega arith))

-- A change of one entry below `n` changes the count by as much.
pub free_count_change :
    (n e v : ℕ) (fl fl' : Freelist)
    → ((j : ℕ) → free fl' j ≡ (if e == j then v else free fl j))
    → e < n
    → free_count n fl' + free fl e ≡ free_count n fl + v
unfolding free_count
free_count_change zero e v fl fl' h lt = absurd (omega arith)
free_count_change (suc n) e v fl fl' h lt = elim (Bool-cases (e == n)) [
  | inl last ↦
      let q : e ≡ n = (==_iff _ _).0 last in
      let new : free fl' n ≡ v = ground (arith, h n) in
      let old : free fl e ≡ free fl n = rw q in
      omega (arith, new, old, free_count_above n e v fl fl' h (omega (arith, q)))
  | inr other ↦
      let below : e < n = ground arith in
      let same : free fl' n ≡ free fl n = ground (arith, h n) in
      omega (arith, same, free_count_change n e v fl fl' h below)
]

pub free_count-all_free :
    (n : ℕ) (fl : Freelist) → ((j : ℕ) → j < n → free fl j ≡ 1) → free_count n fl ≡ n
unfolding free_count
free_count-all_free zero fl h = refl
free_count-all_free (suc n) fl h =
    omega (arith, h n (omega arith), free_count-all_free n fl (λ j lt. h j (omega arith)))

pub free_count-none :
    (n : ℕ) (fl : Freelist) → ((j : ℕ) → j < n → free fl j ≢ 1) → free_count n fl ≡ 0
unfolding free_count
free_count-none zero fl h = refl
free_count-none (suc n) fl h =
    omega
      (arith, h n (omega arith), free-le-one fl n, free_count-none n fl (λ j lt. h j (omega arith)))

-- The entry that is polled for a virtual descriptor names the host's descriptor that it translates
-- to.
abbrev pub Agrees : Wfd → Type 0
Agrees wfd = (e : ℕ) → (get_or wfd.vfds e unused).fd ≡ get_or wfd.fds e minus_one

-- Writing one descriptor into both arrays keeps their agreement.
pub set-Agrees :
    (wfd : Wfd) (e : ℕ) (entry : Pollfd) (fd : ℤ)
    → e < length wfd.vfds
    → e < length wfd.fds
    → entry.fd ≡ fd
    → Agrees wfd
    → Agrees (record wfd { vfds = set wfd.vfds e entry; fds = set wfd.fds e fd })
set-Agrees wfd e entry fd inside inside' same h j = elim (Bool-cases (e == j)) [
  | inl here ↦
      let q : e ≡ j = (==_iff _ _).0 here in
      rw (← q) (
        ap (λ (p : Pollfd). p.fd) (get_or-set_self wfd.vfds e entry unused inside)
        ∙ same
        ∙ sym (get_or-set_self wfd.fds e fd minus_one inside'))
  | inr other ↦
      let ne : (e ≢ j) = ground arith in
      ap (λ (p : Pollfd). p.fd) (get_or-set_ne wfd.vfds e j entry unused ne)
      ∙ h j
      ∙ sym (get_or-set_ne wfd.fds e j fd minus_one ne)
]

-- The table's lists have an entry for each virtual descriptor and agree on the host's descriptor; a
-- free virtual descriptor translates to -1, and `length` counts those in use.
pub record IsTable (wfd : Wfd) : Type 0 where
  pub list : Freelist
  pub list_is : wfd.fl ≡ live list
  pub invariant : IsFreelist list
  pub size_eq : list.size ≡ wfd.capacity
  pub aligned : IsAligned wfd.capacity
  pub vfds_room : length wfd.vfds ≡ wfd.capacity
  pub fds_room : length wfd.fds ≡ wfd.capacity
  pub unused_fd :
      (e : ℕ) → e < wfd.capacity → free list e ≡ 1 → get_or wfd.fds e minus_one ≡ minus_one
  pub agrees : Agrees wfd
  pub counted : wfd.length + free_count wfd.capacity list ≡ wfd.capacity

-- A free descriptor is not polled.
pub unused_vfd :
    {wfd : Wfd} (t : IsTable wfd) (e : ℕ)
    → e < wfd.capacity
    → free t.list e ≡ 1
    → (get_or wfd.vfds e unused).fd ≡ minus_one
unused_vfd t e h one = t.agrees e ∙ t.unused_fd e h one

-- The host's descriptor that a virtual descriptor is bound to.
unfoldable pub lookup : Freelist → List ℤ → ℕ → Option ℤ
lookup list fds e = if free list e == 1 then none else some (get_or fds e minus_one)

pub lookup-free :
    (list : Freelist) (fds : List ℤ) (e : ℕ) → free list e ≡ 1 → lookup list fds e ≡ none
unfolding lookup
lookup-free list fds e h = ground arith

pub lookup-taken :
    (list : Freelist) (fds : List ℤ) (e : ℕ)
    → free list e ≡ 0
    → lookup list fds e ≡ some (get_or fds e minus_one)
unfolding lookup
lookup-taken list fds e h = ground arith

replicate-Agrees :
    (n e : ℕ)
    → (get_or (replicate n unused) e unused).fd ≡ get_or (replicate n minus_one) e minus_one
replicate-Agrees zero e = refl
replicate-Agrees (suc n) zero = refl
replicate-Agrees (suc n) (suc e) = replicate-Agrees n e

-- `wasio_init` makes an empty table.
pub initialised-IsTable :
    {W : Type 0} (exports : Exports) (s : State W) (n : ℕ)
    → 0 < n
    → n < u32_mod
    → IsAligned n
    → IsTable (initialised exports s n (live (all_free n))).wfd
unfolding initialised
initialised-IsTable exports s n positive word al = record {
  list = all_free n;
  list_is = refl;
  invariant = all_free-IsFreelist n positive word;
  size_eq = unfold all_free in refl;
  aligned = al;
  vfds_room = length-replicate n unused;
  fds_room = length-replicate n minus_one;
  unused_fd = λ e h _. get_or-replicate n e minus_one minus_one h;
  agrees = replicate-Agrees n;
  counted = omega (arith, free_count-all_free n (all_free n) all_one);
}
  where
    all_one : (j : ℕ) → j < n → free (all_free n) j ≡ 1
    all_one j h =
        let size : (all_free n).size ≡ n = unfold all_free in refl in
        free-all_free n j (
          lt-len_of_lt-size (all_free n) j (all_free-IsFreelist n positive word)
            (omega (arith, size)))
