-- ===== src/Freelist/Suite.antt =====
-- test/freelist_tests.c: `main`, for a machine on which every allocation succeeds. New words of a resize
-- hold nothing.
use waeio.Prelude.{
  ℕ, ◌==◌, ◌&&◌, true, [], some, Outcome, done, fault, ◌>>=◌, ◌>>◌, assert, or_fault,
}
use waeio.Freelist.{
  Freelist, FreelistResult, FreelistPtr, null, freed, live, ok, full, mem_err, size_err, ob_entry,
  freelist_new, freelist_delete, freelist_next, freelist_reclaim, freelist_resize,
}
use waeio.Freelist.Fill.{fill_list}

-- The numbers of `freelist_result_t`.
abbrev number : FreelistResult → ℕ
number ok = 0
number full = 1
number mem_err = 2
number size_err = 3
number ob_entry = 4

-- `assert(... == result)`
abbrev expect : FreelistResult → FreelistResult → Outcome (Unit {0})
expect result actual = assert (number actual == number result)

abbrev deref : FreelistPtr → Outcome Freelist
deref null = fault
deref freed = fault
deref (live fl) = done fl

-- `assert(freelist_next(fl, &entry) == FREELIST_OK && entry == e)`
unfoldable pub expect_next : ℕ → Freelist → Outcome Freelist
expect_next e fl =
    or_fault (freelist_next fl 0) >>= λ r. assert ((number r.0 == 0) && (r.2 == e)) >> done (r.1)

-- `assert(freelist_next(fl, &entry) == FREELIST_FULL)`
unfoldable pub expect_full : Freelist → Outcome Freelist
expect_full fl = or_fault (freelist_next fl 0) >>= λ r. expect full r.0 >> done (r.1)

-- `assert(freelist_reclaim(fl, e) == result)`
unfoldable pub expect_reclaim : FreelistResult → ℕ → Freelist → Outcome Freelist
expect_reclaim result e fl =
    or_fault (freelist_reclaim fl e) >>= λ r. expect result r.0 >> done (r.1)

-- `assert(freelist_new(n, &fl) == FREELIST_OK)`
unfoldable pub expect_new : ℕ → Outcome Freelist
expect_new n = let r = freelist_new n true null in expect ok r.0 >> deref r.1

-- `assert(freelist_resize(&fl, n) == FREELIST_OK)`
unfoldable pub expect_resize : ℕ → Freelist → Outcome Freelist
expect_resize n fl =
    or_fault (freelist_resize (live fl) n (some [])) >>= λ r. expect ok r.0 >> deref r.1

unfoldable pub filled : ℕ → Freelist → Outcome Freelist
filled n fl = or_fault (fill_list n fl) >>= λ r. expect_full (r.1)

unfoldable pub deleted : Freelist → Outcome (Unit {0})
deleted fl = or_fault (freelist_delete (live fl)) >>= λ p. done tt

-- The tests with a small list, after the one of allocation.
unfoldable pub small_list : Outcome (Unit {0})
small_list = do
  expect size_err (freelist_new 0 true null).0
  new ← expect_new 3
  four ← expect_resize 4 new
  all_taken ← filled 4 four
  a ← expect_reclaim ok 3 all_taken
  b ← expect_next 3 a
  c ← expect_full b
  d ← expect_reclaim ok 0 c
  e ← expect_next 0 d
  f ← expect_reclaim ok 1 e
  g ← expect_next 1 f
  h ← expect_reclaim ok 2 g
  i ← expect_next 2 h
  j ← expect_reclaim ob_entry 4 i
  deleted j

unfoldable pub larger_list : Outcome (Unit {0})
larger_list = do
  new ← expect_new 128
  all_taken ← filled 128 new
  a ← expect_reclaim ok 67 all_taken
  b ← expect_next 67 a
  c ← expect_reclaim ob_entry 256 b
  deleted c

unfoldable pub resizes : Outcome (Unit {0})
resizes = do
  new ← expect_new 3
  a ← expect_next 0 new
  four ← expect_resize 4 a
  b ← expect_next 1 four
  one ← expect_resize 1 b
  c ← expect_reclaim ob_entry 1 one
  d ← expect_full c
  e ← expect_reclaim ok 0 d
  deleted e

unfoldable pub main : Outcome (Unit {0})
main = small_list >> larger_list >> resizes
