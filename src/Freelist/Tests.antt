-- ===== src/Freelist/Tests.antt =====
-- src/freelist.c: the runs of test/freelist_tests.c, and the theorems at concrete lists.
use waeio.Prelude.{
  ℕ, ◌*◌, ◌/◌, ◌%◌, ◌-◌, get_or, ◌<◌, ◌≤◌, ◌≡◌, refl, ◌⊎◌, inl, inr, arith, [], ◌∷◌, some, none,
  done, if◌then◌else◌, ltb, not32, shl_one, bit,
}
use waeio.Freelist.{
  freelist_new, ok, full, ob_entry, Freelist, freed, live, all_free, freelist_next,
  freelist_reclaim, freelist_resize, freelist_delete, calc_vector_len,
}
use waeio.Freelist.Suite.{
  main, small_list, larger_list, resizes, expect_next, expect_full, expect_reclaim, expect_new,
  expect_resize, filled, deleted,
}
use waeio.Freelist.View.{free, IsFreelist, Eligible}
use waeio.Freelist.Next.{Found, Exhausted, freelist_next_cases}
use waeio.Freelist.Reclaim.{Reclaimed, freelist_reclaim_cases}
use waeio.Freelist.Lifecycle.{all_free-IsFreelist, freelist_resize_keeps}
use waeio.Freelist.Bounds.{Eligible-lt}
use waeio.Freelist.Fill.{capacity, fill_list, range_from, fill_list-all_free}
use waeio.Freelist.Clients.{Client, take, Reach, here, next, IsConserved, Reach-all_free}

-- Three entries in one word, all taken.
abbrev taken_three : Freelist
taken_three = record { size = 3; len = 1; vector = 0xffff_fff8 ∷ [] }

fill_three : fill_list 3 (all_free 3) ≡ some (0 ∷ 1 ∷ 2 ∷ [], taken_three)
unfolding fill_list freelist_next all_free calc_vector_len not32 shl_one
fill_three = refl

full_three : freelist_next taken_three 7 ≡ some (full, taken_three, 7)
unfolding freelist_next
full_three = refl

reclaim_three : freelist_reclaim taken_three 3 ≡ some (ob_entry, taken_three)
unfolding freelist_reclaim
reclaim_three = refl

reclaim_67 :
    freelist_reclaim (record { size = 128; len = 4; vector = 0 ∷ 0 ∷ 0 ∷ 0 ∷ [] }) 67
    ≡ some (ok, record { size = 128; len = 4; vector = 0 ∷ 0 ∷ 8 ∷ 0 ∷ [] })
unfolding freelist_reclaim shl_one
reclaim_67 = refl

next_67 :
    freelist_next (record { size = 128; len = 4; vector = 0 ∷ 0 ∷ 8 ∷ 0 ∷ [] }) 0
    ≡ some (ok, record { size = 128; len = 4; vector = 0 ∷ 0 ∷ 0 ∷ 0 ∷ [] }, 67)
unfolding freelist_next not32 shl_one
next_67 = refl

-- A shrunk list refuses the entries that it no longer has.
shrink :
    freelist_resize (live taken_three) 1 (some [])
    ≡ some (ok, live (record { size = 1; len = 1; vector = 0xffff_fff8 ∷ [] }))
unfolding freelist_resize calc_vector_len
shrink = refl

-- The caller's pointer is not reset, so a second `free` is a fault.
delete_twice : (freelist_delete (live taken_three) ≡ some freed) × (freelist_delete freed ≡ none)
unfolding freelist_delete
delete_twice = (refl, refl)

three-IsFreelist : IsFreelist (all_free 3)
three-IsFreelist = all_free-IsFreelist 3 (omega arith) (omega arith)

taken_three-IsFreelist : IsFreelist taken_three
unfolding calc_vector_len
taken_three-IsFreelist = record {
  positive = omega arith;
  fits = omega arith;
  len_eq = refl;
  same_length = refl;
  words = omega arith;
}

first_call : Found (all_free 3) (freelist_next (all_free 3) 0)
unfolding all_free calc_vector_len bit free
first_call = elim (freelist_next_cases (all_free 3) three-IsFreelist 0) [
  | inl x ↦ x
  | inr x ↦ absurd (x.1 0 (omega arith, omega arith, refl))
]

first_call_in_range : first_call.taken < (all_free 3).size
first_call_in_range =
    Eligible-lt (all_free 3) first_call.taken three-IsFreelist small first_call.eligible
  where
    small : ((all_free 3).size ≤ 32) ⊎ ((all_free 3).size % 32 ≡ 0)
    small = inl (unfold all_free in omega arith)

none_left : (j : ℕ) → ¬ Eligible taken_three j
none_left = elim (freelist_next_cases taken_three taken_three-IsFreelist 7) [
  | inl x ↦ λ j e. cc (x.returns, full_three)
  | inr x ↦ x.1
]

freelist_next_cases_example :
    Found taken_three (freelist_next taken_three 7)
    ⊎ Exhausted taken_three 7 (freelist_next taken_three 7)
freelist_next_cases_example = freelist_next_cases taken_three taken_three-IsFreelist 7

freelist_reclaim_cases_example :
    ((3 ≤ 2) × (freelist_reclaim taken_three 2 ≡ some (ob_entry, taken_three)))
    ⊎ ((2 < 3) × Reclaimed taken_three 2 (freelist_reclaim taken_three 2))
freelist_reclaim_cases_example = freelist_reclaim_cases taken_three 2 taken_three-IsFreelist

-- One word grows to two, and the new memory happens to be zero.
freelist_resize_keeps_example :
    (fl' : Freelist) × (freelist_resize (live taken_three) 64 (some (0 ∷ [])) ≡ some (ok, live fl'))
    × (fl'.size ≡ 64)
    × IsFreelist fl'
    × ((j : ℕ)
        → j < 32 * calc_vector_len 64
        → free fl' j ≡ (
            if ltb j (32 * 1)
            then free taken_three j
            else bit (get_or (0 ∷ []) (j / 32 - 1) 0) (j % 32)))
freelist_resize_keeps_example =
    freelist_resize_keeps taken_three 64 (0 ∷ []) taken_three-IsFreelist (omega arith) (omega arith)
      (unfold calc_vector_len in omega arith) (omega arith)

fill_list-all_free_example :
    (fl : Freelist) × (fill_list 3 (all_free 3) ≡ some (range_from 0 3, fl))
    × (3 ≡ capacity 3 → freelist_next fl 0 ≡ some (full, fl, 0))
fill_list-all_free_example = fill_list-all_free 3 3 (omega arith) (omega arith) (omega arith)

-- A client that has taken one entry of three.
one_taken : Client
one_taken = record { list = first_call.rest; owned = first_call.taken ∷ [] }

one_taken-Reach : Reach (record { list = all_free 3; owned = [] }) one_taken
unfolding one_taken
one_taken-Reach = next here (take first_call.rest first_call.taken first_call.returns)

Reach-all_free_example : IsConserved 3 one_taken
Reach-all_free_example =
    Reach-all_free 3 one_taken (omega arith) (omega arith) (inl (omega arith)) one_taken-Reach

-- The whole run of the tests ends with no failed assertion.
suite_passes : main ≡ done tt
unfolding main small_list larger_list resizes expect_next expect_full expect_reclaim expect_new
    expect_resize filled deleted freelist_new freelist_delete freelist_next freelist_reclaim
    freelist_resize fill_list all_free calc_vector_len not32 shl_one
suite_passes = refl
