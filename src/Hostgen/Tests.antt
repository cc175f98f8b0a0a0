-- ===== src/Hostgen/Tests.antt =====
-- utils/hostgen.c: two names of one number.
use waeio.Prelude.{ℕ, ◌≡◌, arith, List, [], ◌∷◌, All, done, length, refl}
use Prim.Native.String.{String}
use waeio.Hostgen.{ErrnoItem, errno_names, errno_items_count, emit_errno_c, around_cases}
use waeio.Hostgen.Errno.{case_lines, firsts, Distinct, HasCode, emit_errno_c_cases}

abbrev message : ℕ → String
message n = "again"

abbrev two_names : List ErrnoItem
two_names = record { name = "EAGAIN"; code = 11 } ∷ record { name = "EWOULDBLOCK"; code = 11 } ∷ []

-- The table has as many entries as the array.
names_count : length errno_names ≡ errno_items_count
names_count = refl

emit_errno_c_cases_example :
    (emit_errno_c message two_names ≡ done (around_cases (case_lines message (firsts two_names))))
    × Distinct (firsts two_names)
    × All (λ (x : ErrnoItem). HasCode x.code (firsts two_names)) two_names
emit_errno_c_cases_example = emit_errno_c_cases message two_names (omega arith, (omega arith, tt))
