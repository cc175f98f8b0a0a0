-- ===== src/Prelude/Effects.antt =====
-- How a piece of C code ends: normally, by a failed assertion or `abort`, or with an access that the
-- language leaves undefined.
use Prim.Native.Nat.{ℕ, zero, suc, ◌<◌, ◌≤◌}
use mathlib.Core.Path.{◌≡◌, refl}
use mathlib.Core.Bool.{Bool, true, false}
use mathlib.Core.List.{List, [], ◌∷◌}
use mathlib.Core.Option.{Option, none, some}
use native.Mathlib.Omega.{arith}
use waeio.Prelude.Lists.{length, get_elem?, get_or, set, get_elem?-eq-get_or}
use waeio.Prelude.Int.{ℤ, pos, negsuc}
use waeio.Prelude.Tests.{ltb, lt→ltb}

pub data Outcome {ℓ} (A : Type ℓ) : Type ℓ where
  done : A → Outcome A
  aborted fault : Outcome A

infixl 5 ◌>>=◌ ◌>>◌
abbrev pub ◌>>=◌ {ℓ κ} : {A : Type ℓ} {B : Type κ} → Outcome A → (A → Outcome B) → Outcome B
done a >>= f = f a
aborted >>= f = aborted
fault >>= f = fault

abbrev pub ◌>>◌ {ℓ} : {B : Type ℓ} → Outcome (Unit {0}) → Outcome B → Outcome B
m >> k = m >>= λ _. k

-- Where the rounds of a loop may run out: `none` stops what follows.
infixl 5 ◌>>?◌
abbrev pub ◌>>?◌ {ℓ κ} :
    {A : Type ℓ} {B : Type κ} → Outcome (Option A) → (A → Outcome (Option B)) → Outcome (Option B)
done none >>? f = done none
done (some a) >>? f = f a
aborted >>? f = aborted
fault >>? f = fault

-- `assert`
abbrev pub assert : Bool → Outcome (Unit {0})
assert true = done tt
assert false = aborted

abbrev pub or_fault {ℓ} : {A : Type ℓ} → Option A → Outcome A
or_fault none = fault
or_fault (some a) = done a

-- `xs[i]` as a value and as the target of an assignment. A negative index is out of range.
module _ {ℓ} {A : Type ℓ} where
  abbrev pub read : List A → ℤ → Outcome A
  read xs (pos i) = or_fault (get_elem? xs i)
  read xs (negsuc i) = fault

  write_checked : Bool → List A → Outcome (List A)
  write_checked true xs = done xs
  write_checked false xs = fault

  unfoldable pub write : List A → ℤ → A → Outcome (List A)
  unfolding write_checked
  write xs (pos i) a = write_checked (ltb i (length xs)) (set xs i a)
  write xs (negsuc i) a = fault

module _ {ℓ} {A : Type ℓ} where
  pub read_in_range :
      (xs : List A) (i : ℕ) (d : A) → i < length xs → read xs (pos i) ≡ done (get_or xs i d)
  read_in_range xs i d h = rw (get_elem?-eq-get_or xs i d h)

  get_elem?-beyond : (xs : List A) (i : ℕ) → length xs ≤ i → get_elem? xs i ≡ none
  get_elem?-beyond [] i h = refl
  get_elem?-beyond (x ∷ xs) zero h = absurd (omega arith)
  get_elem?-beyond (x ∷ xs) (suc i) h = get_elem?-beyond xs i (omega arith)

  pub read_beyond : (xs : List A) (i : ℕ) → length xs ≤ i → read xs (pos i) ≡ fault
  read_beyond xs i h = rw (get_elem?-beyond xs i h) refl

  pub write_in_range :
      (xs : List A) (i : ℕ) (a : A) → i < length xs → write xs (pos i) a ≡ done (set xs i a)
  unfolding write
  write_in_range xs i a h = rw (lt→ltb _ _ h)
