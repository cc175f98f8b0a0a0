-- ===== src/Echoserver/Safe.antt =====
-- examples/echoserver/echoserver.c: code that makes no access out of range, whatever the host answers.
use waeio.Prelude.{
  ℕ, ◌≡◌, ◌⊎◌, refl, sym, ap, ◌∙◌, subst, inl, inr, Bool, true, false, length, Outcome, done,
  aborted, ◌>>=◌, assert, if◌then◌else◌,
}
use waeio.Wasio.{WasioResult}
use waeio.Wasio.Table.{State}
use waeio.Wasio.Table.Invariant.{IsTable}
use waeio.Wasio.Table.Results.{Normal}
use waeio.Httpserver.WasioFiber.{is_ok}
use waeio.Echoserver.{Server, notified}

module _ {W : Type 0} where
  -- The table satisfies its invariant, and each of its `cap` descriptors has a place for a buffer.
  pub record Sound (cap : ℕ) (s : Server W) : Type 0 where
    pub table : IsTable s.wasio.wfd
    pub capacity_is : s.wasio.wfd.capacity ≡ cap
    pub room : length s.buffers ≡ cap

  -- A failed assertion, or a normal return with the server as it has to be.
  pub Safe : {A : Type 0} → (A → Server W) → ℕ → Outcome A → Type 0
  Safe {A} server cap o = (o ≡ aborted) ⊎ ((a : A) × (o ≡ done a) × Sound cap (server a))

  pub returns-Safe :
      {A : Type 0} (f : A → Server W) (cap : ℕ) (a : A) → Sound cap (f a) → Safe f cap (done a)
  unfolding Safe
  returns-Safe f cap a x = inr (a, refl, x)

  pub bind-Safe :
      {A B : Type 0} (f : A → Server W) (g : B → Server W) (cap : ℕ) (o : Outcome A)
      (k : A → Outcome B)
      → Safe f cap o
      → ((a : A) → Sound cap (f a) → Safe g cap (k a))
      → Safe g cap (o >>= k)
  unfolding Safe
  bind-Safe f g cap o k (inl q) next = inl (ap (λ x. x >>= k) q)
  bind-Safe f g cap o k (inr (a, q, x)) next = subst (λ x. Safe g cap (x >>= k)) (sym q) (next a x)

  pub assert-Safe :
      {B : Type 0} (g : B → Server W) (cap : ℕ) (b : Bool) (k : Unit {0} → Outcome B)
      → (b ≡ true → Safe g cap (k tt))
      → Safe g cap (assert b >>= k)
  unfolding Safe
  assert-Safe g cap true k next = next refl
  assert-Safe g cap false k next = inl refl

  pub choice-Safe :
      {A : Type 0} (f : A → Server W) (cap : ℕ) (b : Bool) (x y : Outcome A)
      → Safe f cap x
      → Safe f cap y
      → Safe f cap (if b then x else y)
  choice-Safe f cap true x y p q = p
  choice-Safe f cap false x y p q = q

  -- A call of the backend, after which the server is the same around the new table.
  pub call-Safe :
      {A B : Type 0} (state : A → State W) (g : B → Server W) (cap cap' : ℕ) (o : Outcome A)
      (k : A → Outcome B)
      → (x : Normal state cap' o) → Safe g cap (k x.result)
      → Safe g cap (o >>= k)
  call-Safe state g cap cap' o k x next = subst (λ m. Safe g cap (m >>= k)) (sym x.returns) next

  -- The server around the table that a call leaves.
  pub with_table :
      {A : Type 0} {state : A → State W} {cap : ℕ} {o : Outcome A} (s : Server W)
      (x : Normal state s.wasio.wfd.capacity o)
      → Sound cap s
      → Sound cap (record s { wasio = state x.result })
  with_table s x d = record {
    table = x.table;
    capacity_is = x.capacity_is ∙ d.capacity_is;
    room = d.room;
  }

  pub notified-Safe :
      (cap : ℕ) (s : Server W) (o : Outcome (WasioResult × State W))
      → Sound cap s
      → Normal (λ r. r.1) s.wasio.wfd.capacity o
      → Safe (λ t. t) cap (notified s o)
  unfolding notified
  notified-Safe cap s o d x =
      call-Safe (λ r. r.1) (λ t. t) cap s.wasio.wfd.capacity o _ x
        (assert-Safe (λ t. t) cap (is_ok x.result.0) _
          (λ q. returns-Safe (λ t. t) cap _ (with_table s x d)))
