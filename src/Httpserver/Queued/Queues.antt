-- ===== src/Httpserver/Queued/Queues.antt =====
-- examples/httpserver/httpserver.c: the bounded queue of closures, as the list of what was pushed.
use waeio.Prelude.{
  ℕ, zero, suc, ◌+◌, ◌<◌, ◌≤◌, ◌≡◌, ◌⊎◌, refl, ap, ◌∙◌, arith, inl, inr, List, [], ◌∷◌, ◌++◌,
  length, set, take, length-set, add32, u32_mod, ltb, ltb→lt, ltb_false→le, Bool-cases, Outcome,
  done, aborted, write_in_range,
}
use waeio.Httpserver.WasioFiber.{FiberClosure}
use waeio.Httpserver.Queued.{FiberQueue, fq_push}

-- The closures in the queue, in the order in which they were pushed.
unfoldable pub queued : FiberQueue → List FiberClosure
queued fq = take fq.length fq.q

pub record IsQueue (fq : FiberQueue) : Type 0 where
  pub room : length fq.q ≡ fq.capacity
  pub within : fq.length ≤ fq.capacity
  pub word : fq.capacity < u32_mod

take-set :
    {A : Type 0} (n : ℕ) (xs : List A) (x : A)
    → n < length xs
    → take (suc n) (set xs n x) ≡ take n xs ++ (x ∷ [])
take-set n [] x h = absurd (omega (arith, h))
take-set zero (y ∷ ys) x h = refl
take-set (suc n) (y ∷ ys) x h = ap (◌∷◌ y) (take-set n ys x (omega (arith, h)))

-- A queue after a push.
pub record Pushed (fq : FiberQueue) (clo : FiberClosure) (o : Outcome FiberQueue) : Type 0 where
  pub after : FiberQueue
  pub returns : o ≡ done after
  pub queue : IsQueue after
  pub queued_is : queued after ≡ queued fq ++ (clo ∷ [])
  pub same_capacity : after.capacity ≡ fq.capacity
  pub length_is : after.length ≡ fq.length + 1

-- Pushing on a queue with room makes no access out of its block and adds the closure behind those in
-- the queue; pushing on a full queue aborts.
pub fq_push_cases :
    (fq : FiberQueue) (clo : FiberClosure)
    → IsQueue fq
    → ((fq.length < fq.capacity) × Pushed fq clo (fq_push fq clo))
      ⊎ ((fq.length ≡ fq.capacity) × (fq_push fq clo ≡ aborted))
unfolding fq_push queued
fq_push_cases fq clo h = elim (Bool-cases (ltb fq.length fq.capacity)) [
  | inl below ↦
      let room : fq.length < fq.capacity = ltb→lt _ _ below in
      let inside : fq.length < length fq.q = omega (arith, room, h.room) in
      let next : add32 fq.length 1 ≡ fq.length + 1 = omega (arith, room, h.word) in
      let one_more : fq.length + 1 ≡ suc fq.length = omega arith in
      inl (
        room,
        record {
          after = record fq { q = set fq.q fq.length clo; length = fq.length + 1 };
          returns = rw (below, write_in_range fq.q fq.length clo inside, next) refl;
          queue = record {
            room = length-set fq.q fq.length clo ∙ h.room;
            within = omega (arith, room);
            word = h.word;
          };
          queued_is =
              ap (λ n. take n (set fq.q fq.length clo)) one_more
              ∙ take-set fq.length fq.q clo inside;
          same_capacity = refl;
          length_is = refl;
        },
      )
  | inr full ↦ inr (omega (arith, ltb_false→le _ _ full, h.within), rw full refl)
]
