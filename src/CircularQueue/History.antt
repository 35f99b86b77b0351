-- ===== src/CircularQueue/History.antt =====
-- include/cpph/container/circular_queue.hxx against a bounded sequence, over any history of calls.
use cppheaders.Prelude.{
  ℕ, ◌≡◌, refl, Bool, Option, none, some, List, [], ◌∷◌, ◌++◌, arith, ◌==◌, if◌then◌else◌, length,
  ◌>>=◌, Bool-cases, inl, inr, >>=-some, ==_iff,
}
use cppheaders.CircularQueue.{CircularQueue, push, pop, rotate, dequeue}
use cppheaders.CircularQueue.Bulk.{clear}
use cppheaders.CircularQueue.Holds.{Holds}
use cppheaders.CircularQueue.Ends.{
  push-Holds, push_full, pop-Holds, pop_empty, dequeue-Holds, dequeue_empty,
}
use cppheaders.CircularQueue.Drain.{clear-Holds}
use cppheaders.CircularQueue.Refine.{bounded_append, rotate-Holds, rotate-none}

pub data Op {ℓ} (A : Type ℓ) : Type ℓ where
  pushes rotates : A → Op A
  pops dequeues clears : Op A

module _ {ℓ} {A : Type ℓ} where
  -- One call on the bounded sequence: what it returns and what it leaves, or `none` where the code
  -- asserts.
  pub spec_step : ℕ → List A → Op A → Option (Option A × List A)
  unfolding bounded_append
  spec_step c xs (pushes x) = if length xs == c then none else some (none, xs ++ x ∷ [])
  spec_step c xs (rotates x) = if c == 0 then none else some (none, bounded_append c xs x)
  spec_step c [] pops = none
  spec_step c (x ∷ xs) pops = some (none, xs)
  spec_step c [] dequeues = none
  spec_step c (x ∷ xs) dequeues = some (some x, xs)
  spec_step c xs clears = some (none, [])

  pub step : Bool → CircularQueue A → Op A → Option (Option A × CircularQueue A)
  step trivial q (pushes x) = push q x >>= λ q'. some (none, q')
  step trivial q (rotates x) = rotate q x >>= λ q'. some (none, q')
  step trivial q pops = pop q >>= λ q'. some (none, q')
  step trivial q dequeues = dequeue q >>= λ (x, q'). some (some x, q')
  step trivial q clears = clear trivial q >>= λ q'. some (none, q')

  -- The answers of a history of calls.
  pub spec_run : ℕ → List A → List (Op A) → Option (List (Option A))
  spec_run c xs [] = some []
  spec_run c xs (op ∷ ops) =
      spec_step c xs op >>= λ (out, xs'). spec_run c xs' ops >>= λ outs. some (out ∷ outs)

  pub run : Bool → CircularQueue A → List (Op A) → Option (List (Option A))
  run trivial q [] = some []
  run trivial q (op ∷ ops) =
      step trivial q op >>= λ (out, q'). run trivial q' ops >>= λ outs. some (out ∷ outs)

  -- A call of the specification and one of the code: both fail, or they return the same and leave a
  -- sequence and a queue that holds it.
  abbrev Agrees : ℕ → Option (Option A × List A) → Option (Option A × CircularQueue A) → Type ℓ
  Agrees c none r = r ≡ none
  Agrees c (some (out, ys)) r = (q' : CircularQueue A) × (r ≡ some (out, q')) × Holds c q' ys

  step-Agrees :
      (c : ℕ) (trivial : Bool) (q : CircularQueue A) (xs : List A) (op : Op A)
      → Holds c q xs
      → Agrees c (spec_step c xs op) (step trivial q op)
  unfolding spec_step step
  step-Agrees c trivial q xs (pushes x) h = elim (Bool-cases (length xs == c)) [
    | inl full ↦ rw (full, push_full h x ((==_iff _ _).0 full)) refl
    | inr space ↦
        let (q', run, h') = push-Holds h x (ground (arith, h.fits)) in
        rw space (q', >>=-some (push q x) _ run refl, h')
  ]
  step-Agrees c trivial q xs (rotates x) h = elim (Bool-cases (c == 0)) [
    | inl no_room ↦ rw (no_room, rotate-none q xs x h ((==_iff _ _).0 no_room)) refl
    | inr space ↦
        let (q', run, h') = rotate-Holds q xs x h (ground arith) in
        rw space (q', >>=-some (rotate q x) _ run refl, h')
  ]
  step-Agrees c trivial q [] pops h = rw (pop_empty h) refl
  step-Agrees c trivial q (x ∷ xs) pops h =
      let (q', run, h') = pop-Holds h in (q', >>=-some (pop q) _ run refl, h')
  step-Agrees c trivial q [] dequeues h = rw (dequeue_empty h) refl
  step-Agrees c trivial q (x ∷ xs) dequeues h =
      let (q', run, h') = dequeue-Holds h in (q', >>=-some (dequeue q) _ run refl, h')
  step-Agrees c trivial q xs clears h =
      let (q', run, h') = clear-Holds trivial q xs h in
      (q', >>=-some (clear trivial q) _ run refl, h')

  after-Agrees :
      (c : ℕ) (trivial : Bool) (ops : List (Op A)) (spec : Option (Option A × List A))
      (code : Option (Option A × CircularQueue A))
      → Agrees c spec code
      → ((q : CircularQueue A) (xs : List A) → Holds c q xs → run trivial q ops ≡ spec_run c xs ops)
      → (code >>= λ (out, q'). run trivial q' ops >>= λ outs. some (out ∷ outs))
        ≡ (spec >>= λ (out, xs'). spec_run c xs' ops >>= λ outs. some (out ∷ outs))
  after-Agrees c trivial ops none code agrees later = rw agrees refl
  after-Agrees c trivial ops (some (out, ys)) code (q', e, h) later = rw (e, later q' ys h) refl

  -- No history of calls tells a queue from the bounded sequence that it holds: the answers are the
  -- same, and the code asserts exactly where the specification has no answer.
  pub run_refines :
      (c : ℕ) (trivial : Bool) (ops : List (Op A)) (q : CircularQueue A) (xs : List A)
      → Holds c q xs
      → run trivial q ops ≡ spec_run c xs ops
  unfolding run spec_run
  run_refines c trivial [] q xs h = refl
  run_refines c trivial (op ∷ ops) q xs h =
      after-Agrees c trivial ops (spec_step c xs op) (step trivial q op)
        (step-Agrees c trivial q xs op h) (λ r ys h'. run_refines c trivial ops r ys h')
