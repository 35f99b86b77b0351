-- ===== src/CircularQueue/Tests.antt =====
-- include/cpph/container/circular_queue.hxx on a concrete queue.
use cppheaders.Prelude.{
  ℕ, zero, suc, ◌<◌, ◌≡◌, refl, true, false, Option, none, some, [], ◌∷◌, arith, get_elem?,
}
use cppheaders.CircularQueue.{CircularQueue, read, next, room, is_full, push}
use cppheaders.CircularQueue.Bulk.{dequeue_n, enqueue_n, for_each, visit}
use cppheaders.CircularQueue.Copy.{reserve_shrink}
use cppheaders.CircularQueue.Holds.{Holds, spot}
use cppheaders.CircularQueue.Drain.{dequeue_n-Holds}
use cppheaders.CircularQueue.Enqueue.{enqueue_n-Holds}
use cppheaders.CircularQueue.History.{
  run, spec_run, pushes, rotates, pops, dequeues, clears, run_refines,
}
use cppheaders.CircularQueue.Resize.{reserve_shrink-Holds, reserve_shrink_zero}

-- 7, then 8 and 9 round the end of the chunks; a queue of capacity 3.
abbrev slots : ℕ → Option ℕ
slots zero = some 8
slots (suc zero) = some 9
slots (suc (suc zero)) = none
slots (suc (suc (suc n))) = some 7

abbrev wrapped : CircularQueue ℕ
wrapped = record { capacity = 4; chunks = 4; slot = slots; head = 2; tail = 3 }

wrapped-Holds : Holds 3 wrapped (7 ∷ 8 ∷ 9 ∷ [])
wrapped-Holds = record {
  small = omega arith;
  slots = refl;
  storage = λ p. refl;
  tail_in = omega arith;
  fits = omega arith;
  head_at = refl;
  stored = stored;
}
  where
    stored : (i : ℕ) → i < 3 → slots (spot 3 3 i) ≡ get_elem? (7 ∷ 8 ∷ 9 ∷ []) i
    stored zero p = refl
    stored (suc zero) p = refl
    stored (suc (suc zero)) p = refl
    stored (suc (suc (suc n))) p = absurd (omega arith)

for_each-wrapped : for_each wrapped ≡ some (7 ∷ 8 ∷ 9 ∷ [])
unfolding for_each visit read next
for_each-wrapped = refl

dequeue_n-Holds_example :
    (q' : CircularQueue ℕ) × (dequeue_n true 2 wrapped ≡ some (7 ∷ 8 ∷ [], q'))
    × Holds 3 q' (9 ∷ [])
dequeue_n-Holds_example =
    dequeue_n-Holds true 2 wrapped (7 ∷ 8 ∷ 9 ∷ []) wrapped-Holds (omega arith)

enqueue_n-Holds_example :
    (q' : CircularQueue ℕ) × (enqueue_n true wrapped (1 ∷ 2 ∷ []) ≡ some q')
    × Holds 3 q' (9 ∷ 1 ∷ 2 ∷ [])
enqueue_n-Holds_example = enqueue_n-Holds wrapped (7 ∷ 8 ∷ 9 ∷ []) (1 ∷ 2 ∷ []) wrapped-Holds

run_refines_example :
    run false wrapped (rotates 1 ∷ dequeues ∷ pushes 2 ∷ clears ∷ pops ∷ [])
    ≡ spec_run 3 (7 ∷ 8 ∷ 9 ∷ []) (rotates 1 ∷ dequeues ∷ pushes 2 ∷ clears ∷ pops ∷ [])
run_refines_example =
    run_refines 3 false (rotates 1 ∷ dequeues ∷ pushes 2 ∷ clears ∷ pops ∷ []) wrapped
      (7 ∷ 8 ∷ 9 ∷ []) wrapped-Holds

reserve_shrink-Holds_example :
    (q' : CircularQueue ℕ) × (reserve_shrink true wrapped 2 ≡ some q') × Holds 2 q' (7 ∷ 8 ∷ [])
reserve_shrink-Holds_example =
    reserve_shrink-Holds true wrapped (7 ∷ 8 ∷ 9 ∷ []) wrapped-Holds 2 (omega arith) (omega arith)

reserve_shrink_zero_example :
    (q' : CircularQueue ℕ) × (reserve_shrink false wrapped 0 ≡ some q')
    × (room q' ≡ 0)
    × (is_full q' ≡ false)
    × (push q' 5 ≡ none)
reserve_shrink_zero_example =
    reserve_shrink_zero false wrapped (7 ∷ 8 ∷ 9 ∷ []) wrapped-Holds 5 (omega arith) (omega arith)
