-- ===== src/StaticVector.antt =====
-- include/cpph/container/static_vector.hxx: `static_vector`. An iterator is an index; a slot holds the
-- object that lives in it, if one does. `undefined` is an access to a slot outside the vector or
-- without an object. An exception that a `noexcept` method lets out, which ends the program, is the
-- exception here.
pub mod Laws
mod Tests
use cppheaders.Prelude.{
  ℕ, zero, suc, ◌+◌, ◌-◌, Bool, true, false, Option, none, some, List, [], ◌∷◌, ltb, leb, ◌==◌,
  if◌then◌else◌, length,
}

pub data Failure : Type 0 where
  out_of_range logic_error bad_alloc undefined : Failure

pub record StaticVector (A : Type 0) : Type 0 where
  pub slots : ℕ → Option A
  pub size : ℕ

-- The vector afterwards, or as it was at the failure.
pub data Attempt (A : Type 0) : Type 0 where
  done : StaticVector A → Attempt A
  failed : Failure → StaticVector A → Attempt A

abbrev pub next : {A : Type 0} → Attempt A → (StaticVector A → Attempt A) → Attempt A
next (done v) f = f v
next (failed x v) f = failed x v

abbrev pub empty_vector : {A : Type 0} → StaticVector A
empty_vector = record { slots = λ i. none; size = 0 }

-- `n` is the number of slots.
module _ {A : Type 0} (n : ℕ) where
  unfoldable pub put_slot : ℕ → Option A → StaticVector A → StaticVector A
  put_slot i o v = record v { slots = λ j. if j == i then o else v.slots j }

  abbrev pub verify_iterator : ℕ → StaticVector A → Attempt A
  verify_iterator i v = if ltb i n then done v else failed out_of_range v

  abbrev pub verify_iterator_range : ℕ → ℕ → StaticVector A → Attempt A
  verify_iterator_range b e v =
      if ltb e b then failed logic_error v else next (verify_iterator b v) λ w. verify_iterator e w

  abbrev pub verify_space : ℕ → StaticVector A → Attempt A
  verify_space num v = if ltb n (v.size + num) then failed bad_alloc v else done v

  unfoldable pub construct_at : ℕ → A → StaticVector A → Attempt A
  unfolding put_slot
  construct_at i x v = if ltb i n then done (put_slot i (some x) v) else failed undefined v

  unfoldable pub destruct_at : ℕ → StaticVector A → Attempt A
  unfolding put_slot
  destruct_at i v = elim (v.slots i) [
    | none ↦ failed undefined v
    | some x ↦ done (put_slot i none v)
  ]

  -- One round of the loops of `_move_range`.
  unfoldable pub move_one : ℕ → ℕ → StaticVector A → Attempt A
  unfolding construct_at destruct_at
  move_one source target v = elim (v.slots source) [
    | none ↦ failed undefined v
    | some x ↦ next (construct_at target x v) λ w. destruct_at source w
  ]

  -- To lower addresses, the last element first.
  unfoldable pub move_down : ℕ → ℕ → ℕ → StaticVector A → Attempt A
  unfolding move_one
  move_down zero b to v = done v
  move_down (suc k) b to v = next (move_one (b + k) (to + k) v) λ w. move_down k b to w

  -- To higher addresses, the first element first.
  unfoldable pub move_up : ℕ → ℕ → ℕ → StaticVector A → Attempt A
  unfolding move_one
  move_up zero b to v = done v
  move_up (suc k) b to v = next (move_one b to v) λ w. move_up k (suc b) (suc to) w

  unfoldable pub move_range : ℕ → ℕ → ℕ → StaticVector A → Attempt A
  unfolding move_down move_up
  move_range b e to v =
      if to == b
      then done v
      else next (verify_iterator_range b e v) λ w.
        if ltb to b
        then move_down (e - b) b to w
        else next (verify_space (to - b) w) λ u. move_up (e - b) b to u

  unfoldable pub emplace_back : A → StaticVector A → Attempt A
  unfolding construct_at
  emplace_back x v =
      next (verify_space 1 v) λ w. construct_at w.size x (record w { size = suc w.size })

  -- The loop of `erase`
  unfoldable pub destruct_all : ℕ → ℕ → StaticVector A → Attempt A
  unfolding destruct_at
  destruct_all zero b v = done v
  destruct_all (suc k) b v = next (destruct_at b v) λ w. destruct_all k (suc b) w

  -- `erase(begin, end)`
  unfoldable pub erase_range : ℕ → ℕ → StaticVector A → Attempt A
  unfolding destruct_all move_range
  erase_range b e v = next (verify_iterator_range b e v) λ w.
      next (destruct_all (e - b) b w)
        λ u. next (move_range e u.size b u) λ t. done (record t { size = t.size - (e - b) })

  unfoldable pub erase : ℕ → StaticVector A → Attempt A
  unfolding erase_range
  erase i = erase_range i (suc i)

  unfoldable pub pop_back : StaticVector A → Attempt A
  unfolding erase
  pop_back v = elim v.size [ zero ↦ failed out_of_range v | suc k ↦ erase k v ]

  unfoldable pub clear : StaticVector A → Attempt A
  unfolding erase_range
  clear v = erase_range 0 v.size v

  unfoldable pub fill_up : ℕ → A → StaticVector A → Attempt A
  unfolding construct_at
  fill_up zero x v = done v
  fill_up (suc k) x v =
      next (construct_at v.size x (record v { size = suc v.size })) λ w. fill_up k x w

  unfoldable pub resize : ℕ → A → StaticVector A → Attempt A
  unfolding erase_range fill_up
  resize size x v =
      if ltb size v.size
      then erase_range size v.size v
      else if ltb v.size size
      then (next (verify_space (size - v.size) v) λ w. fill_up (size - v.size) x w)
      else done v

  unfoldable pub emplace : ℕ → A → StaticVector A → Attempt A
  unfolding move_range construct_at
  emplace i x v =
      next (move_range i v.size (suc i) v) λ w. construct_at i x (record w { size = suc w.size })

  -- `at`, where it does not throw.
  unfoldable pub at : ℕ → StaticVector A → Option A
  at i v = if leb v.size i then none else v.slots i
