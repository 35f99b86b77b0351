-- ===== src/Archive/Msgpack/Leaves.antt =====
-- include/cpph/refl/archive/msgpack-reader.hxx: `_skip_once` on a value without parts.
use cppheaders.Prelude.{
  drop-append_exact, ℕ, zero, suc, ◌+◌, ◌-◌, ◌≤◌, min, ◌≡◌, refl, ap, ◌∙◌, Bool, true, false, ◌||◌,
  List, [], ◌∷◌, ◌++◌, arith, ◌==◌, length, take, drop, length-take, length-drop, length-append,
  drop-drop, Bool-cases, inl, inr,
}
use cppheaders.Archive.Run.{returned, Run, ◌>>=◌, ◌>>◌, pure, >>=-returned}
use mathlib.Core.List.{append_assoc}
use cppheaders.Archive.Msgpack.Reader.Types.{between}
use cppheaders.Archive.Msgpack.Codes.{nil, fixstr, str8}
use cppheaders.Archive.Msgpack.Reader.{
  ReadScope, Reader, next_header, typecode, number_of, read_number, read_elem_count,
  read_elem_count_str,
}
use cppheaders.Archive.Msgpack.Reader.Scopes.{step_context_on_skip, discard_rounds, discard_n_bytes}
use cppheaders.Archive.Msgpack.Reader.Skip.{finish_skip, is_number, skip_item}
use cppheaders.Archive.Msgpack.Reader.Counts.{one_less, HasRoom}
use cppheaders.Archive.Msgpack.Numbers.{with_input, Reads}
use cppheaders.Archive.Msgpack.Headers.{Counts}

-- Bytes that one skip takes, whatever follows, in every scope with room.
unfoldable pub Leaf : List ℕ → Type 0
Leaf bytes =
    (grow : ℕ → ℕ) (brk : ℕ → Run Reader (Unit {0})) (held : Bool) (cap : ℕ)
    (scopes : List ReadScope) (gen : ℕ) (rest : List ℕ)
    → HasRoom scopes
    → (n : ℕ) × ((next_header >>= skip_item grow brk held cap)
          (with_input scopes gen (bytes ++ rest))
        ≡ returned n (with_input (one_less scopes) gen rest))

discard_rounds-exact :
    (fuel n : ℕ) (scopes : List ReadScope) (gen : ℕ) (xs : List ℕ)
    → n ≤ fuel
    → n ≤ length xs
    → discard_rounds fuel n (with_input scopes gen xs)
      ≡ returned tt (with_input scopes gen (drop n xs))
unfolding discard_rounds
discard_rounds-exact zero n scopes gen xs f h =
    ap (λ k. returned tt (with_input scopes gen (drop k xs))) {x = 0} {y = n} (omega arith)
discard_rounds-exact (suc fuel) n scopes gen xs f h = elim (Bool-cases (n == 0)) [
  | inl e ↦
      rw e
        (ap (λ k. returned tt (with_input scopes gen (drop k xs))) {x = 0} {y = n} (ground arith))
  | inr e ↦
      let k : ℕ = min 256 n in
      let whole : (length (take k xs) == k) ≡ true = ground (arith, length-take k xs) in
      rw (e, whole)
        (discard_rounds-exact fuel (n - k) scopes gen (drop k xs) (ground (arith, e))
            (omega (arith, h, length-drop k xs))
          ∙ ap (λ ys. returned tt (with_input scopes gen ys))
              (drop-drop (n - k) k xs
                ∙ ap (λ m. drop m xs) {x = k + (n - k)} {y = n} (omega arith)))
]

step_context_on_skip-exact :
    (scopes : List ReadScope) (gen : ℕ) (xs : List ℕ)
    → HasRoom scopes
    → step_context_on_skip (with_input scopes gen xs)
      ≡ returned tt (with_input (one_less scopes) gen xs)
unfolding step_context_on_skip
step_context_on_skip-exact [] gen xs room = refl
step_context_on_skip-exact (s ∷ rest) gen xs room =
    let no : (s.elems_left == 0) ≡ false = ground arith in rw no refl

finish_skip-exact :
    (n : ℕ) (scopes : List ReadScope) (gen : ℕ) (xs : List ℕ)
    → HasRoom scopes
    → n ≤ length xs
    → finish_skip n (with_input scopes gen xs)
      ≡ returned n (with_input (one_less scopes) gen (drop n xs))
unfolding finish_skip discard_n_bytes
finish_skip-exact n scopes gen xs room h =
    >>=-returned step_context_on_skip (λ _. discard_n_bytes n >> pure n) (with_input scopes gen xs)
      (step_context_on_skip-exact scopes gen xs room)
      (>>=-returned (discard_n_bytes n) (λ _. pure n) (with_input (one_less scopes) gen xs)
        (discard_rounds-exact n n (one_less scopes) gen xs (omega arith) h) refl)

is_number-read :
    (c : ℕ) (r : Reader) {v : ℕ} {t : Reader}
    → read_number (λ w v. 0) 64 c r ≡ returned v t
    → is_number (typecode c) ≡ true
unfolding read_number
is_number-read c r e = ground arith

-- Bytes that the reader takes for a number are skipped as they are.
pub Reads-Leaf : (v : ℕ) (bytes : List ℕ) → Reads v bytes → Leaf bytes
unfolding Reads Leaf skip_item
Reads-Leaf v [] reads grow brk held cap scopes gen rest room =
    absurd (ground (arith, reads (λ w v. 0) [] 0 []))
Reads-Leaf v (c ∷ cs) reads grow brk held cap scopes gen rest room =
    let read : read_number (λ w v. 0) 64 c (with_input scopes gen (c ∷ cs ++ rest))
        ≡ returned v (with_input scopes gen rest) =
      reads (λ w v. 0) scopes gen rest in
    (
      0,
      rw (is_number-read c _ read) (
          >>=-returned (read_number (λ w v. 0) 64 c) (λ _. finish_skip 0)
            (with_input scopes gen (c ∷ cs ++ rest)) read
            (finish_skip-exact 0 scopes gen rest room (omega arith))),
    )

is_str : ℕ → Bool
is_str t = (t == fixstr) || (t == str8) || (t == str8 + 1) || (t == str8 + 2)

is_str-count :
    (c : ℕ) (r : Reader) {v : ℕ} {t : Reader}
    → read_elem_count_str c r ≡ returned v t
    → is_str (typecode c) ≡ true
unfolding read_elem_count is_str
is_str-count c r e = ground arith

is_str-number :
    (t : ℕ)
    → is_str t ≡ true
    → (is_number t ≡ false) × (((t == fixstr) || between str8 (str8 + 2) t) ≡ true)
unfolding is_str number_of
is_str-number t h = (ground arith, ground arith)

-- The header of a string, then as many bytes.
pub str-Leaf : (bytes v : List ℕ) → Counts read_elem_count_str (length v) bytes → Leaf (bytes ++ v)
unfolding Counts Leaf skip_item
str-Leaf [] v counts grow brk held cap scopes gen rest room =
    absurd (ground (arith, counts [] 0 []))
str-Leaf (c ∷ cs) v counts grow brk held cap scopes gen rest room =
    let r : Reader = with_input scopes gen (c ∷ cs ++ (v ++ rest)) in
    let read : read_elem_count_str c r ≡ returned (length v) (with_input scopes gen (v ++ rest)) =
      counts scopes gen (v ++ rest) in
    let (not_number, str) = is_str-number (typecode c) (is_str-count c r read) in
    (
      length v,
      ap (λ xs. skip_item grow brk held cap c (with_input scopes gen (c ∷ xs)))
            (append_assoc cs v rest)
          ∙ rw (not_number, str)
              (>>=-returned (read_elem_count_str c) finish_skip r read (
                finish_skip-exact (length v) scopes gen (v ++ rest) room
                  (omega (arith, length-append v rest))
                ∙ ap (λ xs. returned (length v) (with_input (one_less scopes) gen xs))
                    (drop-append_exact v rest))),
    )

pub nil-Leaf : Leaf (nil ∷ [])
unfolding Leaf skip_item number_of typecode
nil-Leaf grow brk held cap scopes gen rest room =
    (1, finish_skip-exact 1 scopes gen (nil ∷ rest) room (omega arith))
