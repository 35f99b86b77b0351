-- ===== src/Archive/Msgpack/Documents.antt =====
-- include/cpph/refl/archive/msgpack-writer.hxx, msgpack-reader.hxx: whole documents, arrays in arrays,
-- as they are written, and skipped by `read(nullptr)`.
use cppheaders.Prelude.{
  ℕ, zero, suc, ◌+◌, ◌-◌, ◌*◌, ◌%◌, ◌^◌, ◌<◌, ◌≡◌, refl, ap, sym, subst, ◌∙◌, Bool, true, false,
  ◌||◌, ◌≤◌, max, List, [], ◌∷◌, ◌++◌, arith, ◌==◌, length, length-append,
}
use mathlib.Core.List.{append_assoc}
use cppheaders.Archive.Run.{returned, Run, ◌>>=◌, ◌>>◌, pure, >>=-returned, >>=-assoc}
use cppheaders.Archive.Msgpack.Codes.{fixstr, str8, bin8}
use cppheaders.Archive.Msgpack.Writer.{
  Writer, write_int, write_str, write_nil, array_push, array_pop,
}
use cppheaders.Archive.Msgpack.Reader.{
  ReadScope, Reader, Key, type_array, next_header, typecode, number_of, read_elem_count_array,
}
use cppheaders.Archive.Msgpack.Reader.Scopes.{
  begin_array, step_context, step_in, new_scope, verify_not_key_type, scope_ref, pop_back,
}
use cppheaders.Archive.Msgpack.Reader.Skip.{
  is_number, skip_once, break_scope, skip_item, grown, skip_inside, end_scope, times, mark_key,
}
use cppheaders.Archive.Msgpack.Reader.Types.{between, calc_num_break_scope}
use cppheaders.Archive.Msgpack.Reader.Counts.{one_less, HasRoom}
use cppheaders.Archive.Msgpack.Numbers.{with_input}
use cppheaders.Archive.Msgpack.RoundTrip.{next_gen}
use cppheaders.Archive.Msgpack.Headers.{Counts, HeadsArray, is_array}
use cppheaders.Archive.Msgpack.Reader.Skips.{
  same_key_self, same_kind_self, length-one_less, skip_inside-free,
}
use cppheaders.Archive.Msgpack.Leaves.{Leaf}

mutual
  pub data Document : Type 0 where
    integer : ℕ → Document
    text : List ℕ → Document
    null : Document
    list_of : Documents → Document

  pub data Documents : Type 0 where
    nothing : Documents
    also : Document → Documents → Documents

unfoldable pub count : Documents → ℕ
count nothing = 0
count (also d ds) = suc (count ds)

unfoldable mutual
  pub write_document : Document → Run Writer (Unit {0})
  write_document (integer v) = write_int v
  write_document (text v) = write_str v
  write_document null = write_nil
  write_document (list_of ds) = array_push (count ds) >> (write_documents ds >> array_pop)

  pub write_documents : Documents → Run Writer (Unit {0})
  write_documents nothing = pure tt
  write_documents (also d ds) = write_document d >> write_documents ds

-- Integers of 64 bits, strings and arrays below the limit of the format.
unfoldable mutual
  pub Fits : Document → Type 0
  Fits (integer v) = v < 2 ^ 64
  Fits (text v) = length v < 2 ^ 32 - 1
  Fits null = Unit {0}
  Fits (list_of ds) = (count ds < 2 ^ 32 - 1) × FitsAll ds

  pub FitsAll : Documents → Type 0
  FitsAll nothing = Unit {0}
  FitsAll (also d ds) = Fits d × FitsAll ds

-- Outside every scope, or in an array that has an element left.
abbrev pub TakesIn : List ReadScope → Type 0
TakesIn [] = Unit {0}
TakesIn (s ∷ rest) = (s.kind ≡ type_array) × (0 < s.elems_left)

-- How many arrays stand in one another.
unfoldable mutual
  pub depth : Document → ℕ
  depth (integer v) = 0
  depth (text v) = 0
  depth null = 0
  depth (list_of ds) = suc (depth_all ds)

  pub depth_all : Documents → ℕ
  depth_all nothing = 0
  depth_all (also d ds) = max (depth d) (depth_all ds)

-- The capacity suffices for `k` more scopes; a first one may grow it where no pointer is held.
abbrev pub Suffices : Bool → ℕ → ℕ → ℕ → Type 0
Suffices held cap size k = (held ≡ true → size + k ≤ cap) × (size + k ≤ max (suc size) cap)

-- One skip takes the bytes, whatever follows them, where the capacity suffices for `k` more scopes.
abbrev pub SkippedAs : ℕ → List ℕ → Type 0
SkippedAs k bytes =
    (grow : ℕ → ℕ) (f : ℕ) (held : Bool) (cap : ℕ) (scopes : List ReadScope) (gen : ℕ)
    (rest : List ℕ)
    → TakesIn scopes
    → Suffices held cap (length scopes) k
    → 2 * length (bytes ++ rest) < f
    → (n : ℕ) × (gen' : ℕ) × (skip_once grow f held cap (with_input scopes gen (bytes ++ rest))
        ≡ returned n (with_input (one_less scopes) gen' rest))

TakesIn-HasRoom : (scopes : List ReadScope) → TakesIn scopes → HasRoom scopes
TakesIn-HasRoom [] h = tt
TakesIn-HasRoom (s ∷ rest) (k, h) = h

pub Leaf-SkippedAs : (k : ℕ) (bytes : List ℕ) → Leaf bytes → SkippedAs k bytes
unfolding Leaf skip_once
Leaf-SkippedAs k bytes leaf grow zero held cap scopes gen rest takes room h = absurd (omega arith)
Leaf-SkippedAs k bytes leaf grow (suc f) held cap scopes gen rest takes room h =
    let (n, e) =
      leaf grow (break_scope grow f) held cap scopes gen rest (TakesIn-HasRoom scopes takes) in
    (n, gen, e)

-- The scope of an array of `n` elements that is opened inside `scopes`.
abbrev inner : ℕ → ℕ → List ReadScope → ReadScope
inner n gen scopes = record {
  ctxkey = record { id = next_gen gen; index = length scopes % 2 ^ 32 };
  kind = type_array;
  elems_left = n;
  reading_key = false;
}

verify_not_key_type-exact :
    (scopes : List ReadScope) (gen : ℕ) (xs : List ℕ)
    → TakesIn scopes
    → verify_not_key_type (with_input scopes gen xs) ≡ returned tt (with_input scopes gen xs)
unfolding verify_not_key_type
verify_not_key_type-exact [] gen xs takes = refl
verify_not_key_type-exact (s ∷ scopes) gen xs (k, room) = rw k refl

step_context-exact :
    (scopes : List ReadScope) (gen : ℕ) (xs : List ℕ)
    → TakesIn scopes
    → step_context (with_input scopes gen xs) ≡ returned tt (with_input (one_less scopes) gen xs)
unfolding step_context step_in
step_context-exact [] gen xs takes = refl
step_context-exact (s ∷ scopes) gen xs (k, room) =
    let some : (s.elems_left == 0) ≡ false = ground arith in rw (k, some) refl

begin_array-exact :
    (n : ℕ) (bytes : List ℕ) (scopes : List ReadScope) (gen : ℕ) (rest : List ℕ)
    → Counts read_elem_count_array n bytes
    → TakesIn scopes
    → begin_array (with_input scopes gen (bytes ++ rest))
      ≡ returned
          (inner n gen (one_less scopes)).ctxkey
          (with_input (inner n gen (one_less scopes) ∷ one_less scopes) (next_gen gen) rest)
unfolding begin_array Counts new_scope
begin_array-exact n bytes scopes gen rest counts takes =
    let before : Reader = with_input scopes gen (bytes ++ rest) in
    let open_it : ℕ → Run Reader Key = λ n. step_context >> new_scope type_array n in
    >>=-returned verify_not_key_type
      (λ _. next_header >>= λ header. read_elem_count_array header >>= open_it) before
      (verify_not_key_type-exact scopes gen (bytes ++ rest) takes)
      (>>=-assoc read_elem_count_array open_it next_header before
        ∙ >>=-returned (next_header >>= read_elem_count_array) open_it before
            (counts scopes gen rest)
            (>>=-returned step_context (λ _. new_scope type_array n) (with_input scopes gen rest)
              (step_context-exact scopes gen rest takes) refl))

-- `break_scope` closes an array of the documents that stand in the bytes, where the capacity suffices
-- for `j` more scopes inside it.
abbrev pub ClosesAs : ℕ → ℕ → List ℕ → Type 0
ClosesAs j n bytes =
    (grow : ℕ → ℕ) (f cap : ℕ) (s : ReadScope) (scopes : List ReadScope) (gen : ℕ) (rest : List ℕ)
    → s.kind ≡ type_array
    → s.elems_left ≡ n
    → suc (length scopes + j) ≤ cap
    → 2 * length (bytes ++ rest) + 1 < f
    → (gen' : ℕ) × (break_scope grow f cap (with_input (s ∷ scopes) gen (bytes ++ rest))
        ≡ returned tt (with_input scopes gen' rest))

pub nothing-ClosesAs : ClosesAs 0 0 []
unfolding skip_once scope_ref
nothing-ClosesAs grow zero cap s scopes gen rest k e room h = absurd (omega arith)
nothing-ClosesAs grow (suc f) cap s scopes gen rest k e room h = (gen, rw e refl)

mark_key-array : (s : ReadScope) (r : Reader) → s.kind ≡ type_array → mark_key s r ≡ returned tt r
mark_key-array s r k = rw k refl

pub also-ClosesAs :
    (i j n : ℕ) (bytes more : List ℕ)
    → SkippedAs i bytes
    → 0 < length bytes
    → ClosesAs j n more
    → ClosesAs (max i j) (suc n) (bytes ++ more)
unfolding skip_once scope_ref
also-ClosesAs i j n bytes more skips some closes grow zero cap s scopes gen rest k e room h =
    absurd (omega arith)
also-ClosesAs i j n bytes more skips some closes grow (suc f) cap s scopes gen rest k e room h =
    let l : length (bytes ++ (more ++ rest)) ≡ length bytes + length (more ++ rest) =
      length-append bytes (more ++ rest) in
    let a : length (bytes ++ more ++ rest) ≡ length (bytes ++ (more ++ rest)) =
      ap length (append_assoc bytes more rest) in
    let (m, gen', skipped) =
      skips grow f true cap (s ∷ scopes) gen (more ++ rest) (k, omega (arith, e))
        (λ _. omega arith, omega arith) (omega (arith, h, l, a)) in
    let (gen'', closed) =
      closes grow f cap (record s { elems_left = s.elems_left - 1 }) scopes gen' rest k
        (omega (arith, e)) (omega arith) (omega (arith, h, l, a, some)) in
    let left : (s.elems_left == 0) ≡ false = ground arith in
    let before : Reader = with_input (s ∷ scopes) gen (bytes ++ (more ++ rest)) in
    (
      gen'',
      ap (λ xs. break_scope grow (suc f) cap (with_input (s ∷ scopes) gen xs))
            (append_assoc bytes more rest)
          ∙ ap
              (λ b.
                (elim b as (λ b. Run Reader (Unit {0})) [
                  | true ↦ pop_back
                  | false ↦ mark_key s >> (skip_once grow f true cap >> break_scope grow f cap)
                ])
                  before)
              left
          ∙ (>>=-returned (mark_key s) (λ _. skip_once grow f true cap >> break_scope grow f cap)
              before (mark_key-array s before k)
              (>>=-returned (skip_once grow f true cap) (λ _. break_scope grow f cap) before skipped
                closed)),
    )

pub calc_num-exact :
    (s : ReadScope) (scopes : List ReadScope) (gen : ℕ) (xs : List ℕ)
    → calc_num_break_scope s.kind s.ctxkey (with_input (s ∷ scopes) gen xs)
      ≡ returned 1 (with_input (s ∷ scopes) gen xs)
unfolding calc_num_break_scope
calc_num-exact s scopes gen xs = rw (same_key_self s.ctxkey, same_kind_self s.kind) refl

end_scope-exact :
    (brk : Run Reader (Unit {0})) (s : ReadScope) (scopes : List ReadScope) (gen : ℕ) (xs : List ℕ)
    {t : Reader}
    → brk (with_input (s ∷ scopes) gen xs) ≡ returned tt t
    → end_scope brk s.kind s.ctxkey (with_input (s ∷ scopes) gen xs) ≡ returned tt t
unfolding end_scope times
end_scope-exact brk s scopes gen xs broken =
    >>=-returned (calc_num_break_scope s.kind s.ctxkey) (λ n. times n brk)
      (with_input (s ∷ scopes) gen xs) (calc_num-exact s scopes gen xs)
      (>>=-returned brk (λ _. pure tt) (with_input (s ∷ scopes) gen xs) broken refl)

is_array-item :
    (t : ℕ)
    → is_array t ≡ true
    → (is_number t ≡ false)
      × (((t == fixstr) || between str8 (str8 + 2) t) ≡ false)
      × (between bin8 (bin8 + 2) t ≡ false)
unfolding number_of
is_array-item t h = (ground arith, ground arith, ground arith)

pub skip_item-array :
    (grow : ℕ → ℕ) (brk : ℕ → Run Reader (Unit {0})) (held : Bool) (cap c : ℕ) (r : Reader)
    → is_array (typecode c) ≡ true
    → skip_item grow brk held cap c r ≡ (begin_array >>= skip_inside brk grow held cap type_array) r
unfolding skip_item
skip_item-array grow brk held cap c r h =
    let (number, str, bin) = is_array-item (typecode c) h in rw (number, str, bin, h) refl

list-SkippedAs :
    (j n c : ℕ) (cs bytes : List ℕ)
    → Counts read_elem_count_array n (c ∷ cs)
    → is_array (typecode c) ≡ true
    → ClosesAs j n bytes
    → SkippedAs (suc j) (c ∷ cs ++ bytes)
unfolding skip_once
list-SkippedAs j n c cs bytes counts h closes grow zero held cap scopes gen rest takes room l =
    absurd (omega arith)
list-SkippedAs j n c cs bytes counts h closes grow (suc f) held cap scopes gen rest takes
      (fits, room) l =
    let s : ReadScope = inner n gen (one_less scopes) in
    let outer : length (one_less scopes) ≡ length scopes = length-one_less scopes in
    let cap' : ℕ = grown grow cap (suc (length (one_less scopes))) in
    let (gen', closed) =
      closes grow f cap' s (one_less scopes) (next_gen gen) rest refl refl
        (ground (arith, outer, room))
        (omega
          (arith, l, ap length (append_assoc cs bytes rest), length-append cs (bytes ++ rest))) in
    let before : Reader = with_input scopes gen (c ∷ cs ++ (bytes ++ rest)) in
    let opened : Reader = with_input (s ∷ one_less scopes) (next_gen gen) (bytes ++ rest) in
    let brk : ℕ → Run Reader (Unit {0}) = break_scope grow f in
    (
      0,
      gen',
      ap (λ xs. skip_item grow brk held cap c (with_input scopes gen (c ∷ xs)))
            (append_assoc cs bytes rest)
          ∙ skip_item-array grow brk held cap c before h
          ∙ >>=-returned begin_array (skip_inside brk grow held cap type_array) before
              (begin_array-exact n (c ∷ cs) scopes gen (bytes ++ rest) counts takes)
              (skip_inside-free brk grow held cap type_array s.ctxkey opened
                  (λ h. omega (arith, outer, fits h))
                ∙ >>=-returned (end_scope (brk cap') type_array s.ctxkey) (λ _. pure 0) opened
                    (end_scope-exact (brk cap') s (one_less scopes) (next_gen gen) (bytes ++ rest)
                      closed)
                    refl),
    )

-- The header of an array and what closes the array are skipped as one.
pub array-SkippedAs :
    (j n : ℕ) (header bytes : List ℕ)
    → Counts read_elem_count_array n header
    → HeadsArray header
    → ClosesAs j n bytes
    → SkippedAs (suc j) (header ++ bytes)
array-SkippedAs j n header bytes counts (c, cs, e, h) closes =
    subst (λ xs. SkippedAs (suc j) (xs ++ bytes)) (sym e)
      (list-SkippedAs j n c cs bytes (subst (λ xs. Counts read_elem_count_array n xs) e counts) h
        closes)
