-- ===== src/Archive/Json/Reader/Ready.antt =====
-- include/cpph/refl/archive/json-reader.hxx: `_prepare` on any stream.
use cppheaders.Prelude.{
  ℕ, zero, suc, ◌+◌, ◌-◌, ◌*◌, ◌/◌, ◌<◌, ◌≤◌, ◌≡◌, refl, ◌∙◌, Option, none, some, List, [], ◌∷◌,
  ◌++◌, arith, ◌==◌, if◌then◌else◌, length, replicate, length-append, length-take, length-replicate,
  Bool-cases, inl, inr, get_elem?, ◌≢◌, ◌⊎◌,
}
use cppheaders.Archive.Run.{
  Outcome, returned, thrown, Run, reader_parse_failed, reader_invalid_context,
}
use cppheaders.Archive.Run.Ends.{Ends, returns, throws, bind, mono}
use cppheaders.Archive.Json.Reader.{Token, Impl}
use cppheaders.Archive.Json.Reader.Prepare.{
  Parsed, error_nomem, error_inval, error_part, parsed, Jsmn, blank, resize, Root, stops_at, single,
  no_root, root_of, parse_again, push_back, read_rest, read_root, read_first, prepare,
}

-- The tokenizer works within the tokens that it is given, and asks for more only where they are
-- fewer than the characters: a token takes a character at least.
pub record Works (jsmn : Jsmn) : Type 0 where
  pub keeps :
      (p : jsmn.Parser) (text : List ℕ) (ts : List Token)
      → length (jsmn.parse p text ts).2 ≡ length ts
  pub enough :
      (p : jsmn.Parser) (text : List ℕ) (ts : List Token)
      → (jsmn.parse p text ts).0 ≡ error_nomem
      → length ts < length text

length-resize : (n : ℕ) (ts : List Token) → length (resize n ts) ≡ n
length-resize n ts = omega (
  arith,
  length-take n (ts ++ replicate (n - length ts) blank),
  length-append ts (replicate (n - length ts) blank),
  length-replicate (n - length ts) blank,
)

-- A value is there, outside every scope, or the text is taken in part.
abbrev More : {P : Type 0} → Option P → Impl → Type 0
More none s = s.pos_next ≡ some 0
More (some p) s = 8 ≤ length s.tokens

abbrev Done : {P : Type 0} → Impl → Option P → Impl → Type 0
Done s more t = More more t × (t.scopes ≡ s.scopes)

module _ (jsmn : Jsmn) (works : Works jsmn) where
  again-case :
      (fuel : ℕ) (s : Impl) (r : Parsed) (q : jsmn.Parser) (ts : List Token)
      → 8 ≤ length ts
      → (r ≡ error_nomem
          → Ends
              (Done s)
              (parse_again jsmn fuel q (record s { tokens = resize (length ts * 3 / 2) ts })))
      → Ends (Done s) (elim r as (λ x. Outcome Impl (Option jsmn.Parser)) [
        | error_inval ↦ thrown reader_parse_failed (record s { tokens = ts })
        | error_nomem ↦
            parse_again jsmn fuel q (record s { tokens = resize (length ts * 3 / 2) ts })
        | error_part ↦ returned (some q) (record s { tokens = ts })
        | parsed n ↦
            if n == 0
            then thrown reader_parse_failed (record s { tokens = ts })
            else returned none (record s { tokens = resize n ts; pos_next = some 0 })
      ])
  again-case fuel s error_inval q ts room ih = throws refl
  again-case fuel s error_nomem q ts room ih = ih refl
  again-case fuel s error_part q ts room ih = returns (room, refl)
  again-case fuel s (parsed n) q ts room ih = elim (Bool-cases (n == 0)) [
    | inl e ↦ rw e (throws refl)
    | inr e ↦ rw e (returns (refl, refl))
  ]

  again-Ends :
      (fuel : ℕ) (p : jsmn.Parser) (s : Impl)
      → 8 ≤ length s.tokens
      → length s.buffer < fuel + length s.tokens
      → 0 < fuel
      → Ends (Done s) (parse_again jsmn fuel p s)
  unfolding parse_again
  again-Ends zero p s some_tokens enough pos = absurd (omega arith)
  again-Ends (suc fuel) p s some_tokens enough pos =
      let out : Parsed × jsmn.Parser × List Token = jsmn.parse p s.buffer s.tokens in
      let ts : List Token = out.2 in
      let kept : length ts ≡ length s.tokens = works.keeps p s.buffer s.tokens in
      let more : ℕ = length ts * 3 / 2 in
      let grown : length (resize more ts) ≡ more = length-resize more ts in
      again-case fuel s out.0 out.1 ts (omega arith) λ none_left.
        let room : length s.tokens < length s.buffer = works.enough p s.buffer s.tokens none_left in
        again-Ends fuel out.1 (record s { tokens = resize more ts }) (omega arith) (omega arith)
          (omega arith)

  -- A value is there, and the scopes are as they were.
  abbrev AtStart : Impl → Unit {0} → Impl → Type 0
  AtStart s u t = (t.pos_next ≡ some 0) × (t.scopes ≡ s.scopes)

  after-again :
      (s u : Impl) (more : Option jsmn.Parser) (k : jsmn.Parser → Run Impl (Unit {0}))
      → Done s more u
      → ((q : jsmn.Parser) → 8 ≤ length u.tokens → Ends (AtStart u) (k q u))
      → Ends
          (AtStart s)
          ((elim more as (λ m. Run Impl (Unit {0})) [ none ↦ λ u. returned tt u | some q ↦ k q ]) u)
  after-again s u none k d ih = returns d
  after-again s u (some q) k (room, same) ih =
      mono (ih q room) λ v t (there, same'). (there, same' ∙ same)

  rest-Ends :
      (stop : ℕ) (input : List ℕ) (p : jsmn.Parser) (s : Impl)
      → 8 ≤ length s.tokens
      → Ends (AtStart s) (read_rest jsmn stop input p s)
  unfolding read_rest
  rest-Ends stop [] p s room = throws refl
  rest-Ends stop (c ∷ rest) p s room =
      let t : Impl = push_back jsmn c rest s in
      elim (Bool-cases (c == stop)) [
        | inl e ↦
            rw (read_rest, e)
              (bind (parse_again jsmn (suc (length t.buffer)) p) _ t
                (again-Ends (suc (length t.buffer)) p t room (omega arith) (omega arith))
                λ more u d.
                  after-again t u more (read_rest jsmn stop rest) d
                    λ q room'. rest-Ends stop rest q u room')
        | inr e ↦ rw (read_rest, e) (rest-Ends stop rest p t room)
      ]

  root-Ends :
      (p : jsmn.Parser) (s : Impl) → 8 ≤ length s.tokens → Ends (AtStart s) (read_root jsmn p s)
  unfolding read_root
  root-Ends p s room = by_root (root_of (get_elem? s.tokens 0))
    where
      by_root :
          (r : Root)
          → Ends (AtStart s) (elim r as (λ x. Outcome Impl (Unit {0})) [
            | stops_at stop ↦ read_rest jsmn stop s.input p s
            | single ↦ returned tt (record s { pos_next = some 0; tokens = resize 1 s.tokens })
            | no_root ↦ thrown reader_invalid_context s
          ])
      by_root (stops_at stop) = rest-Ends stop s.input p s room
      by_root single = returns (refl, refl)
      by_root no_root = throws refl

  first-Ends :
      (input : List ℕ) (p : jsmn.Parser) (s : Impl)
      → 8 ≤ length s.tokens
      → Ends (AtStart s) (read_first jsmn input p s)
  unfolding read_first
  first-Ends [] p s room = elim (Bool-cases (jsmn.toknext p == 0)) [
    | inl e ↦ rw (read_first, e) (throws refl)
    | inr e ↦ rw (read_first, e) (root-Ends p s room)
  ]
  first-Ends (c ∷ rest) p s room = elim (Bool-cases (jsmn.toknext p == 0)) [
    | inl e ↦
        let t : Impl = push_back jsmn c rest s in
        let out : Parsed × jsmn.Parser × List Token = jsmn.parse p t.buffer t.tokens in
        let kept : 8 ≤ length out.2 = omega (arith, room, works.keeps p t.buffer t.tokens) in
        rw (read_first, e)
          (by_result t out.0 out.1 out.2 (first-Ends rest out.1 (record t { tokens = out.2 }) kept))
    | inr e ↦ rw (read_first, e) (root-Ends p s room)
  ]
    where
      by_result :
          (t : Impl) (r : Parsed) (q : jsmn.Parser) (ts : List Token)
          → Ends (AtStart s) (read_first jsmn rest q (record t { tokens = ts }))
          → Ends (AtStart s) (elim r as (λ x. Outcome Impl (Unit {0})) [
            | error_nomem ↦ thrown reader_parse_failed (record t { tokens = ts })
            | error_inval ↦ thrown reader_parse_failed (record t { tokens = ts })
            | error_part ↦ read_first jsmn rest q (record t { tokens = ts })
            | parsed n ↦ read_first jsmn rest q (record t { tokens = ts })
          ])
      by_result t error_nomem q ts h = throws refl
      by_result t error_inval q ts h = throws refl
      by_result t error_part q ts h = h
      by_result t (parsed n) q ts h = h

-- With a tokenizer that fills only the tokens that it is given, and asks for more only where they are
-- fewer than the characters, `_prepare` comes to an end on any stream; where it returns, either a
-- value was being read, and nothing changed, or the reader stands before the first token of a value
-- and outside every scope.
pub prepare-Ends :
    (jsmn : Jsmn) (s : Impl)
    → Works jsmn
    → Ends
        (λ u t. ((t ≡ s) × (s.pos_next ≢ none)) ⊎ ((t.pos_next ≡ some 0) × (t.scopes ≡ [])))
        (prepare jsmn s)
unfolding prepare
prepare-Ends jsmn s works = by_pos s.pos_next refl
  where
    by_pos :
        (o : Option ℕ)
        → s.pos_next ≡ o
        → Ends
            (λ u t. ((t ≡ s) × (s.pos_next ≢ none)) ⊎ ((t.pos_next ≡ some 0) × (t.scopes ≡ [])))
            (elim o as (λ x. Outcome Impl (Unit {0})) [
              | some i ↦ returned tt s
              | none ↦
                  read_first jsmn s.input jsmn.init
                    (record s { scopes = []; buffer = []; tokens = replicate 8 blank })
            ])
    by_pos none e =
        mono
          (first-Ends jsmn works s.input jsmn.init
            (record s { scopes = []; buffer = []; tokens = replicate 8 blank }) (omega arith))
          λ u t h. inr h
    by_pos (some i) e = returns (inl (refl, λ none_left. ground (arith, e, none_left)))
