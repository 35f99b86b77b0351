-- ===== src/Archive/Json/Reader/Prepare.antt =====
-- include/cpph/refl/archive/json-reader.hxx: `_prepare`, which reads one value from the stream through
-- the vendored tokenizer jsmn.
use cppheaders.Prelude.{
  ℕ, zero, suc, ◌-◌, ◌*◌, ◌/◌, true, false, Option, none, some, List, [], ◌∷◌, ◌++◌, ◌==◌,
  if◌then◌else◌, length, get_elem?, take, replicate,
}
use cppheaders.Archive.Run.{
  Run, returned, thrown, ◌>>=◌, out_of_fuel, reader_invalid_context, reader_parse_failed,
  reader_unexpected_end_of_file,
}
use cppheaders.Archive.Json.Reader.{
  jsmn_undefined, jsmn_object, jsmn_array, jsmn_string, jsmn_primitive, Token, Impl,
}

-- What `jsmn_parse` returns.
pub data Parsed : Type 0 where
  error_nomem error_inval error_part : Parsed
  parsed : ℕ → Parsed

-- The tokenizer: `jsmn_parse` on a parser, the text so far and the tokens, which it fills.
pub record Jsmn : Type 1 where
  pub Parser : Type 0
  pub init : Parser
  pub toknext : Parser → ℕ
  pub parse : Parser → List ℕ → List Token → Parsed × Parser × List Token

-- A token of a vector that was resized.
abbrev pub blank : Token
blank = record { kind = jsmn_undefined; start = 0; end = 0; size = 0; parent = none }

-- `std::vector::resize`
abbrev pub resize : ℕ → List Token → List Token
resize n ts = take n (ts ++ replicate (n - length ts) blank)

-- The character that closes a root of this kind, if it is a sequence.
pub data Root : Type 0 where
  stops_at : ℕ → Root
  single no_root : Root

abbrev pub root_of : Option Token → Root
root_of none = no_root
root_of (some t) = elim t.kind [
  | jsmn_object ↦ stops_at b'}'
  | jsmn_array ↦ stops_at b']'
  | jsmn_string ↦ single
  | jsmn_primitive ↦ single
  | jsmn_undefined ↦ no_root
]

module _ (jsmn : Jsmn) where
  -- From `PARSE_AGAIN`: the parser where more text is needed, none where all is there. The tokens grow
  -- until they are enough, at most `fuel` times.
  unfoldable pub parse_again : ℕ → jsmn.Parser → Run Impl (Option jsmn.Parser)
  parse_again zero p s = thrown out_of_fuel s
  parse_again (suc fuel) p s =
      let (result, q, ts) = jsmn.parse p s.buffer s.tokens in
      elim result [
        | error_inval ↦ thrown reader_parse_failed (record s { tokens = ts })
        | error_nomem ↦ parse_again fuel q (record s { tokens = resize (length ts * 3 / 2) ts })
        | error_part ↦ returned (some q) (record s { tokens = ts })
        | parsed n ↦
            if n == 0
            then thrown reader_parse_failed (record s { tokens = ts })
            else returned none (record s { tokens = resize n ts; pos_next = some 0 })
      ]

  abbrev pub push_back : ℕ → List ℕ → Impl → Impl
  push_back c rest s = record s { input = rest; buffer = s.buffer ++ c ∷ [] }

  -- The rest of an object or an array, which is parsed at each character that may close it.
  unfoldable pub read_rest : ℕ → List ℕ → jsmn.Parser → Run Impl (Unit {0})
  unfolding parse_again
  read_rest stop [] p s = thrown reader_unexpected_end_of_file s
  read_rest stop (c ∷ rest) p s =
      let t = push_back c rest s in
      elim (c == stop) [
        | false ↦ read_rest stop rest p t
        | true ↦
            (parse_again (suc (length t.buffer)) p >>= λ more. elim more [
              | none ↦ λ u. returned tt u
              | some q ↦ read_rest stop rest q
            ])
              t
      ]

  -- Behind the loop that reads the first token.
  unfoldable pub read_root : jsmn.Parser → Run Impl (Unit {0})
  unfolding read_rest
  read_root p s = elim (root_of (get_elem? s.tokens 0)) [
    | stops_at stop ↦ read_rest stop s.input p s
    | single ↦ returned tt (record s { pos_next = some 0; tokens = resize 1 s.tokens })
    | no_root ↦ thrown reader_invalid_context s
  ]

  unfoldable pub read_first : List ℕ → jsmn.Parser → Run Impl (Unit {0})
  unfolding read_root
  read_first [] p s = elim (jsmn.toknext p == 0) [
    | false ↦ read_root p s
    | true ↦ thrown reader_unexpected_end_of_file s
  ]
  read_first (c ∷ rest) p s = elim (jsmn.toknext p == 0) [
    | false ↦ read_root p s
    | true ↦
        let t = push_back c rest s in
        let (result, q, ts) = jsmn.parse p t.buffer t.tokens in
        let u : Impl = record t { tokens = ts } in
        elim result [
          | error_nomem ↦ thrown reader_parse_failed u
          | error_inval ↦ thrown reader_parse_failed u
          | error_part ↦ read_first rest q u
          | parsed n ↦ read_first rest q u
        ]
  ]

  unfoldable pub prepare : Run Impl (Unit {0})
  unfolding read_first
  prepare s = elim s.pos_next [
    | some i ↦ returned tt s
    | none ↦
        read_first s.input jsmn.init
          (record s { scopes = []; buffer = []; tokens = replicate 8 blank })
  ]
