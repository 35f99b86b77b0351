-- ===== src/Streambuf/Base64.antt =====
-- include/cpph/streambuf/base64.hxx: `basic_b64`, which encodes what is put in it for the adapted
-- buffer and decodes what it gets from it. `none` is an exception, or an access through the null
-- pointer or outside a table. `words` is the size of the area in words of three bytes; `beyond` is
-- the memory behind the bytes that the encoder is given.
use cppheaders.Prelude.{
  ℕ, zero, suc, ◌*◌, ◌%◌, Bool, true, false, not, ◌&&◌, ◌||◌, Option, none, some, List, [], ◌∷◌,
  ◌++◌, ltb, ◌==◌, if◌then◌else◌, ◌>>=◌, length, take, drop,
}
use cppheaders.Base64.{
  encode_bytes, encoded_size, decoded_size, decode_bytes, Decoded, finished, logic_error,
}

-- The put area: `obuf` is `[pbase(), pptr())`, and `src` what the adapted buffer was given, if there
-- is one.
pub record Putting : Type 0 where
  pub obuf : List ℕ
  pub src : Option (List ℕ)

-- `_write_word`
unfoldable pub write_word : (ℕ → ℕ) → Putting → Option Putting
write_word beyond s = do
  out ← s.src
  some (record s { src = some (out ++ encode_bytes beyond s.obuf) })

-- Whether the character was taken.
unfoldable pub overflow : ℕ → (ℕ → ℕ) → ℕ → Putting → Option (Bool × Putting)
unfolding write_word
overflow words beyond ch s =
    if ltb 0 words
    then (do
      t ← if not (length s.obuf == 0) then write_word beyond s else some s
      some (true, record t { obuf = ch ∷ [] }))
    else some (false, s)

-- `sputc` of the standard library: `overflow` is called where the area is full.
unfoldable pub sputc : ℕ → (ℕ → ℕ) → ℕ → Putting → Option (Bool × Putting)
unfolding overflow
sputc words beyond ch s =
    if ltb (length s.obuf) (words * 3)
    then some (true, record s { obuf = s.obuf ++ ch ∷ [] })
    else overflow words beyond ch s

-- `sputn` of the standard library: how many characters were taken.
unfoldable pub sputn : ℕ → (ℕ → ℕ) → List ℕ → Putting → Option (ℕ × Putting)
unfolding sputc
sputn words beyond [] s = some (0, s)
sputn words beyond (ch ∷ chs) s = sputc words beyond ch s >>= λ (taken, t).
    let rest = sputn words beyond chs t in
    if taken then (rest >>= λ (n, u). some (suc n, u)) else some (0, t)

unfoldable pub sync : ℕ → (ℕ → ℕ) → Putting → Option Putting
unfolding write_word
sync words beyond s = elim s.src [
  | none ↦ none
  | some out ↦
      if ltb 0 words && ltb 0 (length s.obuf)
      then (write_word beyond s >>= λ t. some (record t { obuf = [] }))
      else some s
]

-- `reset_nosync`
abbrev pub reset_nosync : Option (List ℕ) → Putting → Putting
reset_nosync adapted s = record { obuf = []; src = adapted }

-- `reset`: what the buffer that was adapted before was given, and the new state
unfoldable pub reset : ℕ → (ℕ → ℕ) → Option (List ℕ) → Putting → Option (Option (List ℕ) × Putting)
unfolding sync
reset words beyond adapted s = do
  t ← elim s.src [ none ↦ some s | some out ↦ sync words beyond s ]
  some (t.src, reset_nosync adapted t)

-- The get area: `ibuf` is the array, `left` is `[gptr(), egptr())`, and `source` what the adapted
-- buffer still holds.
pub record Getting : Type 0 where
  pub ibuf : List ℕ
  pub left : List ℕ
  pub source : List ℕ

-- The decoded bytes overwrite the array from its start; an error of the decoder is not looked at.
abbrev pub fill : ℕ → Option Decoded → Getting → Option Getting
fill n_decoded none g = none
fill n_decoded (some logic_error) g = none
fill n_decoded (some (finished good out)) g =
    let ibuf = out ++ drop (length out) g.ibuf in
    some (record g { ibuf = ibuf; left = take n_decoded ibuf })

-- Whether there is a character.
unfoldable pub underflow : ℕ → Getting → Option (Bool × Getting)
underflow words g =
    let buf = take (encoded_size (words * 3)) g.source in
    let n_read = length buf in
    let h : Getting = record g { source = drop (encoded_size (words * 3)) g.source } in
    if not (ltb 0 words)
    then some (false, g)
    else if (n_read == 0) || not (n_read % 4 == 0)
    then some (false, h)
    else (fill (decoded_size buf) (decode_bytes buf) h >>= λ k. some (true, k))

-- `sbumpc` of the standard library
unfoldable pub sbumpc : ℕ → Getting → Option (Option ℕ × Getting)
unfolding underflow
sbumpc words g = elim g.left [
  | c ∷ cs ↦ some (some c, record g { left = cs })
  | [] ↦ underflow words g >>= λ (some_left, h). elim h.left [
    | [] ↦ some (none, h)
    | c ∷ cs ↦ some (if some_left then some c else none, record h { left = cs })
  ]
]

-- `sgetn` of the standard library
unfoldable pub sgetn : ℕ → ℕ → Getting → Option (List ℕ × Getting)
unfolding sbumpc
sgetn words zero g = some ([], g)
sgetn words (suc n) g = sbumpc words g >>= λ (c, h). elim c [
  | none ↦ some ([], h)
  | some x ↦ (sgetn words n h >>= λ (xs, k). some (x ∷ xs, k))
]
