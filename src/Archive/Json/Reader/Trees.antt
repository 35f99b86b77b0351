-- ===== src/Archive/Json/Reader/Trees.antt =====
-- include/cpph/refl/archive/json-reader.hxx: the tokens of a value as a tree, and the calls that read
-- the value from end to end.
use cppheaders.Prelude.{ℕ, suc, ◌+◌, ◌-◌, ◌≤◌, ◌<◌, ◌≡◌, List, [], ◌∷◌, ◌++◌, length, take, drop}
use cppheaders.Strutil.{json_unescape}
use cppheaders.Archive.Run.{Run, ◌>>=◌, ◌>>◌, pure}
use cppheaders.Archive.Json.Reader.{
  jsmn_object, jsmn_array, jsmn_string, jsmn_primitive, Token, Impl,
}
use cppheaders.Archive.Json.Reader.Prepare.{Jsmn}
use cppheaders.Archive.Json.Reader.Values.{
  read_null, read_str, begin_array, end_array, begin_object, end_object, read_key_next,
}

mutual
  pub data Tree : Type 0 where
    primitive : Token → Tree
    string : Token → Tree
    array_of : Token → Trees → Tree
    object_of : Token → Pairs → Tree

  pub data Trees : Type 0 where
    no_trees : Trees
    tree : Tree → Trees → Trees

  -- A key and its value come first.
  pub data Pairs : Type 0 where
    no_pairs : Pairs
    pair : Token → Tree → Pairs → Pairs

unfoldable mutual
  pub flatten : Tree → List Token
  flatten (primitive t) = t ∷ []
  flatten (string t) = t ∷ []
  flatten (array_of t xs) = t ∷ flatten_all xs
  flatten (object_of t ps) = t ∷ flatten_pairs ps

  pub flatten_all : Trees → List Token
  flatten_all no_trees = []
  flatten_all (tree x xs) = flatten x ++ flatten_all xs

  pub flatten_pairs : Pairs → List Token
  flatten_pairs no_pairs = []
  flatten_pairs (pair k v ps) = k ∷ (flatten v ++ flatten_pairs ps)

unfoldable pub count_trees : Trees → ℕ
count_trees no_trees = 0
count_trees (tree x xs) = suc (count_trees xs)

-- Keys and values.
unfoldable pub count_both : Pairs → ℕ
count_both no_pairs = 0
count_both (pair k v ps) = suc (suc (count_both ps))

-- All of the tokens start before `end`.
unfoldable pub Below : ℕ → List Token → Type 0
Below end [] = Unit {0}
Below end (t ∷ ts) = (t.start < end) × Below end ts

-- The first of the tokens, if there is one, does not.
unfoldable pub From : ℕ → List Token → Type 0
From end [] = Unit {0}
From end (t ∷ ts) = end ≤ t.start

abbrev pub text_of : List ℕ → Token → List ℕ
text_of buffer t = json_unescape (take (t.end - t.start) (drop t.start buffer))

-- The strings, in their order.
unfoldable mutual
  unfolding json_unescape

  pub texts : List ℕ → Tree → List (List ℕ)
  texts buffer (primitive t) = []
  texts buffer (string t) = text_of buffer t ∷ []
  texts buffer (array_of t xs) = texts_all buffer xs
  texts buffer (object_of t ps) = texts_pairs buffer ps

  pub texts_all : List ℕ → Trees → List (List ℕ)
  texts_all buffer no_trees = []
  texts_all buffer (tree x xs) = texts buffer x ++ texts_all buffer xs

  pub texts_pairs : List ℕ → Pairs → List (List ℕ)
  texts_pairs buffer no_pairs = []
  texts_pairs buffer (pair k v ps) = text_of buffer k ∷ (texts buffer v ++ texts_pairs buffer ps)

-- The tree is laid out before `post`: the kinds and the sizes are those of its nodes, what stands in an
-- array or an object starts before its end, and what stands behind it does not; strings lie in the
-- buffer.
unfoldable mutual
  unfolding flatten count_trees count_both Below From

  pub Laid : List ℕ → Tree → List Token → Type 0
  Laid buffer (primitive t) post = t.kind ≡ jsmn_primitive
  Laid buffer (string t) post = (t.kind ≡ jsmn_string) × (t.start ≤ length buffer)
  Laid buffer (array_of t xs) post =
      (t.kind ≡ jsmn_array)
      × (t.size ≡ count_trees xs)
      × Below t.end (t ∷ flatten_all xs)
      × From t.end post
      × LaidAll buffer xs post
  Laid buffer (object_of t ps) post =
      (t.kind ≡ jsmn_object)
      × (t.size + t.size ≡ count_both ps)
      × Below t.end (t ∷ flatten_pairs ps)
      × From t.end post
      × LaidPairs buffer ps post

  pub LaidAll : List ℕ → Trees → List Token → Type 0
  LaidAll buffer no_trees post = Unit {0}
  LaidAll buffer (tree x xs) post = Laid buffer x (flatten_all xs ++ post) × LaidAll buffer xs post

  pub LaidPairs : List ℕ → Pairs → List Token → Type 0
  LaidPairs buffer no_pairs post = Unit {0}
  LaidPairs buffer (pair k v ps) post =
      (k.kind ≡ jsmn_string)
      × (k.start ≤ length buffer)
      × Laid buffer v (flatten_pairs ps ++ post)
      × LaidPairs buffer ps post

-- The calls that read a value, and the strings that they get.
unfoldable mutual
  unfolding read_null read_str begin_array end_array begin_object end_object read_key_next

  pub visit : Jsmn → Tree → Run Impl (List (List ℕ))
  visit jsmn (primitive t) = read_null jsmn >> pure []
  visit jsmn (string t) = read_str jsmn >>= λ c. pure (c ∷ [])
  visit jsmn (array_of t xs) =
      begin_array jsmn >>= λ key. visit_all jsmn xs >>= λ out. end_array key >> pure out
  visit jsmn (object_of t ps) =
      begin_object jsmn >>= λ key. visit_pairs jsmn ps >>= λ out. end_object key >> pure out

  pub visit_all : Jsmn → Trees → Run Impl (List (List ℕ))
  visit_all jsmn no_trees = pure []
  visit_all jsmn (tree x xs) =
      visit jsmn x >>= λ out. visit_all jsmn xs >>= λ more. pure (out ++ more)

  pub visit_pairs : Jsmn → Pairs → Run Impl (List (List ℕ))
  visit_pairs jsmn no_pairs = pure []
  visit_pairs jsmn (pair k v ps) =
      read_key_next
      >> (read_str jsmn >>= λ c.
          visit jsmn v >>= λ out. visit_pairs jsmn ps >>= λ more. pure (c ∷ (out ++ more)))
