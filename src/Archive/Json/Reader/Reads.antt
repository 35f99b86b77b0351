-- ===== src/Archive/Json/Reader/Reads.antt =====
-- include/cpph/refl/archive/json-reader.hxx: a value is read from end to end.
use cppheaders.Prelude.{
  ℕ, suc, ◌+◌, ◌≡◌, refl, ap, sym, subst, ◌∙◌, false, ◌||◌, Option, some, List, [], ◌∷◌, ◌++◌,
  arith, length, drop, length-append, inl,
}
use mathlib.Core.List.{append_assoc}
use cppheaders.Archive.Run.{>>=-returned}
use cppheaders.Archive.Json.Reader.{
  Token, type_array, type_object, JsonScope, Impl, is_object, is_array, step,
}
use cppheaders.Archive.Json.Reader.Prepare.{Jsmn, prepare}
use cppheaders.Archive.Json.Reader.Values.{
  read_null, read_str, begin_array, end_array, begin_object, end_object,
}
use cppheaders.Archive.Json.Reader.Trees.{
  Tree, primitive, string, array_of, object_of, Trees, no_trees, tree, Pairs, no_pairs, pair,
  flatten, flatten_all, flatten_pairs, count_trees, count_both, text_of, texts, texts_all,
  texts_pairs, Laid, LaidAll, LaidPairs, visit, visit_all, visit_pairs,
}
use cppheaders.Archive.Json.Reader.Steps.{
  here, with_left, Rests, place, place-Rests, at_drop, drop_behind, Rests-some,
}
use cppheaders.Archive.Json.Reader.Visits.{
  Visited, flatten_cons, opened, leaf-step, read_str-at, enter-at, then-Visited, close-Visited,
  key-Visited,
}

module _ (jsmn : Jsmn) (st : Impl) where
  mutual
    unfolding visit flatten texts Laid count_trees count_both read_null begin_array begin_object
        end_array end_object prepare

    pub visit-on :
        (x : Tree) (post : List Token) (s : JsonScope) (ss : List JsonScope) (gen i n : ℕ)
        → drop i st.tokens ≡ flatten x ++ post
        → Laid st.buffer x post
        → Visited st
            (visit jsmn x)
            (some i)
            (with_left s (suc n) false ∷ ss)
            gen
            (texts st.buffer x)
            (i + length (flatten x))
            (with_left s n false ∷ ss)
    visit-on (primitive t) post s ss gen i n e kind = (
      place st.tokens (suc i),
      gen,
      subst (λ j. Rests st.tokens (place st.tokens (suc i)) j) (omega arith)
          (place-Rests st.tokens (suc i)),
      >>=-returned step _ (here st (some i) (with_left s (suc n) false ∷ ss) gen)
          (leaf-step jsmn st s ss gen i t n false (at_drop i st.tokens t post e)
            (ap (λ k. is_object k || is_array k) kind) refl)
          refl,
    )
    visit-on (string t) post s ss gen i n e (kind, le) = (
      place st.tokens (suc i),
      gen,
      subst (λ j. Rests st.tokens (place st.tokens (suc i)) j) (omega arith)
          (place-Rests st.tokens (suc i)),
      >>=-returned (read_str jsmn) _ (here st (some i) (with_left s (suc n) false ∷ ss) gen)
          (read_str-at jsmn st s ss gen i t n false (at_drop i st.tokens t post e) kind le) refl,
    )
    visit-on (array_of t xs) post s ss gen i n e (kind, size, below, from, laid) =
        let outer : List JsonScope = with_left s (suc n) false ∷ ss in
        let inner : JsonScope = opened type_array gen i in
        let start : Visited st (begin_array jsmn) (some i) outer gen (suc gen) (suc i)
            (with_left inner (count_trees xs) false ∷ outer) =
          (
            some (suc i),
            suc gen,
            inl refl,
            enter-at jsmn st type_array outer gen i (count_trees xs) t (at_drop i st.tokens t _ e)
                (ap is_array kind) size,
          ) in
        then-Visited jsmn st (begin_array jsmn) _ (some i) outer gen (suc gen) (suc i)
          (with_left inner (count_trees xs) false ∷ outer) (texts_all st.buffer xs)
          (i + suc (length (flatten_all xs))) (with_left s n false ∷ ss) start
          λ p' gen' rests.
            then-Visited jsmn st (visit_all jsmn xs) _ p'
              (with_left inner (count_trees xs) false ∷ outer) gen' (texts_all st.buffer xs)
              (suc i + length (flatten_all xs)) (with_left inner 0 false ∷ outer)
              (texts_all st.buffer xs) (i + suc (length (flatten_all xs)))
              (with_left s n false ∷ ss)
              (all-on xs post inner outer gen' (suc i) p' rests
                (ap (λ j. drop j st.tokens) {x = suc i} {y = i + 1} (omega arith)
                  ∙ drop_behind i st.tokens (t ∷ []) (flatten_all xs ++ post) e)
                laid)
              λ p'' gen'' rests'.
                close-Visited jsmn st type_array (texts_all st.buffer xs) s ss gen gen'' i n p'' t
                  (flatten_all xs) post e below from
    visit-on (object_of t xs) post s ss gen i n e (kind, size, below, from, laid) =
        let outer : List JsonScope = with_left s (suc n) false ∷ ss in
        let inner : JsonScope = opened type_object gen i in
        let start : Visited st (begin_object jsmn) (some i) outer gen (suc gen) (suc i)
            (with_left inner (count_both xs) false ∷ outer) =
          (
            some (suc i),
            suc gen,
            inl refl,
            enter-at jsmn st type_object outer gen i (count_both xs) t (at_drop i st.tokens t _ e)
                (ap is_object kind) size,
          ) in
        then-Visited jsmn st (begin_object jsmn) _ (some i) outer gen (suc gen) (suc i)
          (with_left inner (count_both xs) false ∷ outer) (texts_pairs st.buffer xs)
          (i + suc (length (flatten_pairs xs))) (with_left s n false ∷ ss) start
          λ p' gen' rests.
            then-Visited jsmn st (visit_pairs jsmn xs) _ p'
              (with_left inner (count_both xs) false ∷ outer) gen' (texts_pairs st.buffer xs)
              (suc i + length (flatten_pairs xs)) (with_left inner 0 false ∷ outer)
              (texts_pairs st.buffer xs) (i + suc (length (flatten_pairs xs)))
              (with_left s n false ∷ ss)
              (pairs-on xs post inner outer gen' (suc i) p' refl rests
                (ap (λ j. drop j st.tokens) {x = suc i} {y = i + 1} (omega arith)
                  ∙ drop_behind i st.tokens (t ∷ []) (flatten_pairs xs ++ post) e)
                laid)
              λ p'' gen'' rests'.
                close-Visited jsmn st type_object (texts_pairs st.buffer xs) s ss gen gen'' i n p''
                  t (flatten_pairs xs) post e below from

    all-on :
        (xs : Trees) (post : List Token) (s : JsonScope) (ss : List JsonScope) (gen i : ℕ)
        (p : Option ℕ)
        → Rests st.tokens p i
        → drop i st.tokens ≡ flatten_all xs ++ post
        → LaidAll st.buffer xs post
        → Visited st
            (visit_all jsmn xs)
            p
            (with_left s (count_trees xs) false ∷ ss)
            gen
            (texts_all st.buffer xs)
            (i + length (flatten_all xs))
            (with_left s 0 false ∷ ss)
    all-on no_trees post s ss gen i p rests e laid =
        (p, gen, subst (λ j. Rests st.tokens p j) (omega arith) rests, refl)
    all-on (tree x xs) post s ss gen i p rests e (first, laid) =
        let (t, more, head) = flatten_cons x in
        let e1 : drop i st.tokens ≡ flatten x ++ (flatten_all xs ++ post) =
          e ∙ append_assoc (flatten x) (flatten_all xs) post in
        let before : p ≡ some i =
          Rests-some st.tokens p i t (more ++ (flatten_all xs ++ post)) rests
            (e1 ∙ ap (λ l. l ++ (flatten_all xs ++ post)) head) in
        let out : List (List ℕ) = texts st.buffer x ++ texts_all st.buffer xs in
        let j : ℕ = i + length (flatten x ++ flatten_all xs) in
        subst
          (λ q.
            Visited st (visit_all jsmn (tree x xs)) q
              (with_left s (suc (count_trees xs)) false ∷ ss) gen out j (with_left s 0 false ∷ ss))
          (sym before)
          (then-Visited jsmn st (visit jsmn x) _ (some i)
            (with_left s (suc (count_trees xs)) false ∷ ss) gen (texts st.buffer x)
            (i + length (flatten x)) (with_left s (count_trees xs) false ∷ ss) out j
            (with_left s 0 false ∷ ss)
            (visit-on x (flatten_all xs ++ post) s ss gen i (count_trees xs) e1 first)
            λ p' gen' rests'.
              then-Visited jsmn st (visit_all jsmn xs) _ p'
                (with_left s (count_trees xs) false ∷ ss) gen' (texts_all st.buffer xs)
                (i + length (flatten x) + length (flatten_all xs)) (with_left s 0 false ∷ ss) out j
                (with_left s 0 false ∷ ss)
                (all-on xs post s ss gen' (i + length (flatten x)) p' rests'
                  (drop_behind i st.tokens (flatten x) (flatten_all xs ++ post) e1) laid)
                λ p'' gen'' rests''. (
                  p'',
                  gen'',
                  subst (λ k. Rests st.tokens p'' k)
                      (omega (arith, length-append (flatten x) (flatten_all xs))) rests'',
                  refl,
                ))

    pairs-on :
        (ps : Pairs) (post : List Token) (s : JsonScope) (ss : List JsonScope) (gen i : ℕ)
        (p : Option ℕ)
        → s.type ≡ type_object
        → Rests st.tokens p i
        → drop i st.tokens ≡ flatten_pairs ps ++ post
        → LaidPairs st.buffer ps post
        → Visited st
            (visit_pairs jsmn ps)
            p
            (with_left s (count_both ps) false ∷ ss)
            gen
            (texts_pairs st.buffer ps)
            (i + length (flatten_pairs ps))
            (with_left s 0 false ∷ ss)
    pairs-on no_pairs post s ss gen i p is_object rests e laid =
        (p, gen, subst (λ j. Rests st.tokens p j) (omega arith) rests, refl)
    pairs-on (pair k v ps) post s ss gen i p is_object rests e (kind, le, value, laid) =
        let (t, more, head) = flatten_cons v in
        let after : List Token = flatten_pairs ps ++ post in
        let e1 : drop i st.tokens ≡ k ∷ (flatten v ++ after) =
          e ∙ ap (λ l. k ∷ l) (append_assoc (flatten v) (flatten_pairs ps) post) in
        let e2 : drop (suc i) st.tokens ≡ flatten v ++ after =
          ap (λ j. drop j st.tokens) {x = suc i} {y = i + 1} (omega arith)
          ∙ drop_behind i st.tokens (k ∷ []) (flatten v ++ after) e1 in
        let before : p ≡ some i = Rests-some st.tokens p i k (flatten v ++ after) rests e1 in
        let both : List (List ℕ) = texts st.buffer v ++ texts_pairs st.buffer ps in
        let out : List (List ℕ) = text_of st.buffer k ∷ both in
        let j : ℕ = i + suc (length (flatten v ++ flatten_pairs ps)) in
        let m : ℕ = count_both ps in
        subst
          (λ q.
            Visited st (visit_pairs jsmn (pair k v ps)) q (with_left s (suc (suc m)) false ∷ ss) gen
              out j (with_left s 0 false ∷ ss))
          (sym before)
          (key-Visited jsmn st _ s ss gen i (suc m) k out j (with_left s 0 false ∷ ss)
            (at_drop i st.tokens k (flatten v ++ after) e1) kind le is_object
            λ p' gen' rests'.
              then-Visited jsmn st (visit jsmn v) _ p' (with_left s (suc m) false ∷ ss) gen'
                (texts st.buffer v) (suc i + length (flatten v)) (with_left s m false ∷ ss) out j
                (with_left s 0 false ∷ ss)
                (subst
                  (λ q.
                    Visited st (visit jsmn v) q (with_left s (suc m) false ∷ ss) gen'
                      (texts st.buffer v) (suc i + length (flatten v)) (with_left s m false ∷ ss))
                  (sym (
                    Rests-some st.tokens p' (suc i) t (more ++ after) rests'
                      (e2 ∙ ap (λ l. l ++ after) head)))
                  (visit-on v after s ss gen' (suc i) m e2 value))
                λ p'' gen'' rests''.
                  then-Visited jsmn st (visit_pairs jsmn ps) _ p'' (with_left s m false ∷ ss) gen''
                    (texts_pairs st.buffer ps)
                    (suc i + length (flatten v) + length (flatten_pairs ps))
                    (with_left s 0 false ∷ ss) out j (with_left s 0 false ∷ ss)
                    (pairs-on ps post s ss gen'' (suc i + length (flatten v)) p'' is_object rests''
                      (drop_behind (suc i) st.tokens (flatten v) after e2) laid)
                    λ p₃ gen₃ rests₃. (
                      p₃,
                      gen₃,
                      subst (λ l. Rests st.tokens p₃ l)
                          (omega (arith, length-append (flatten v) (flatten_pairs ps))) rests₃,
                      refl,
                    ))
