-- ===== src/Archive/WriteContext/Tests.antt =====
-- include/cpph/refl/archive/detail/context_helper.hxx on concrete scopes.
use cppheaders.Prelude.{◌≡◌, [], ◌∷◌, arith}
use cppheaders.Archive.Run.{returned}
use cppheaders.Archive.WriteContext.{array, Scopes}
use cppheaders.Archive.WriteContext.Laws.{Ready, ReadyIn}
use cppheaders.Archive.WriteContext.Sequences.{
  Shape, leaf, array_of, object_of, nothing, also, count, write_shape, write_shape-Ready, at, Fits,
}

-- `{"a": [1, 2], "b": 3}`
abbrev sample : Shape
sample = object_of (also (array_of (also leaf (also leaf nothing))) (also leaf nothing))

abbrev inside : Scopes
inside = at array 1 2 ∷ []

sample-Fits : Fits sample
unfolding Fits count
sample-Fits = (omega arith, ((omega arith, (tt, (tt, tt))), (tt, tt)))

inside-Ready : Ready inside
unfolding Ready ReadyIn
inside-Ready = (tt, omega arith, omega arith)

write_shape-Ready_example : write_shape sample inside ≡ returned tt (at array 2 2 ∷ [])
write_shape-Ready_example = write_shape-Ready sample inside sample-Fits inside-Ready
