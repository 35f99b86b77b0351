-- ===== src/Lib.antt =====
-- cppheaders (include/cpph): models of a header library's containers, allocators, encodings and
-- archives, with what makes them correct.
--
-- The program's parts. A ring of slots (container/circular_queue.hxx) is the buffer of the
-- library's pipelines and streams. A ring of memory blocks (memory/ring_allocator.hxx) hands out
-- and takes back raw memory in any order. container/flat_map.hxx keeps a map and a set in sorted
-- vectors, and container/static_vector.hxx a vector in place. algorithm/base64.hxx turns bytes
-- into text and back. The archives (refl/archive) write reflected objects and read them: a writer
-- of a format checks the order of its calls with a `write_context_helper` and puts bytes on a
-- stream buffer, and the reader keeps a stack of scopes of its own. The JSON writer escapes
-- strings with helper/strutil.hxx and puts binaries through the base64 buffer of
-- streambuf/base64.hxx. thread/event_queue.hxx hands messages from thread to thread in nodes that
-- it takes from a ring of memory blocks or from the heap.
--
-- The files.
--   Prelude: shared names, Boolean tests, lists over the native numbers, bit fields.
--   CircularQueue: include/cpph/container/circular_queue.hxx. `CircularQueue` has the fields of
--     the class; a slot holds the object that lives in its chunk, if one does. `Bulk` and `Copy`
--     hold the operations on many elements; `Holds` relates a queue to the sequence it stands for;
--     `Ends`, `Ranges`, `Drain`, `Enqueue`, `Refine` and `Resize` have the laws of the operations,
--     `Iterator` is about iterators, `History` about any sequence of calls.
--   RingAllocator: include/cpph/memory/ring_allocator.hxx. A pointer is an index of a node of 8
--     bytes; a null pointer is `none`. `Shape` relates a ring to the blocks in it and `Apart` says
--     that these do not overlap; `Place` and `Allocate`, `Flush` and `Deallocate` have the laws of
--     the operations, `Trace` those of any history, `Bounds` the sizes.
--   FlatMap: include/cpph/container/flat_map.hxx, `flat_map` with an iterator as an index, and
--     in `Set` `flat_set`. `Lookup` brings the operations to walks along the vector, `Laws` is
--     about the map.
--   StaticVector: include/cpph/container/static_vector.hxx, on slots that hold an object or not;
--     `Laws` relates a vector to the list of its elements, and shows where elements are lost.
--   Base64: include/cpph/algorithm/base64.hxx, its tables, encoder, decoder and sizes; `Tables`,
--     `Words` and `Frames` lead to `RoundTrip`.
--   Streambuf: include/cpph/streambuf/base64.hxx, `basic_b64` as a put area and a get area;
--     `Base64Writes` and `Base64Reads` relate each to the encoder.
--   Strutil: include/cpph/helper/strutil.hxx. Its loops are folds over the characters, with what
--     the loop is in the middle of as a state (`Place`, `Sequence`); `Unescape` and `Utf8` have
--     the laws.
--   EventQueue: include/cpph/thread/event_queue.hxx, on a heap of nodes at addresses. `Chain` is
--     what the pointers lead through, `Holds` says which nodes there are, through each step,
--     `Clears` is about `clear`, and `History` about any sequence of steps.
--   Archive.Run: methods that return or throw, on the state of their object.
--   Archive.WriteContext: include/cpph/refl/archive/detail/context_helper.hxx; `Laws` is about
--     single calls, `Sequences` about whole values.
--   Archive.Msgpack: include/cpph/refl/archive/detail/msgpack.hxx (`Codes`), msgpack-writer.hxx
--     (`Writer`) and msgpack-reader.hxx (`Reader`, with `Scopes`, `Types` and `Skip`). `Numbers`,
--     `Integers`, `Headers`, `RoundTrip`, `Arrays` and `Skipping` relate the two; `Consumes`,
--     `Counts`, `Skips` and `Closes` under `Reader` are about skipping any stream; `Edges` and
--     `Nested` are about input that goes wrong.
--   Archive.Json: include/cpph/refl/archive/json-writer.hxx (`Writer`). `Text` has the
--     documents, the calls that write them and their text, which `Printing`, `Documents` and
--     `Rendering` compare.
--   Archive.Json.Reader: include/cpph/refl/archive/json-reader.hxx, the state and the steps over
--     the tokens, with `_prepare` in `Prepare` and the methods in `Values`. `Ready` is about
--     `_prepare`; `Trees` has values as trees of tokens, which `Steps`, `Visits`, `Reads` and
--     `Passing` read and pass over; `Keys` is about `goto_key`, `Integers` and `Printed` about
--     numbers.
--
-- Conventions. `size_t` and the other unsigned types are natural numbers whose wrap-around is
-- written out; an `int64_t` is its 64-bit pattern. A failed assertion and an access outside an
-- object's memory are `none`, or errors of the run in the archives. A branch on whether the element type is trivial is a parameter. The
-- loops of the queue run on the capacity as fuel, of which each round uses one slot; `_flush_ring`
-- runs on one round more than the blocks of the ring, since each round passes a node;
-- `_discard_n_bytes` runs on the number of bytes, of which each round takes at least one.
-- `_skip_once` and `_break_scope` run on twice the bytes left and two more, since each call reads
-- a byte or closes the scope of a call that did; the capacity of the vector of scopes, on which the
-- pointer that `_break_scope` keeps depends, is an argument of both; `clear` of the event queue runs on the number of
-- nodes. The tokens of the JSON reader grow at most once more than there are characters, since
-- each growth adds four at least. A decimal number has at most twenty digits.
--
-- Parameters. `grow` is the capacity that a vector takes when it grows. `Jsmn` is the vendored tokenizer, of which `Works` says what the reader relies on.
-- `strtod` is the host's. `beyond` is the memory after the input of the base64 encoder, which
-- loads four bytes for three. `from_float` is the host's cast of a floating number to an integer,
-- `text` what the host prints for one. `ring_address` and `heap_address` are where the allocators
-- of the event queue place a node.
--
-- `std::lower_bound` is the first position that is not less, which it finds by halving where the
-- vector is in order.
--
-- Not modelled: the rpc session, the threads, the reflection macros, the reads of floating numbers
-- of the msgpack reader, the timed waits of the event queue, floating-point geometry, vendored code, the fallback
-- allocator of the ring but for its sizes.
pub mod Prelude
pub mod CircularQueue
pub mod RingAllocator
pub mod Base64
pub mod Streambuf
pub mod Strutil
pub mod FlatMap
pub mod StaticVector
pub mod EventQueue
pub mod Archive
