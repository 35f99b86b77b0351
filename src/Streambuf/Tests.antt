-- ===== src/Streambuf/Tests.antt =====
-- include/cpph/streambuf/base64.hxx on concrete bytes.
use cppheaders.Prelude.{ℕ, ◌≡◌, List, [], ◌∷◌, ◌++◌, arith, some, ◌>>=◌}
use cppheaders.Base64.{encode_bytes}
use cppheaders.Streambuf.Base64.{sync, sgetn}
use cppheaders.Streambuf.Base64Writes.{put_all, put_all-encode_bytes}
use cppheaders.Streambuf.Base64Reads.{sgetn-encode_bytes}

abbrev zeros : ℕ → ℕ
zeros n = 0

abbrev pieces : List (List ℕ)
pieces = (72 ∷ 101 ∷ []) ∷ [] ∷ (108 ∷ 108 ∷ 111 ∷ []) ∷ []

put_all-encode_bytes_example :
    (put_all 1 zeros pieces (record { obuf = []; src = some [] }) >>= λ t. sync 1 zeros t)
    ≡ some (record {
      obuf = [];
      src = some ([] ++ encode_bytes zeros (72 ∷ 101 ∷ 108 ∷ 108 ∷ 111 ∷ []));
    })
put_all-encode_bytes_example =
    put_all-encode_bytes 1 zeros zeros pieces [] (omega arith)
      (omega arith, (omega arith, (omega arith, (omega arith, (omega arith, tt)))))

sgetn-encode_bytes_example :
    (ibuf' : List ℕ) × (sgetn 1 5 (record {
      ibuf = [];
      left = [];
      source = encode_bytes zeros (72 ∷ 101 ∷ 108 ∷ 108 ∷ 111 ∷ []);
    })
      ≡ some (72 ∷ 101 ∷ 108 ∷ 108 ∷ 111 ∷ [], record { ibuf = ibuf'; left = []; source = [] }))
sgetn-encode_bytes_example =
    sgetn-encode_bytes 1 zeros (72 ∷ 101 ∷ 108 ∷ 108 ∷ 111 ∷ []) [] (omega arith)
      (omega arith, (omega arith, (omega arith, (omega arith, (omega arith, tt)))))
