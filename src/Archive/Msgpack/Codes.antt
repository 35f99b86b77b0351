-- ===== src/Archive/Msgpack/Codes.antt =====
-- include/cpph/refl/archive/detail/msgpack.hxx: `typecode`, as the value of its byte.
use cppheaders.Prelude.{ℕ}

abbrev pub positive_fixint : ℕ
positive_fixint = 0

abbrev pub negative_fixint : ℕ
negative_fixint = 224

abbrev pub fixmap : ℕ
fixmap = 128

abbrev pub fixarray : ℕ
fixarray = 144

abbrev pub fixstr : ℕ
fixstr = 160

abbrev pub code_error : ℕ
code_error = 193

abbrev pub nil : ℕ
nil = 192

abbrev pub bool_false : ℕ
bool_false = 194

abbrev pub bool_true : ℕ
bool_true = 195

abbrev pub bin8 : ℕ
bin8 = 196

abbrev pub ext8 : ℕ
ext8 = 199

abbrev pub float32 : ℕ
float32 = 202

abbrev pub float64 : ℕ
float64 = 203

abbrev pub uint8 : ℕ
uint8 = 204

abbrev pub uint16 : ℕ
uint16 = 205

abbrev pub uint32 : ℕ
uint32 = 206

abbrev pub uint64 : ℕ
uint64 = 207

abbrev pub int8 : ℕ
int8 = 208

abbrev pub int16 : ℕ
int16 = 209

abbrev pub int32 : ℕ
int32 = 210

abbrev pub int64 : ℕ
int64 = 211

abbrev pub fixext1 : ℕ
fixext1 = 212

abbrev pub str8 : ℕ
str8 = 217

abbrev pub array16 : ℕ
array16 = 220

abbrev pub array32 : ℕ
array32 = 221

abbrev pub map16 : ℕ
map16 = 222

abbrev pub map32 : ℕ
map32 = 223
