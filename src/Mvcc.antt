-- ===== src/Mvcc.antt =====
-- internal/storage/mvcc.go: a version of a key is stored under the key with its timestamp behind it,
-- inverted so that newer versions sort first.
pub mod Laws
mod Tests
use shard_db.Base.{ℕ, ◌-◌, ◌^◌, ◌++◌, length, take, drop, ltb, if◌then◌else◌}
use shard_db.Bytes.{Bytes, put_uint, uint_from}

-- math.MaxUint64
abbrev pub max_uint64 : ℕ
max_uint64 = 2 ^ 64 - 1

-- EncodeKey; `ts` is a uint64, so the difference does not wrap.
unfoldable pub encode_key : Bytes → ℕ → Bytes
encode_key key ts = key ++ put_uint 8 (max_uint64 - ts)

-- DecodeKey
unfoldable pub decode_key : Bytes → Bytes × ℕ
decode_key joined =
    if ltb (length joined) 8
    then (joined, 0)
    else (let key_len = length joined - 8 in
        (take key_len joined, max_uint64 - uint_from 0 (drop key_len joined)))
