-- ===== src/Mvcc/Laws.antt =====
-- Decoding inverts encoding, and the order of encoded keys: the versions of one key newest first,
-- keys that diverge in the order of the keys.
use shard_db.Base.{
  ℕ, ◌+◌, ◌-◌, ◌^◌, ◌<◌, ◌≡◌, ◌++◌, true, false, compare, length, ltb, arith, length-append,
  take-append, drop-append, ◌∙◌, ap,
}
use shard_db.Bytes.{Bytes, bytes_compare, put_uint, uint_from}
use shard_db.Bytes.Order.{compare-append_left}
use shard_db.Bytes.Diverge.{diverges, compare-append_diverges}
use shard_db.Bytes.Endian.{length-put_uint, uint_from-put_uint, compare-put_uint}
use shard_db.Mvcc.{encode_key, decode_key, max_uint64}

pub length-encode_key : (key : Bytes) (ts : ℕ) → length (encode_key key ts) ≡ length key + 8
unfolding encode_key
length-encode_key key ts =
    length-append key (put_uint 8 (max_uint64 - ts))
    ∙ ap (λ (t : ℕ). length key + t) (length-put_uint 8 (max_uint64 - ts))

decode_key-append :
    (p q : Bytes) → length q ≡ 8 → decode_key (p ++ q) ≡ (p, max_uint64 - uint_from 0 q)
unfolding decode_key
decode_key-append p q h =
    let long : ltb (length (p ++ q)) 8 ≡ false = ground (arith, length-append p q) in
    let start : length (p ++ q) - 8 ≡ length p = omega (arith, length-append p q) in
    rw (long, start, take-append p q, drop-append p q)

-- Decoding an encoded key gives back the key and the timestamp, for every uint64 timestamp.
pub decode_key-encode_key :
    (key : Bytes) (ts : ℕ) → ts < 2 ^ 64 → decode_key (encode_key key ts) ≡ (key, ts)
unfolding encode_key
decode_key-encode_key key ts h =
    decode_key-append key (put_uint 8 (max_uint64 - ts)) (length-put_uint 8 (max_uint64 - ts))
    ∙ ap (λ (t : ℕ). (key, max_uint64 - t)) (uint_from-put_uint 8 0 (max_uint64 - ts))
    ∙ ap (λ (t : ℕ). (key, t)) (omega arith)

pub compare-encode_key_same :
    (key : Bytes) (a b : ℕ)
    → a < 2 ^ 64
    → b < 2 ^ 64
    → bytes_compare (encode_key key a) (encode_key key b) ≡ compare b a
unfolding encode_key
compare-encode_key_same key a b ha hb =
    compare-append_left key _ _ ∙ compare-put_uint 8 _ _ ∙ ground arith

pub compare-encode_key-diverges :
    (k j : Bytes) (a b : ℕ)
    → diverges k j ≡ true
    → bytes_compare (encode_key k a) (encode_key j b) ≡ bytes_compare k j
unfolding encode_key
compare-encode_key-diverges k j a b h = compare-append_diverges k j _ _ h
