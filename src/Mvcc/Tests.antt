-- ===== src/Mvcc/Tests.antt =====
-- A key with its timestamp, encoded and decoded.
use shard_db.Base.{◌≡◌, arith}
use shard_db.Bytes.{codes}
use shard_db.Mvcc.{encode_key, decode_key}
use shard_db.Mvcc.Laws.{decode_key-encode_key}

decode_key-encode_key_example :
    decode_key (encode_key (codes "users:7") 1700000000) ≡ (codes "users:7", 1700000000)
decode_key-encode_key_example = decode_key-encode_key (codes "users:7") 1700000000 (omega arith)
