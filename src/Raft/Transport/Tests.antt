-- ===== src/Raft/Transport/Tests.antt =====
-- Messages of a node with two peers, and the theorem at them.
use shard_db.Base.{ℕ, ◌≡◌, refl, some, [], ◌∷◌, arith, Bool, false, ◌==◌, ◌||◌, none}
use shard_db.Bytes.{codes, Bytes, bytes_equal}
use shard_db.Decimal.{format_decimal}
use shard_db.Peers.{shard_peers, meta_peers}
use shard_db.Peers.Flag.{flag_of}
use shard_db.Strings.Split.{Lacks}
use shard_db.Strings.{join, has_suffix}
use shard_db.Raft.Transport.{
  MessageCodec, new_http_transport, set_peers, send, Delivered, full_url, handler-send,
}

-- A message is its receiver and a number.
abbrev codec : MessageCodec
codec = record {
  Message = ℕ × ℕ;
  to = λ m. m.0;
  marshal = λ m. some (m.0 ∷ m.1 ∷ []);
  unmarshal = λ b. elim b [ i ∷ (n ∷ rest) ↦ some (i, n) | _ ↦ none ];
}

abbrev flag : Bytes
flag = codes "1=http://a,2=http://b/raft"

flag-peers : flag_of ((1, codes "http://a") ∷ (2, codes "http://b/raft") ∷ []) ≡ flag
unfolding join format_decimal
flag-peers = refl

abbrev has : ℕ → Bytes → Bool
has sep [] = false
has sep (c ∷ cs) = c == sep || has sep cs

Lacks-of_has : (sep : ℕ) (b : Bytes) → has sep b ≡ false → Lacks sep b
Lacks-of_has sep [] h = tt
Lacks-of_has sep (c ∷ cs) h = (ground arith, Lacks-of_has sep cs (ground arith))

-- The message for the peer 3 is dropped.
handler-send_example :
    (shard_peers flag ≡ some (meta_peers flag))
    × Delivered codec
        ((1, codes "http://a") ∷ (2, codes "http://b/raft") ∷ [])
        ((2, 7) ∷ (3, 8) ∷ (1, 9) ∷ [])
        ((codes "http://b/raft", (200, some (2, 7)))
          ∷ (codes "http://a/raft", (200, some (1, 9)))
          ∷ [])
unfolding full_url has_suffix bytes_equal join format_decimal send shard_db.Peers.get_peer set_peers
    meta_peers shard_db.Peers.meta_parts shard_db.Strings.split shard_db.Peers.add_pair
    shard_db.Decimal.scan_uint64 shard_db.Raft.Transport.handler
handler-send_example =
    handler-send codec (1, codes "http://a") ((2, codes "http://b/raft") ∷ []) new_http_transport
      ((2, 7) ∷ (3, 8) ∷ (1, 9) ∷ [])
      (
        (
          omega arith,
          Lacks-of_has b',' (codes "http://a") refl,
          Lacks-of_has b'=' (codes "http://a") refl,
        ),
        (
          (
            omega arith,
            Lacks-of_has b',' (codes "http://b/raft") refl,
            Lacks-of_has b'=' (codes "http://b/raft") refl,
          ),
          tt,
        ),
      )
      ((_, refl, refl), ((_, refl, refl), ((_, refl, refl), tt)))
