-- ===== src/Store/Versions.antt =====
-- MVCCGet of internal/storage/mvcc.go, a read through Scan.
use shard_db.Base.{
  ℕ, ◌+◌, ◌-◌, ◌^◌, ◌<◌, ◌≡◌, refl, sym, ap, ◌∙◌, Ordering, Bool, true, false, not, Option, none,
  some, List, [], ◌∷◌, ◌++◌, All, arith, ltb, length, if◌then◌else◌, Bool-cases, inl, inr,
  append_assoc, compare,
}
use shard_db.Bytes.{Bytes, bytes_compare, bytes_equal, bytes_ltb, then, put_uint}
use shard_db.Bytes.Order.{eq_of_equal, compare-append_left}
use shard_db.Bytes.Diverge.{diverges, compare-append_diverges}
use shard_db.Bytes.Endian.{length-put_uint, compare-put_uint}
use shard_db.Mvcc.{encode_key, decode_key, max_uint64}
use shard_db.Tree.{BTree, Item, walk, from, less}
use shard_db.Store.{MemoryStore, scan, scan_visit}
use shard_db.Store.Items.{
  IsVersion, IsApart, IsMvcc, user_key, stamp, latest, value_of, pick, seek, pick-from,
  less-seek_same, compare-encode_key_apart,
}

-- the callback of MVCCGet; it always stops the scan
unfoldable pub visit_first : Bytes → Bytes → Bytes → Option Bytes → Option Bytes × Bool
visit_first key k v val =
    if not (bytes_equal (decode_key k).0 key) then (val, false) else (some v, false)

-- MVCCGet; `none` is a nil slice
unfoldable pub mvcc_get : {B : BTree} → Bytes → ℕ → MemoryStore B → Option Bytes
mvcc_get key read_ts s = scan (Option Bytes) (encode_key key read_ts) none (visit_first key) s none

compare-append_same :
    (a b : Bytes) (x : ℕ) (s : Bytes)
    → length a ≡ length b
    → bytes_compare a (b ++ x ∷ s) ≡ (then) (bytes_compare a b) Ordering.lt
unfolding bytes_compare
compare-append_same [] [] x s h = refl
compare-append_same [] (y ∷ b) x s h = ground arith
compare-append_same (c ∷ a) [] x s h = ground arith
compare-append_same (c ∷ a) (y ∷ b) x s h = ground (arith, compare-append_same a b x s)

module _ (key : Bytes) (t : ℕ) (h : t + 1 < 2 ^ 64) where
  -- where Scan starts: the start key of MVCCGet, encoded once more
  start : Item
  start = record { key = encode_key (encode_key key (t + 1)) max_uint64; value = [] }

  compare-start_same :
      (ts : ℕ)
      → ts < 2 ^ 64
      → bytes_compare (encode_key key ts) start.key ≡ (then) (compare (t + 1) ts) Ordering.lt
  unfolding start encode_key put_uint
  compare-start_same ts k =
      let a = put_uint 8 (max_uint64 - ts) in
      let b = put_uint 8 (max_uint64 - (t + 1)) in
      let z = put_uint 7 0 in
      ap (λ (r : Bytes). bytes_compare (key ++ a) r) (append_assoc key b (0 ∷ z))
      ∙ compare-append_left key a (b ++ 0 ∷ z)
      ∙ compare-append_same a b 0 z
          (length-put_uint 8 (max_uint64 - ts) ∙ sym (length-put_uint 8 (max_uint64 - (t + 1))))
      ∙ ap (λ o. (then) o Ordering.lt)
          (compare-put_uint 8 (max_uint64 - ts) (max_uint64 - (t + 1)) ∙ ground arith)

  compare-start_apart :
      (i : Item)
      → IsVersion i
      → diverges (user_key i) key ≡ true
      → bytes_compare i.key start.key ≡ bytes_compare (user_key i) key
  unfolding start encode_key
  compare-start_apart i v d =
      let a = put_uint 8 (max_uint64 - stamp i) in
      let b = put_uint 8 (max_uint64 - (t + 1)) in
      let z = put_uint 8 (max_uint64 - max_uint64) in
      ap (λ (r : Bytes). bytes_compare r ((key ++ b) ++ z)) v.0
      ∙ ap (λ (r : Bytes). bytes_compare (user_key i ++ a) r) (append_assoc key b z)
      ∙ compare-append_diverges (user_key i) key a (b ++ z) d

  -- The scan starts where a read at the timestamp before would.
  less-start : (i : Item) → IsVersion i → IsApart key i → less i start ≡ less i (seek key t)
  unfolding less bytes_ltb
  less-start i v a = elim (Bool-cases (bytes_equal (user_key i) key)) [
    | inl same ↦
        let is : i.key ≡ encode_key key (stamp i) =
          v.0 ∙ ap (λ k. encode_key k (stamp i)) (eq_of_equal (user_key i) key same) in
        let here : less i start ≡ ltb t (stamp i) =
          ap (λ (k : Bytes). bytes_ltb k start.key) is
          ∙ ground (arith, compare-start_same (stamp i) v.1) in
        here ∙ sym (less-seek_same key t i (omega arith) v same)
    | inr other ↦
        ground (
          arith,
          compare-start_apart i v (ground arith),
          compare-encode_key_apart key t i v a other,
        )
  ]

  from-start :
      (is : List Item)
      → All IsVersion is
      → All (IsApart key) is
      → from start is ≡ from (seek key t) is
  from-start [] vs aps = refl
  from-start (i ∷ is) vs aps = ground (arith, less-start i vs.0 aps.0, from-start is vs.1 aps.1)

walk-visit_first :
    (key : Bytes) (is : List Item) → walk (scan_visit none (visit_first key)) is none ≡ pick key is
unfolding scan_visit visit_first
walk-visit_first key [] = refl
walk-visit_first key (i ∷ is) = ground arith

-- MVCCGet at a timestamp other than 0, in a well-formed store and at a key that is neither a proper
-- prefix nor a proper extension of another stored key, returns the newest version before the
-- timestamp: a version at the timestamp itself is not seen, unlike in GetTxn.
pub mvcc_get-before :
    {B : BTree} (s : MemoryStore B) (key : Bytes) (t : ℕ)
    → t + 1 < 2 ^ 64
    → IsMvcc (B.items s.tree)
    → All (IsApart key) (B.items s.tree)
    → mvcc_get key (t + 1) s ≡ value_of (latest key t (B.items s.tree))
unfolding mvcc_get scan start
mvcc_get-before {B} s key t h w apart =
    B.ascend_greater_or_equal_lem (Option Bytes) (start key t h) (scan_visit none (visit_first key))
      s.tree none
    ∙ walk-visit_first key (from (start key t h) (B.items s.tree))
    ∙ ap (pick key) (from-start key t h (B.items s.tree) w.versions apart)
    ∙ pick-from key t (B.items s.tree) (omega arith) w.sorted w.versions apart
