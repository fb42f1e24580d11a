-- ===== src/Store/Backup.antt =====
-- GetSnapshotData and RestoreSnapshot of internal/storage/memory.go. The JSON text is the members of
-- the object that it writes: names are strings, and values are base64, which keeps all bytes.
use mathlib.Core.Path.{subst}
use shard_db.Base.{
  ℕ, ◌-◌, ◌/◌, ◌%◌, ◌^◌, ◌<◌, ◌≡◌, refl, sym, Bool, true, false, Option, none, some, List, [], ◌∷◌,
  All, All-imp, arith, Bool-cases, inl, inr, if◌then◌else◌,
}
use shard_db.Base.Result.{Result, ok, err}
use shard_db.Bytes.{Bytes, bytes_equal, put_uint, codes}
use shard_db.Bytes.Order.{eq_of_equal}
use shard_db.Dict
use shard_db.Dict.{Dict}
use shard_db.Mvcc.{encode_key, max_uint64}
use shard_db.Store.{MemoryStore}
use shard_db.Tree.{BTree, Item}
use shard_db.Tree.Walk.{All-insert_item}
use shard_db.Utf8.{sanitize, IsText, sanitize-IsText}

-- the callback of GetSnapshotData
unfoldable pub collect_item : Item → Dict Bytes → Dict Bytes × Bool
collect_item it data_ = (Dict.put it.key it.value data_, true)

-- Encode: the members that the encoder writes, in the order of the keys, which is that of the ascent
unfoldable pub encode_members : Dict Bytes → List (Bytes × Bytes)
encode_members [] = []
encode_members ((k, v) ∷ rest) = (sanitize k, v) ∷ encode_members rest

-- Decode: a name that occurs again replaces the value.
unfoldable pub decode_members : List (Bytes × Bytes) → Dict Bytes → Dict Bytes
decode_members [] kvs = kvs
decode_members ((k, v) ∷ rest) kvs = decode_members rest (Dict.put k v kvs)

-- the loop of RestoreSnapshot
unfoldable pub insert_all : (B : BTree) → Dict Bytes → B.Tree → B.Tree
insert_all B [] tree = tree
insert_all B ((k, v) ∷ kvs) tree =
    insert_all B kvs (B.replace_or_insert tree (record { key = k; value = v }))

module _ {B : BTree} where
  -- GetSnapshotData
  unfoldable pub get_snapshot_data : MemoryStore B → List (Bytes × Bytes)
  unfolding collect_item encode_members
  get_snapshot_data s = encode_members (B.ascend (Dict Bytes) collect_item s.tree [])

  -- RestoreSnapshot; `none` is a text that is no such object
  unfoldable pub restore_snapshot :
      Option (List (Bytes × Bytes)) → MemoryStore B → MemoryStore B × Result Bytes (Unit {0})
  restore_snapshot none s = (s, err (codes "decode"))
  restore_snapshot (some members) s =
      (record s { tree = insert_all B (decode_members members []) (B.clear s.tree) }, ok tt)

abbrev IsTextPair : Bytes × Bytes → Type 0
IsTextPair p = IsText p.0

abbrev IsTextItem : Item → Type 0
IsTextItem i = IsText i.key

encode_members-IsText : (m : Dict Bytes) → All IsTextPair (encode_members m)
unfolding encode_members
encode_members-IsText [] = tt
encode_members-IsText ((k, v) ∷ rest) = (sanitize-IsText k, encode_members-IsText rest)

put-IsText :
    (k v : Bytes) (m : Dict Bytes) → IsText k → All IsTextPair m → All IsTextPair (Dict.put k v m)
unfolding Dict.put
put-IsText k v [] t h = (t, tt)
put-IsText k v ((j, w) ∷ m) t h =
    elim (bytes_equal j k)
      as (λ b. All IsTextPair (if b then (k, v) ∷ m else (j, w) ∷ Dict.put k v m)) [
        | true ↦ (t, h.1)
        | false ↦ (h.0, put-IsText k v m t h.1)
      ]

decode_members-IsText :
    (l : List (Bytes × Bytes)) (kvs : Dict Bytes)
    → All IsTextPair l
    → All IsTextPair kvs
    → All IsTextPair (decode_members l kvs)
unfolding decode_members
decode_members-IsText [] kvs h k = k
decode_members-IsText ((n, v) ∷ rest) kvs h k =
    decode_members-IsText rest (Dict.put n v kvs) h.1 (put-IsText n v kvs h.0 k)

insert_all-IsText :
    (B : BTree) (kvs : Dict Bytes) (tree : B.Tree)
    → All IsTextPair kvs
    → All IsTextItem (B.items tree)
    → All IsTextItem (B.items (insert_all B kvs tree))
unfolding insert_all
insert_all-IsText B [] tree h k = k
insert_all-IsText B ((n, v) ∷ kvs) tree h k =
    let i : Item = record { key = n; value = v } in
    insert_all-IsText B kvs (B.replace_or_insert tree i) h.1 (
      subst (All IsTextItem) (sym (B.items-replace_or_insert tree i))
        (All-insert_item IsTextItem i (B.items tree) h.0 k))

-- The inverted timestamp of an early version starts with the byte 255.
first_byte : (ts : ℕ) → ts < 2 ^ 56 → (max_uint64 - ts) / 256 ^ 7 % 256 ≡ 255
first_byte ts h = omega arith

early-IsText : (key : Bytes) (ts : ℕ) → ts < 2 ^ 56 → IsText (encode_key key ts) → ⊥
unfolding encode_key put_uint
early-IsText [] ts h t = ground (arith, first_byte ts h, t.0)
early-IsText (c ∷ key) ts h t = early-IsText key ts h t.1

not_early :
    (key : Bytes) (ts : ℕ) (i : Item)
    → ts < 2 ^ 56
    → IsTextItem i
    → bytes_equal i.key (encode_key key ts) ≡ false
not_early key ts i h t = elim (Bool-cases (bytes_equal i.key (encode_key key ts))) [
  | inl same ↦
      absurd (early-IsText key ts h (subst IsText (eq_of_equal i.key (encode_key key ts) same) t))
  | inr other ↦ other
]

restore-IsText :
    {B : BTree} (s t : MemoryStore B)
    → All IsTextItem (B.items (restore_snapshot (some (get_snapshot_data s)) t).0.tree)
unfolding restore_snapshot get_snapshot_data
restore-IsText {B} s t =
    let data_ = B.ascend (Dict Bytes) collect_item s.tree [] in
    insert_all-IsText B (decode_members (encode_members data_) []) (B.clear t.tree)
      (decode_members-IsText (encode_members data_) [] (encode_members-IsText data_) tt)
      (subst (All IsTextItem) (sym (B.items-clear t.tree)) tt)

restore-locks :
    {B : BTree} (s t : MemoryStore B)
    → (restore_snapshot (some (get_snapshot_data s)) t).0.locks ≡ t.locks
unfolding restore_snapshot
restore-locks s t = refl

-- A store restored from the snapshot of another one has no version of any key with a timestamp below
-- 2 ^ 56, whatever versions the other one had: the encoded keys of such versions are not UTF-8, so
-- the JSON text of the snapshot has other names. The locks are those from before the restore.
pub restore_snapshot-loses :
    {B : BTree} (s t : MemoryStore B) (key : Bytes) (ts : ℕ)
    → ts < 2 ^ 56
    → let r = (restore_snapshot (some (get_snapshot_data s)) t).0 in
      All (λ i. bytes_equal i.key (encode_key key ts) ≡ false) (B.items r.tree)
      × (r.locks ≡ t.locks)
restore_snapshot-loses {B} s t key ts h = (
  All-imp (λ i text. not_early key ts i h text)
      (B.items (restore_snapshot (some (get_snapshot_data s)) t).0.tree) (restore-IsText s t),
  restore-locks s t,
)
