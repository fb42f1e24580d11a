-- ===== src/Store/Items.antt =====
-- What the ascents of internal/storage/memory.go see: the stored versions as a sorted list, and the
-- newest version of a key, defined with no order of the items.
use shard_db.Base.{
  ℕ, ◌^◌, ◌<◌, ◌≡◌, refl, ap, ◌∙◌, compare, Ordering, true, false, ◌&&◌, ◌||◌, Option, none, some,
  List, [], ◌∷◌, All, arith, ltb, leb, if◌then◌else◌, inl, inr, Bool-cases,
}
use shard_db.Bytes.{Bytes, bytes_compare, bytes_equal}
use shard_db.Bytes.Order.{eq_of_equal}
use shard_db.Bytes.Diverge.{diverges}
use shard_db.Mvcc.{encode_key, decode_key}
use shard_db.Mvcc.Laws.{compare-encode_key_same, compare-encode_key-diverges}
use shard_db.Tree.{Item, from, less}
use shard_db.Tree.Walk.{IsSorted, ◌≺◌}

abbrev pub user_key : Item → Bytes
user_key i = (decode_key i.key).0

abbrev pub stamp : Item → ℕ
stamp i = (decode_key i.key).1

-- The key of the item is an encoded key with a uint64 timestamp.
abbrev pub IsVersion : Item → Type 0
IsVersion i = (i.key ≡ encode_key (user_key i) (stamp i)) × (stamp i < 2 ^ 64)

-- The item is of this key, or its key differs from this one before either ends.
abbrev pub IsApart : Bytes → Item → Type 0
IsApart key i = (bytes_equal (user_key i) key || diverges (user_key i) key) ≡ true

pub record IsMvcc (items : List Item) : Type 0 where
  pub sorted : IsSorted items
  pub versions : All IsVersion items

abbrev pub newer : Item → Option Item → Item
newer i none = i
newer i (some j) = if ltb (stamp i) (stamp j) then j else i

-- The newest version of the key at or before the timestamp, wherever it stands in the list.
abbrev pub latest : Bytes → ℕ → List Item → Option Item
latest key ts [] = none
latest key ts (i ∷ is) =
    let rest = latest key ts is in
    if bytes_equal (user_key i) key && leb (stamp i) ts then some (newer i rest) else rest

abbrev pub value_of : Option Item → Option Bytes
value_of none = none
value_of (some i) = some i.value

-- What a seek finds: the first item, if it is of the key.
abbrev pub pick : Bytes → List Item → Option Bytes
pick key [] = none
pick key (i ∷ is) = if bytes_equal (user_key i) key then some i.value else none

abbrev pub IsOther : Bytes → Item → Type 0
IsOther key i = bytes_equal (user_key i) key ≡ false

abbrev pub seek : Bytes → ℕ → Item
seek key ts = record { key = encode_key key ts; value = [] }

-- An item of the key stands before the seek exactly when it is too new.
pub less-seek_same :
    (key : Bytes) (ts : ℕ) (i : Item)
    → ts < 2 ^ 64
    → IsVersion i
    → bytes_equal (user_key i) key ≡ true
    → less i (seek key ts) ≡ ltb ts (stamp i)
unfolding less
less-seek_same key ts i h v e =
    let same : user_key i ≡ key = eq_of_equal (user_key i) key e in
    ground (arith, compare-encode_key_same (user_key i) (stamp i) ts v.1 h, same, v.0)

-- An item of another key is on one side of all versions of this key.
pub compare-encode_key_apart :
    (key : Bytes) (ts : ℕ) (i : Item)
    → IsVersion i
    → IsApart key i
    → IsOther key i
    → bytes_compare i.key (encode_key key ts) ≡ bytes_compare (user_key i) key
compare-encode_key_apart key ts i v a o =
    ap (λ (k : Bytes). bytes_compare k (encode_key key ts)) v.0
    ∙ compare-encode_key-diverges (user_key i) key (stamp i) ts (ground arith)

compare_versions :
    (key : Bytes) (i j : Item)
    → IsVersion i
    → IsVersion j
    → bytes_equal (user_key i) key ≡ true
    → bytes_equal (user_key j) key ≡ true
    → bytes_compare i.key j.key ≡ compare (stamp j) (stamp i)
compare_versions key i j v w e f = cc (
  v.0,
  w.0,
  eq_of_equal (user_key i) key e,
  eq_of_equal (user_key j) key f,
  compare-encode_key_same key (stamp i) (stamp j) v.1 w.1,
)

IsOther-of_gt :
    (key : Bytes) (i j : Item)
    → IsVersion i
    → IsApart key i
    → IsOther key i
    → bytes_compare (user_key i) key ≡ Ordering.gt
    → i ≺ j
    → IsVersion j
    → IsOther key j
IsOther-of_gt key i j v a o g lt w = elim (Bool-cases (bytes_equal (user_key j) key)) [
  | inl e ↦
      cc
        (w.0, eq_of_equal (user_key j) key e, compare-encode_key_apart key (stamp j) i v a o, lt, g)
  | inr e ↦ e
]

module _ (key : Bytes) where
  pub pick-others :
      (ts : ℕ) (is : List Item) → All (IsOther key) is → pick key (from (seek key ts) is) ≡ none
  pick-others ts [] h = refl
  pick-others ts (i ∷ is) h = ground (arith, pick-others ts is h.1)

  pub latest-others : (ts : ℕ) (is : List Item) → All (IsOther key) is → latest key ts is ≡ none
  latest-others ts [] h = refl
  latest-others ts (i ∷ is) h = ground (arith, latest-others ts is h.1)

  -- Behind an item of a greater key there is no version of this key.
  pub others_beyond :
      (i : Item) (is : List Item)
      → IsVersion i
      → IsApart key i
      → IsOther key i
      → bytes_compare (user_key i) key ≡ Ordering.gt
      → All (λ j. i ≺ j) is
      → All IsVersion is
      → All (IsOther key) is
  others_beyond i [] v a o g above vs = tt
  others_beyond i (j ∷ js) v a o g above vs =
      (IsOther-of_gt key i j v a o g above.0 vs.0, others_beyond i js v a o g above.1 vs.1)

module _ (key : Bytes) (ts : ℕ) where
  pub newer-latest :
      (i : Item) (is : List Item)
      → IsVersion i
      → bytes_equal (user_key i) key ≡ true
      → All (λ j. i ≺ j) is
      → All IsVersion is
      → newer i (latest key ts is) ≡ i
  newer-latest i [] v e above vs = refl
  newer-latest i (j ∷ js) v e above vs =
      ground (arith, newer-latest i js v e above.1 vs.1, compare_versions key i j v vs.0 e)

  pick-from_other :
      (i : Item) (is : List Item)
      → ts < 2 ^ 64
      → IsVersion i
      → IsApart key i
      → IsOther key i
      → pick key (from (seek key ts) is) ≡ value_of (latest key ts is)
      → (bytes_compare (user_key i) key ≡ Ordering.gt → latest key ts is ≡ none)
      → pick key (from (seek key ts) (i ∷ is)) ≡ value_of (latest key ts (i ∷ is))
  unfolding less bytes_equal
  pick-from_other i is h v a o ih beyond =
      ground (arith, compare-encode_key_apart key ts i v a o, beyond)

  -- The first item at or behind the seek is the newest visible version, if there is one.
  pub pick-from :
      (is : List Item)
      → ts < 2 ^ 64
      → IsSorted is
      → All IsVersion is
      → All (IsApart key) is
      → pick key (from (seek key ts) is) ≡ value_of (latest key ts is)
  pick-from [] h srt vs aps = refl
  pick-from (i ∷ is) h srt vs aps = elim (Bool-cases (bytes_equal (user_key i) key)) [
    | inl e ↦ ground (
      arith,
      less-seek_same key ts i h vs.0 e,
      pick-from is h srt.1 vs.1 aps.1,
      newer-latest i is vs.0 e srt.0 vs.1,
    )
    | inr o ↦
        pick-from_other i is h vs.0 aps.0 o (pick-from is h srt.1 vs.1 aps.1)
          (λ g. latest-others key ts is (others_beyond key i is vs.0 aps.0 o g srt.0 vs.1))
  ]
