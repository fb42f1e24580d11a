-- ===== src/Store/Seek.antt =====
-- Reads of internal/storage/memory.go as a seek in the sorted items, and the items that it writes.
use shard_db.Base.{
  ℕ, ◌^◌, ◌<◌, ◌≡◌, ◌≢◌, refl, sym, ap, ◌∙◌, Ordering, true, Option, none, some, List, [], ◌∷◌, All,
  arith,
}
use mathlib.Core.Path.{ap₂}
use shard_db.Bytes.{Bytes, bytes_compare, bytes_equal}
use shard_db.Bytes.Order.{eq_of_equal, compare_refl}
use shard_db.Mvcc.{encode_key}
use shard_db.Mvcc.Laws.{decode_key-encode_key}
use shard_db.Tree.{BTree, Item, walk, from, insert_item}
use shard_db.Tree.Walk.{insert_item-IsSorted, All-insert_item}
use shard_db.Store.{MemoryStore, visit_version, mvcc_get_locked}
use shard_db.Store.Items.{
  IsVersion, IsApart, IsMvcc, user_key, stamp, latest, newer, value_of, pick, seek, pick-from,
}

walk-visit_version : (key : Bytes) (is : List Item) → walk (visit_version key) is none ≡ pick key is
unfolding visit_version
walk-visit_version key [] = refl
walk-visit_version key (i ∷ is) = ground arith

module _ {B : BTree} (s : MemoryStore B) (key : Bytes) (ts : ℕ) where
  pub mvcc_get_locked-pick :
      mvcc_get_locked key ts s ≡ pick key (from (seek key ts) (B.items s.tree))
  unfolding mvcc_get_locked
  mvcc_get_locked-pick =
      B.ascend_greater_or_equal_lem (Option Bytes) (seek key ts) (visit_version key) s.tree none
      ∙ walk-visit_version key (from (seek key ts) (B.items s.tree))

  pub mvcc_get_locked-latest :
      IsMvcc (B.items s.tree)
      → All (IsApart key) (B.items s.tree)
      → ts < 2 ^ 64
      → mvcc_get_locked key ts s ≡ value_of (latest key ts (B.items s.tree))
  mvcc_get_locked-latest w apart h =
      mvcc_get_locked-pick ∙ pick-from key ts (B.items s.tree) h w.sorted w.versions apart

-- The item that a commit writes.
abbrev pub version : Bytes → ℕ → Bytes → Item
version key ts value = record { key = encode_key key ts; value = value }

pub user_key-version :
    (key : Bytes) (ts : ℕ) (value : Bytes) → ts < 2 ^ 64 → user_key (version key ts value) ≡ key
user_key-version key ts value h = ap (λ (p : Bytes × ℕ). p.0) (decode_key-encode_key key ts h)

pub stamp-version :
    (key : Bytes) (ts : ℕ) (value : Bytes) → ts < 2 ^ 64 → stamp (version key ts value) ≡ ts
stamp-version key ts value h = ap (λ (p : Bytes × ℕ). p.1) (decode_key-encode_key key ts h)

pub version-IsVersion :
    (key : Bytes) (ts : ℕ) (value : Bytes) → ts < 2 ^ 64 → IsVersion (version key ts value)
version-IsVersion key ts value h = (
  ap₂ encode_key (sym (user_key-version key ts value h)) (sym (stamp-version key ts value h)),
  omega (arith, stamp-version key ts value h),
)

pub insert_item-IsMvcc :
    (i : Item) (is : List Item) → IsVersion i → IsMvcc is → IsMvcc (insert_item i is)
insert_item-IsMvcc i is v w = record {
  sorted = insert_item-IsSorted i is w.sorted;
  versions = All-insert_item IsVersion i is v w.versions;
}

same_key :
    (i j : Item)
    → IsVersion i
    → IsVersion j
    → user_key i ≡ user_key j
    → stamp i ≡ stamp j
    → i.key ≡ j.key
same_key i j v w e f = v.0 ∙ ap₂ encode_key e f ∙ sym w.0

pub newer_replaced :
    (i j : Item) (o : Option Item) → stamp i ≡ stamp j → newer i (some (newer j o)) ≡ newer i o
newer_replaced i j none e = ground arith
newer_replaced i j (some q) e = ground arith

pub newer_swap :
    (i j : Item) (o : Option Item)
    → stamp i ≢ stamp j
    → newer j (some (newer i o)) ≡ newer i (some (newer j o))
newer_swap i j none n = ground arith
newer_swap i j (some q) n = ground arith

pub distinct_stamps :
    (key : Bytes) (i j : Item)
    → IsVersion i
    → IsVersion j
    → bytes_equal (user_key i) key ≡ true
    → bytes_equal (user_key j) key ≡ true
    → bytes_compare i.key j.key ≡ Ordering.gt
    → stamp i ≢ stamp j
distinct_stamps key i j v w e f g same = cc (
  g,
  same_key i j v w (eq_of_equal (user_key i) key e ∙ sym (eq_of_equal (user_key j) key f)) same,
  compare_refl j.key,
)
