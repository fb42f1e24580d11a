-- ===== src/Store/Abstract/View.antt =====
-- The abstract state of a store, and what a written version and a changed lock table do to it.
use shard_db.Base.{
  ℕ, ◌^◌, ◌<◌, ◌≡◌, refl, sym, ap, ◌∙◌, Bool, true, ◌&&◌, Option, none, some, List, [], ◌∷◌, All,
  arith, ◌==◌, inl, inr, Bool-cases, if◌then◌else◌,
}
use mathlib.Core.Path.{ap₂, fun_ext}
use shard_db.Bytes.{Bytes, bytes_equal}
use shard_db.Bytes.Order.{eq_of_equal, eq_of_compare, compare_refl, equal_refl}
use shard_db.Dict
use shard_db.Dict.{Dict}
use shard_db.Mvcc.{encode_key, decode_key}
use shard_db.Mvcc.Laws.{decode_key-encode_key}
use shard_db.Tree.{BTree, Item, insert_item}
use shard_db.Store.{MemoryStore, Lock}
use shard_db.Store.Items.{IsVersion, user_key, stamp}
use shard_db.Store.Seek.{version, user_key-version, stamp-version, version-IsVersion}
use shard_db.Store.Abstract.{Abstract, write}

-- Whether the item is the version of the key at the timestamp.
abbrev pub is_at : Bytes → ℕ → Item → Bool
is_at key ts i = bytes_equal (user_key i) key && stamp i == ts

abbrev pub find : Bytes → ℕ → List Item → Option Bytes
find key ts [] = none
find key ts (i ∷ is) = if is_at key ts i then some i.value else find key ts is

abbrev pub view : {B : BTree} → MemoryStore B → Abstract
view {B} s = record {
  at = λ key ts. find key ts (B.items s.tree);
  held = λ key. Dict.get key s.locks;
}

pub same_place :
    (key : Bytes) (ts : ℕ) (i j : Item)
    → IsVersion i
    → IsVersion j
    → is_at key ts i ≡ true
    → is_at key ts j ≡ true
    → i.key ≡ j.key
same_place key ts i j v w h k =
    v.0
    ∙ ap₂ encode_key
        (eq_of_equal (user_key i) key (ground arith)
          ∙ sym (eq_of_equal (user_key j) key (ground arith)))
        (ground arith)
    ∙ sym w.0

-- The place of a version is its encoded key.
pub is_at-encode_key :
    (key : Bytes) (ts : ℕ) (i : Item)
    → ts < 2 ^ 64
    → IsVersion i
    → is_at key ts i ≡ bytes_equal i.key (encode_key key ts)
is_at-encode_key key ts i h v = elim (Bool-cases (bytes_equal i.key (encode_key key ts))) [
  | inl same ↦
      let place : decode_key i.key ≡ (key, ts) =
        ap decode_key (eq_of_equal i.key (encode_key key ts) same)
        ∙ decode_key-encode_key key ts h in
      ground (
        arith,
        ap (λ (p : Bytes × ℕ). p.0) place,
        ap (λ (p : Bytes × ℕ). p.1) place,
        equal_refl key,
      )
  | inr off ↦ elim (Bool-cases (is_at key ts i)) [
    | inr away ↦ ground arith
    | inl at ↦
        let same : i.key ≡ encode_key key ts =
          v.0 ∙ ap₂ encode_key (eq_of_equal (user_key i) key (ground arith)) (ground arith) in
        absurd (
          ground (
            arith,
            ap (λ (k : Bytes). bytes_equal k (encode_key key ts)) same,
            equal_refl (encode_key key ts),
          ))
  ]
]

module _ (key : Bytes) (ts : ℕ) where
  pub find-insert_item :
      (i : Item) (is : List Item)
      → IsVersion i
      → All IsVersion is
      → find key ts (insert_item i is) ≡ (if is_at key ts i then some i.value else find key ts is)
  find-insert_item i [] v vs = refl
  find-insert_item i (j ∷ js) v vs = ground (
    arith,
    find-insert_item i js v vs.1,
    same_place key ts i j v vs.0,
    eq_of_compare i.key j.key,
    ap (λ (k : Bytes). (decode_key k).0),
    ap (λ (k : Bytes). (decode_key k).1),
    compare_refl j.key,
  )

-- Equal versions and equal locks are equal states.
pub Abstract-path : {a b : Abstract} → a.at ≡ b.at → a.held ≡ b.held → a ≡ b
Abstract-path = ap₂ (λ at held. record { at = at; held = held })

module _ {B : BTree} (s t : MemoryStore B) where
  -- A stored item is a write of its key at its timestamp.
  pub view-insert_item :
      (i : Item)
      → B.items t.tree ≡ insert_item i (B.items s.tree)
      → IsVersion i
      → All IsVersion (B.items s.tree)
      → (view t).at ≡ (write (user_key i) (stamp i) i.value (view s)).at
  view-insert_item i e v vs = fun_ext (λ key. fun_ext (λ ts.
      ap (λ (is : List Item). find key ts is) e ∙ find-insert_item key ts i (B.items s.tree) v vs))

  pub view-version :
      (key : Bytes) (ts : ℕ) (value : Bytes)
      → B.items t.tree ≡ insert_item (version key ts value) (B.items s.tree)
      → ts < 2 ^ 64
      → All IsVersion (B.items s.tree)
      → (view t).at ≡ (write key ts value (view s)).at
  view-version key ts value e h vs =
      view-insert_item (version key ts value) e (version-IsVersion key ts value h) vs
      ∙ ap₂ (λ (k : Bytes) (n : ℕ). (write k n value (view s)).at) (user_key-version key ts value h)
          (stamp-version key ts value h)

-- The locks of a lock table.
abbrev pub locked : Dict Lock → Bytes → Option Lock
locked locks key = Dict.get key locks

pub held-put :
    (key : Bytes) (lock : Lock) (locks : Dict Lock)
    → locked (Dict.put key lock locks)
      ≡ (λ j. if bytes_equal key j then some lock else locked locks j)
held-put key lock locks = fun_ext (λ j. Dict.get-put key j lock locks)

pub held-remove :
    (key : Bytes) (locks : Dict Lock)
    → locked (Dict.remove key locks) ≡ (λ j. if bytes_equal key j then none else locked locks j)
held-remove key locks = fun_ext (λ j. Dict.get-remove key j locks)
