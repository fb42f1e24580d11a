-- ===== src/Store/Hidden.antt =====
-- The latest read (Get, and every SELECT of a shard node) of a key of which another stored key is a
-- proper extension: the seek of mvccGetLocked in internal/storage/memory.go stops at the extension.
use shard_db.Base.{
  ℕ, ◌-◌, ◌^◌, ◌<◌, ◌≡◌, refl, ap, ◌∙◌, Ordering, true, false, none, List, [], ◌∷◌, ◌++◌, All, Has,
  All-Has, arith, inl, inr, Bool-cases, append_assoc,
}
use shard_db.Base.Result.{ok}
use shard_db.Bytes.{Bytes, bytes_compare, bytes_equal, put_uint}
use shard_db.Bytes.Order.{eq_of_equal, gt_of_lt, compare-append_left}
use shard_db.Dict
use shard_db.Mvcc.{encode_key, max_uint64}
use shard_db.Tree.{BTree, Item, from, less}
use shard_db.Tree.Walk.{IsSorted, ◌≺◌}
use shard_db.Store.{MemoryStore, get, get_txn}
use shard_db.Store.Items.{IsVersion, IsMvcc, user_key, stamp, pick, seek}
use shard_db.Store.Seek.{mvcc_get_locked-pick}

-- A version of the key at a timestamp below 2^56, or an item of another key.
abbrev pub IsEarly : Bytes → Item → Type 0
IsEarly key i = bytes_equal (user_key i) key ≡ true → stamp i < 2 ^ 56

extension_ne : (key : Bytes) (c : ℕ) (rest : Bytes) → bytes_equal (key ++ c ∷ rest) key ≡ false
unfolding bytes_equal
extension_ne [] c rest = refl
extension_ne (x ∷ key) c rest = ground (arith, extension_ne key c rest)

module _ (key : Bytes) (c : ℕ) (rest : Bytes) (low : 0 < c) (high : c < 255) where
  -- The first byte behind the key decides.
  compare-extension :
      (ts : ℕ) (b : Bytes)
      → bytes_compare (encode_key (key ++ c ∷ rest) ts) (key ++ b)
        ≡ bytes_compare (c ∷ rest ++ put_uint 8 (max_uint64 - ts)) b
  unfolding encode_key
  compare-extension ts b =
      ap (λ (k : Bytes). bytes_compare k (key ++ b))
        (append_assoc key (c ∷ rest) (put_uint 8 (max_uint64 - ts)))
      ∙ compare-append_left key (c ∷ rest ++ put_uint 8 (max_uint64 - ts)) b

  -- Versions of the extension stand behind the seek for the latest version of the key.
  seek-before_extension :
      (ts : ℕ)
      → bytes_compare (encode_key (key ++ c ∷ rest) ts) (encode_key key max_uint64) ≡ Ordering.gt
  unfolding encode_key bytes_compare put_uint
  seek-before_extension ts =
      compare-extension ts (put_uint 8 (max_uint64 - max_uint64)) ∙ ground arith

  -- They stand before all early versions of the key.
  extension-before_early :
      (ts early : ℕ)
      → early < 2 ^ 56
      → bytes_compare (encode_key (key ++ c ∷ rest) ts) (encode_key key early) ≡ Ordering.lt
  unfolding encode_key bytes_compare put_uint
  extension-before_early ts early h =
      compare-extension ts (put_uint 8 (max_uint64 - early)) ∙ ground arith

  module _ (e : Item) (v : IsVersion e) (extends : user_key e ≡ key ++ c ∷ rest) where
    extension_key : e.key ≡ encode_key (key ++ c ∷ rest) (stamp e)
    extension_key = v.0 ∙ ap (λ (k : Bytes). encode_key k (stamp e)) extends

    behind_seek : less e (seek key max_uint64) ≡ false
    unfolding less
    behind_seek = ground (arith, extension_key, seek-before_extension (stamp e))

    not_behind_early :
        (i : Item) → IsVersion i → IsEarly key i → i ≺ e → bytes_equal (user_key i) key ≡ false
    not_behind_early i w early lt = elim (Bool-cases (bytes_equal (user_key i) key)) [
      | inr other ↦ other
      | inl same ↦ cc (
        w.0,
        extension_key,
        gt_of_lt i.key e.key lt,
        eq_of_equal (user_key i) key same,
        extension-before_early (stamp e) (stamp i) (early same),
      )
    ]

    precedes : (i : Item) (is : List Item) → All (λ j. i ≺ j) is → Has e is → i ≺ e
    precedes i [] h m = absurd m
    precedes i (j ∷ js) h (inl same) = rw same h.0
    precedes i (j ∷ js) h (inr m) = precedes i js h.1 m

    pick_hidden :
        (is : List Item)
        → IsSorted is
        → All IsVersion is
        → All (IsEarly key) is
        → Has e is
        → pick key (from (seek key max_uint64) is) ≡ none
    pick_hidden [] h vs early m = refl
    pick_hidden (i ∷ is) h vs early (inl same) =
        ground (arith, behind_seek, same, extends, extension_ne key c rest)
    pick_hidden (i ∷ is) h vs early (inr m) = ground (
      arith,
      pick_hidden is h.1 vs.1 early.1 m,
      not_behind_early i vs.0 early.0 (precedes i is h.0 m),
    )

-- Whatever versions of a key there are, all at timestamps below 2^56: if the store also holds a
-- version of an extension of the key whose next byte is neither 0 nor 255, and the key is not
-- locked, Get finds nothing.
pub get_hidden :
    {B : BTree} (s : MemoryStore B) (key : Bytes) (c : ℕ) (rest : Bytes) (e : Item)
    → IsMvcc (B.items s.tree)
    → All (IsEarly key) (B.items s.tree)
    → Has e (B.items s.tree)
    → user_key e ≡ key ++ c ∷ rest
    → 0 < c
    → c < 255
    → Dict.get key s.locks ≡ none
    → get key s ≡ ok none
unfolding get get_txn
get_hidden {B} s key c rest e w early m extends low high free = ground (
  arith,
  mvcc_get_locked-pick s key max_uint64
      ∙ pick_hidden key c rest low high e (All-Has IsVersion e (B.items s.tree) w.versions m)
          extends (B.items s.tree) w.sorted w.versions early m,
)
