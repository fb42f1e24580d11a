-- ===== src/Shard/Pairs.antt =====
-- Pairs of encoded keys and values, as maps, as the items of a store and as writes of versions; and
-- the ascent of ScanRange over a whole store.
use mathlib.Core.Path.{subst}
use shard_db.Base.{
  or_else_assoc, or_else, ℕ, zero, suc, ◌≤◌, ◌≡◌, refl, ap, true, false, Option, none, some, List,
  [], ◌∷◌, All, arith, if◌then◌else◌, inl, inr, Bool-cases, ◌<◌, ◌^◌, length,
}
use shard_db.Bytes.{Bytes, bytes_equal, bytes_compare, bytes_ltb, put_uint}
use shard_db.Bytes.Order.{eq_of_equal, equal_refl, gt_of_lt}
use shard_db.Dict
use shard_db.Dict.{Dict, IsOnce, IsAbsent, get-IsAbsent}
use shard_db.Mvcc.{encode_key, decode_key, max_uint64}
use shard_db.Mvcc.Laws.{length-encode_key}
use shard_db.Store.{scan_visit}
use shard_db.Store.Items.{IsVersion, user_key, stamp}
use shard_db.Store.Abstract.{Abstract, write, write_pairs}
use shard_db.Store.Abstract.View.{find, is_at-encode_key}
use shard_db.Tree.{Item, walk, from, less}
use shard_db.Tree.Walk.{IsSorted, ◌≺◌}

-- The last value of a key in a list of pairs.
abbrev pub last_of : Bytes → Dict Bytes → Option Bytes
last_of key [] = none
last_of key ((k, v) ∷ rest) =
    or_else (last_of key rest) (if bytes_equal k key then some v else none)

-- A range over a map meets each of its pairs once.
abbrev pub IsRange : (Dict Bytes → Dict Bytes) → Type 0
IsRange range =
    (m : Dict Bytes)
    → IsOnce m
    → IsOnce (range m) × ((key : Bytes) → Dict.get key (range m) ≡ Dict.get key m)

unfoldable pub put_all : Dict Bytes → Dict Bytes → Dict Bytes
put_all [] m = m
put_all ((k, v) ∷ rest) m = put_all rest (Dict.put k v m)

pub put_all-IsOnce : (l m : Dict Bytes) → IsOnce m → IsOnce (put_all l m)
unfolding put_all
put_all-IsOnce [] m h = h
put_all-IsOnce ((k, v) ∷ rest) m h = put_all-IsOnce rest (Dict.put k v m) (Dict.put-IsOnce k v m h)

pub get-put_all :
    (key : Bytes) (l m : Dict Bytes)
    → Dict.get key (put_all l m) ≡ or_else (last_of key l) (Dict.get key m)
unfolding put_all
get-put_all key [] m = refl
get-put_all key ((k, v) ∷ rest) m =
    ground (arith, get-put_all key rest (Dict.put k v m), Dict.get-put k key v m)

last_of-IsAbsent : (key : Bytes) (m : Dict Bytes) → IsAbsent key m → last_of key m ≡ none
last_of-IsAbsent key [] h = refl
last_of-IsAbsent key ((k, v) ∷ rest) h = ground (arith, last_of-IsAbsent key rest h.1)

pub last_of-IsOnce : (key : Bytes) (m : Dict Bytes) → IsOnce m → last_of key m ≡ Dict.get key m
unfolding Dict.get
last_of-IsOnce key [] h = refl
last_of-IsOnce key ((k, v) ∷ rest) h = ground (
  arith,
  last_of-IsOnce key rest h.1,
  eq_of_equal k key,
  last_of-IsAbsent k rest h.0,
  ap (λ (j : Bytes). last_of j rest),
)

pub All-of_get :
    (P : Bytes → Type 0) (m : Dict Bytes)
    → IsOnce m
    → ((key value : Bytes) → Dict.get key m ≡ some value → P key)
    → All (λ (p : Bytes × Bytes). P p.0) m
unfolding Dict.get
All-of_get P [] once h = tt
All-of_get P ((k, v) ∷ rest) once h = (
  h k v (ground (arith, equal_refl k)),
  All-of_get P rest once.1 (λ key value e. h key value (
      ground (
        arith,
        eq_of_equal k key,
        ap (λ (j : Bytes). Dict.get j rest),
        get-IsAbsent k rest once.0,
      ))),
)

-- What is written, by encoded key.
pub at-write_pairs :
    (key : Bytes) (t : ℕ) (pairs : Dict Bytes) (a : Abstract)
    → t < 2 ^ 64
    → All (λ (p : Bytes × Bytes). IsVersion (record { key = p.0; value = p.1 })) pairs
    → (write_pairs pairs a).at key t ≡ or_else (last_of (encode_key key t) pairs) (a.at key t)
at-write_pairs key t [] a fits h = refl
at-write_pairs key t ((k, v) ∷ rest) a fits h =
    let i : Item = record { key = k; value = v } in
    ground (
      arith,
      at-write_pairs key t rest (write (user_key i) (stamp i) v a) fits h.1,
      is_at-encode_key key t i fits h.0,
      or_else_assoc (last_of (encode_key key t) rest)
          (if bytes_equal k (encode_key key t) then some v else none) (a.at key t),
    )

pub held-write_pairs : (pairs : Dict Bytes) (a : Abstract) → (write_pairs pairs a).held ≡ a.held
held-write_pairs [] a = refl
held-write_pairs ((k, v) ∷ rest) a =
    held-write_pairs rest (write (decode_key k).0 (decode_key k).1 v a)

abbrev pub pairs_of : List Item → Dict Bytes
pairs_of [] = []
pairs_of (i ∷ is) = (i.key, i.value) ∷ pairs_of is

pairs_of-IsAbsent : (i : Item) (is : List Item) → All (λ j. i ≺ j) is → IsAbsent i.key (pairs_of is)
unfolding bytes_equal
pairs_of-IsAbsent i [] h = tt
pairs_of-IsAbsent i (j ∷ js) h =
    (ground (arith, gt_of_lt i.key j.key h.0), pairs_of-IsAbsent i js h.1)

pub pairs_of-IsOnce : (is : List Item) → IsSorted is → IsOnce (pairs_of is)
pairs_of-IsOnce [] h = tt
pairs_of-IsOnce (i ∷ is) h = (pairs_of-IsAbsent i is h.0, pairs_of-IsOnce is h.1)

pub get-pairs_of :
    (key : Bytes) (t : ℕ) (is : List Item)
    → t < 2 ^ 64
    → All IsVersion is
    → Dict.get (encode_key key t) (pairs_of is) ≡ find key t is
unfolding Dict.get
get-pairs_of key t [] fits h = refl
get-pairs_of key t (i ∷ is) fits h =
    ground (arith, get-pairs_of key t is fits h.1, is_at-encode_key key t i fits h.0)

pub get-IsVersion :
    (key value : Bytes) (is : List Item)
    → All IsVersion is
    → Dict.get key (pairs_of is) ≡ some value
    → key ≡ encode_key (decode_key key).0 (decode_key key).1 × ((decode_key key).1 < 2 ^ 64)
unfolding Dict.get
get-IsVersion key value [] h e = absurd (cc e)
get-IsVersion key value (i ∷ is) h e = elim (Bool-cases (bytes_equal i.key key)) [
  | inl same ↦
      subst
        (λ (k : Bytes).
          (k ≡ encode_key (decode_key k).0 (decode_key k).1) × ((decode_key k).1 < 2 ^ 64))
        (eq_of_equal i.key key same) h.0
  | inr off ↦ get-IsVersion key value is h.1 (ground arith)
]

-- The export starts before all versions.
abbrev zeros : ℕ → Bytes
zeros zero = []
zeros (suc n) = 0 ∷ zeros n

not_below_zeros : (a : Bytes) (n : ℕ) → n ≤ length a → bytes_ltb a (zeros n) ≡ false
unfolding bytes_ltb bytes_compare
not_below_zeros [] zero h = refl
not_below_zeros [] (suc n) h = absurd (omega arith)
not_below_zeros (c ∷ a) zero h = refl
not_below_zeros (c ∷ a) (suc n) h = ground (arith, not_below_zeros a n (omega arith))

abbrev pub start : Item
start = record { key = encode_key [] max_uint64; value = [] }

not_below : (i : Item) → IsVersion i → less i start ≡ false
unfolding less encode_key put_uint
not_below i v =
    not_below_zeros i.key 8 (omega (arith, ap length v.0, length-encode_key (user_key i) (stamp i)))

pub from-start : (is : List Item) → All IsVersion is → from start is ≡ is
from-start [] h = refl
from-start (i ∷ is) h = ground (arith, not_below i h.0)

pub walk-put :
    (is : List Item) (m : Dict Bytes)
    → walk (scan_visit none (λ k v found. (Dict.put k v found, true))) is m
      ≡ put_all (pairs_of is) m
unfolding scan_visit put_all
walk-put [] m = refl
walk-put (i ∷ is) m = walk-put is (Dict.put i.key i.value m)
