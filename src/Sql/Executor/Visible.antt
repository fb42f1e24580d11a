-- ===== src/Sql/Executor/Visible.antt =====
-- The first visible version of a key among sorted items, and the order of keys and their extensions.
use shard_db.Base.{
  or_else, ℕ, zero, suc, ◌≡◌, refl, Ordering, true, false, Option, none, List, [], ◌∷◌, ◌++◌, leb,
  All, arith, length,
}
use shard_db.Bytes.{Bytes, bytes_compare, bytes_ltb}
use shard_db.Bytes.Order.{compare-append_left, compare_trans, eq_of_compare, lt_of_gt}
use shard_db.Store.Items.{IsVersion, latest, value_of, newer-latest}
use shard_db.Tree.{Item, from}
use shard_db.Tree.Walk.{IsSorted}
use shard_db.Sql.Executor.Rows.{visible_item}

-- What the items add for the key, one after the other.
abbrev pub visible : Bytes → ℕ → List Item → Option Bytes
visible key ts [] = none
visible key ts (i ∷ is) = or_else (visible_item key ts i) (visible key ts is)

module _ (key : Bytes) (ts : ℕ) where
  -- Of a sorted list the first visible version of the key is the newest one.
  pub visible-latest :
      (is : List Item)
      → IsSorted is
      → All IsVersion is
      → visible key ts is ≡ value_of (latest key ts is)
  visible-latest [] srt vs = refl
  visible-latest (i ∷ is) srt vs =
      ground (arith, visible-latest is srt.1 vs.1, newer-latest key ts i is vs.0)

-- Nothing of at least n bytes is below n zeros.
abbrev pub zeros : ℕ → Bytes
zeros zero = []
zeros (suc n) = 0 ∷ zeros n

pub ltb-zeros : (b : Bytes) (n : ℕ) → leb n (length b) ≡ true → bytes_ltb b (zeros n) ≡ false
unfolding bytes_ltb
ltb-zeros [] zero h = refl
ltb-zeros [] (suc n) h = ground arith
ltb-zeros (x ∷ b) zero h = refl
ltb-zeros (x ∷ b) (suc n) h = ground (arith, ltb-zeros b n)

pub ltb-append_left : (p a b : Bytes) → bytes_ltb (p ++ a) (p ++ b) ≡ bytes_ltb a b
unfolding bytes_ltb
ltb-append_left p a b = ground (arith, compare-append_left p a b)

pub compare-extended :
    (a k s : Bytes) → bytes_compare a k ≡ Ordering.lt → bytes_compare a (k ++ s) ≡ Ordering.lt
unfolding bytes_compare
compare-extended [] [] s h = cc
compare-extended [] (y ∷ k) s h = refl
compare-extended (x ∷ a) [] s h = cc
compare-extended (x ∷ a) (y ∷ k) s h = ground (arith, compare-extended a k s)

pub All-from :
    (P : Item → Type 0) (pivot : Item) (is : List Item) → All P is → All P (from pivot is)
All-from P pivot [] h = tt
All-from P pivot (i ∷ is) h = ground (arith, All-from P pivot is)

pub from-IsSorted : (pivot : Item) (is : List Item) → IsSorted is → IsSorted (from pivot is)
from-IsSorted pivot [] h = tt
from-IsSorted pivot (i ∷ is) h = ground (arith, from-IsSorted pivot is)

pub lt_extended :
    (a e k s : Bytes)
    → bytes_compare a e ≡ Ordering.lt
    → bytes_ltb k e ≡ false
    → bytes_compare a (k ++ s) ≡ Ordering.lt
unfolding bytes_ltb
lt_extended a e k s lt stop =
    compare-extended a k s (ground (arith, eq_of_compare k e, compare_trans a e k lt, lt_of_gt k e))
