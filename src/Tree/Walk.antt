-- ===== src/Tree/Walk.antt =====
-- The order of the items.
use shard_db.Base.{◌≡◌, Ordering, List, [], ◌∷◌, All, All-imp, arith}
use shard_db.Bytes.{bytes_compare}
use shard_db.Bytes.Order.{compare_trans, lt_of_gt, eq_of_compare}
use shard_db.Tree.{Item, insert_item, remove_item}

infix 50 ◌≺◌
abbrev pub ◌≺◌ : Item → Item → Type 0
i ≺ j = bytes_compare i.key j.key ≡ Ordering.lt

abbrev pub IsSorted : List Item → Type 0
IsSorted [] = Unit
IsSorted (i ∷ is) = All (λ j. i ≺ j) is × IsSorted is

pub All-insert_item {κ} :
    (P : Item → Type κ) (i : Item) (is : List Item) → P i → All P is → All P (insert_item i is)
All-insert_item P i [] p h = (p, tt)
All-insert_item P i (j ∷ js) p h = ground (arith, All-insert_item P i js)

above_trans : (i j : Item) (js : List Item) → i ≺ j → All (λ k. j ≺ k) js → All (λ k. i ≺ k) js
above_trans i j js p = All-imp (λ k h. compare_trans i.key j.key k.key p h) js

above_eq :
    (i j : Item) (js : List Item)
    → bytes_compare i.key j.key ≡ Ordering.eq
    → All (λ k. j ≺ k) js
    → All (λ k. i ≺ k) js
above_eq i j js p = All-imp (λ k h. rw (eq_of_compare i.key j.key p) h) js

pub insert_item-IsSorted : (i : Item) (is : List Item) → IsSorted is → IsSorted (insert_item i is)
insert_item-IsSorted i [] h = (tt, tt)
insert_item-IsSorted i (j ∷ js) h = ground (
  arith,
  insert_item-IsSorted i js,
  above_trans i j js,
  All-insert_item (λ k. j ≺ k) i js,
  above_eq i j js,
  lt_of_gt i.key j.key,
)

pub All-remove_item {κ} :
    (P : Item → Type κ) (i : Item) (is : List Item) → All P is → All P (remove_item i is)
All-remove_item P i [] h = tt
All-remove_item P i (j ∷ js) h = ground (arith, All-remove_item P i js)

pub remove_item-IsSorted : (i : Item) (is : List Item) → IsSorted is → IsSorted (remove_item i is)
remove_item-IsSorted i [] h = tt
remove_item-IsSorted i (j ∷ js) h =
    ground (arith, remove_item-IsSorted i js, All-remove_item (λ k. j ≺ k) i js)
