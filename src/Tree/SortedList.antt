-- ===== src/Tree/SortedList.antt =====
-- A sorted list meets the interface of the tree, which shows that its laws can hold together. The
-- tests run on it.
use shard_db.Base.{refl, [], List}
use shard_db.Tree.{Item, BTree, walk, insert_item, remove_item, from}

abbrev pub sorted_list : BTree
sorted_list = record {
  Tree = List Item;
  new = [];
  replace_or_insert = λ t i. insert_item i t;
  delete = λ t i. remove_item i t;
  clear = λ t. [];
  ascend = λ S f t s. walk f t s;
  ascend_greater_or_equal = λ S pivot f t s. walk f (from pivot t) s;
  items = λ t. t;
  items-new = refl;
  items-replace_or_insert = λ t i. refl;
  items-delete = λ t i. refl;
  items-clear = λ t. refl;
  ascend_lem = λ S f t s. refl;
  ascend_greater_or_equal_lem = λ S pivot f t s. refl;
}
