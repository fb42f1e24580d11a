-- ===== src/Tree.antt =====
-- The ordered tree that internal/storage/memory.go uses, github.com/google/btree, which is not in
-- the repository: an interface of the operations that the store calls, with their documented
-- behaviour stated on the list of the items in ascending order. `Item` and its order are the
-- store's own (`item` and `item.Less` of memory.go).
pub mod Walk
pub mod SortedList
use shard_db.Base.{ℕ, ◌≡◌, Bool, true, false, Ordering, List, [], ◌∷◌}
use shard_db.Bytes.{Bytes, bytes_compare, bytes_ltb}

-- item
pub record Item : Type 0 where
  pub key : Bytes
  pub value : Bytes

-- item.Less
unfoldable pub less : Item → Item → Bool
unfolding bytes_ltb
less i than = bytes_ltb i.key than.key

-- The callbacks of an ascent: each call may change the captured variables, and says whether to go
-- on.
abbrev pub walk : {S : Type 0} → (Item → S → S × Bool) → List Item → S → S
walk f [] s = s
walk f (i ∷ is) s = let (s', more) = f i s in elim more [ true ↦ walk f is s' | false ↦ s' ]

-- Insertion in place; an item of the same key is replaced.
abbrev pub insert_item : Item → List Item → List Item
insert_item i [] = i ∷ []
insert_item i (j ∷ js) = elim (bytes_compare i.key j.key) [
  | Ordering.lt ↦ i ∷ j ∷ js
  | Ordering.eq ↦ i ∷ js
  | Ordering.gt ↦ j ∷ insert_item i js
]

abbrev pub remove_item : Item → List Item → List Item
remove_item i [] = []
remove_item i (j ∷ js) = elim (bytes_compare i.key j.key) [
  | Ordering.eq ↦ js
  | _ ↦ j ∷ remove_item i js
]

-- The items that are not less than the pivot.
abbrev pub from : Item → List Item → List Item
from pivot [] = []
from pivot (j ∷ js) = elim (less j pivot) [ true ↦ from pivot js | false ↦ j ∷ js ]

pub record BTree : Type 1 where
  pub Tree : Type 0
  pub new : Tree
  pub replace_or_insert : Tree → Item → Tree
  pub delete : Tree → Item → Tree
  pub clear : Tree → Tree
  pub ascend : (S : Type 0) → (Item → S → S × Bool) → Tree → S → S
  pub ascend_greater_or_equal : (S : Type 0) → Item → (Item → S → S × Bool) → Tree → S → S
  -- the content, in the order of an ascent
  pub items : Tree → List Item
  pub items-new : items new ≡ []
  pub items-replace_or_insert :
      (t : Tree) (i : Item) → items (replace_or_insert t i) ≡ insert_item i (items t)
  pub items-delete : (t : Tree) (i : Item) → items (delete t i) ≡ remove_item i (items t)
  pub items-clear : (t : Tree) → items (clear t) ≡ []
  pub ascend_lem :
      (S : Type 0) (f : Item → S → S × Bool) (t : Tree) (s : S)
      → ascend S f t s ≡ walk f (items t) s
  pub ascend_greater_or_equal_lem :
      (S : Type 0) (pivot : Item) (f : Item → S → S × Bool) (t : Tree) (s : S)
      → ascend_greater_or_equal S pivot f t s ≡ walk f (from pivot (items t)) s
