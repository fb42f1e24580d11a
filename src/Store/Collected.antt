-- ===== src/Store/Collected.antt =====
-- RunGC of internal/storage/memory.go on the list of the items: what it collects, and what is left.
use shard_db.Base.{
  ℕ, ◌+◌, ◌≡◌, refl, sym, ap, ◌∙◌, Bool, true, false, ◌&&◌, ◌||◌, List, [], ◌∷◌, ◌++◌, All, arith,
  leb, if◌then◌else◌, length, append_assoc, append-nil,
}
use shard_db.Bytes.{Bytes, bytes_equal}
use shard_db.Bytes.Order.{eq_of_equal, compare_refl, gt_of_lt}
use shard_db.Tree.{BTree, Item, walk, remove_item}
use shard_db.Tree.Walk.{IsSorted, ◌≺◌}
use shard_db.Store.{MemoryStore, TraversalState, gc_visit, delete_all, run_gc}
use shard_db.Store.Items.{user_key, stamp}

-- Whether a snapshot version of the item's key stands before it.
abbrev pub found_before : Bytes → Bool → Item → Bool
found_before current found i = found && bytes_equal (user_key i) current

module _ (safe_ts : ℕ) where
  -- What the ascent collects, from its local state on.
  abbrev dead : Bytes → Bool → List Item → List Item
  dead current found [] = []
  dead current found (i ∷ is) =
      let f = found_before current found i in
      let rest = dead (user_key i) (leb (stamp i) safe_ts || f) is in
      if leb (stamp i) safe_ts && f then i ∷ rest else rest

  -- What is left.
  abbrev pub kept : Bytes → Bool → List Item → List Item
  kept current found [] = []
  kept current found (i ∷ is) =
      let f = found_before current found i in
      let rest = kept (user_key i) (leb (stamp i) safe_ts || f) is in
      if leb (stamp i) safe_ts && f then rest else i ∷ rest

  abbrev next : Item → TraversalState → TraversalState
  next i st =
      let f = found_before st.current_user_key st.found_snapshot i in
      record {
        current_user_key = user_key i;
        found_snapshot = leb (stamp i) safe_ts || f;
        keys_to_delete =
            if leb (stamp i) safe_ts && f then st.keys_to_delete ++ i ∷ [] else st.keys_to_delete;
      }

  gc_visit_lem : (i : Item) (st : TraversalState) → gc_visit safe_ts i st ≡ (next i st, true)
  unfolding gc_visit
  gc_visit_lem i st = ground (arith, eq_of_equal (user_key i) st.current_user_key)

  abbrev collected : List Item → TraversalState → List Item
  collected is st = st.keys_to_delete ++ dead st.current_user_key st.found_snapshot is

  collected-next :
      (i : Item) (is : List Item) (st : TraversalState)
      → collected is (next i st) ≡ collected (i ∷ is) st
  collected-next i is st =
      ground (arith, append_assoc st.keys_to_delete (i ∷ []) (dead (user_key i) true is))

  walk-gc_visit :
      (is : List Item) (st : TraversalState)
      → (walk (gc_visit safe_ts) is st).keys_to_delete ≡ collected is st
  walk-gc_visit [] st = sym (append-nil st.keys_to_delete)
  walk-gc_visit (i ∷ is) st =
      ground (arith, gc_visit_lem i st, walk-gc_visit is (next i st), collected-next i is st)

abbrev remove_all : List Item → List Item → List Item
remove_all [] is = is
remove_all (k ∷ ks) is = remove_all ks (remove_item k is)

delete_all_lem :
    (B : BTree) (ks : List Item) (t : B.Tree) (n : ℕ)
    → (B.items (delete_all B ks t n).0 ≡ remove_all ks (B.items t))
      × ((delete_all B ks t n).1 ≡ n + length ks)
unfolding delete_all
delete_all_lem B [] t n = (refl, omega arith)
delete_all_lem B (k ∷ ks) t n =
    let (left, count) = delete_all_lem B ks (B.delete t k) (n + 1) in
    (left ∙ ap (remove_all ks) (B.items-delete t k), omega (arith, count))

-- Removing what sorts behind the first item leaves the first item.
remove_all_behind :
    (i : Item) (ks is : List Item)
    → All (λ k. i ≺ k) ks
    → remove_all ks (i ∷ is) ≡ i ∷ remove_all ks is
remove_all_behind i [] is h = refl
remove_all_behind i (k ∷ ks) is h =
    ground (arith, gt_of_lt i.key k.key h.0, remove_all_behind i ks (remove_item k is) h.1)

remove_self : (i : Item) (is : List Item) → remove_item i (i ∷ is) ≡ is
remove_self i is = ground (arith, compare_refl i.key)

module _ (safe_ts : ℕ) where
  All-dead {κ} :
      (P : Item → Type κ) (current : Bytes) (found : Bool) (is : List Item)
      → All P is
      → All P (dead safe_ts current found is)
  All-dead P current found [] h = tt
  All-dead P current found (i ∷ is) h =
      let f = found_before current found i in
      ground (arith, All-dead P (user_key i) (leb (stamp i) safe_ts || f) is h.1)

  remove_all-dead :
      (current : Bytes) (found : Bool) (is : List Item)
      → IsSorted is
      → remove_all (dead safe_ts current found is) is ≡ kept safe_ts current found is
  remove_all-dead current found [] h = refl
  remove_all-dead current found (i ∷ is) h =
      let f = found_before current found i in
      let g = leb (stamp i) safe_ts || f in
      ground (
        arith,
        remove_self i is,
        remove_all-dead (user_key i) g is h.1,
        remove_all_behind i (dead safe_ts (user_key i) g is) is
            (All-dead (λ k. i ≺ k) (user_key i) g is h.0),
      )

  length-dead :
      (current : Bytes) (found : Bool) (is : List Item)
      → length (kept safe_ts current found is) + length (dead safe_ts current found is) ≡ length is
  length-dead current found [] = refl
  length-dead current found (i ∷ is) =
      let f = found_before current found i in
      ground (arith, length-dead (user_key i) (leb (stamp i) safe_ts || f) is)

pub locks-run_gc :
    {B : BTree} (safe_ts : ℕ) (s : MemoryStore B) → (run_gc safe_ts s).0.locks ≡ s.locks
unfolding run_gc
locks-run_gc safe_ts s = refl

-- The items and the count after a collection.
pub run_gc_lem :
    {B : BTree} (safe_ts : ℕ) (s : MemoryStore B)
    → IsSorted (B.items s.tree)
    → (B.items (run_gc safe_ts s).0.tree ≡ kept safe_ts [] false (B.items s.tree))
      × ((run_gc safe_ts s).1 ≡ length (dead safe_ts [] false (B.items s.tree)))
unfolding run_gc
run_gc_lem {B} safe_ts s h =
    let start : TraversalState = record {
      current_user_key = [];
      found_snapshot = false;
      keys_to_delete = [];
    } in
    let found : TraversalState = B.ascend TraversalState (gc_visit safe_ts) s.tree start in
    let keys : found.keys_to_delete ≡ dead safe_ts [] false (B.items s.tree) =
      ap (λ (st : TraversalState). st.keys_to_delete)
        (B.ascend_lem TraversalState (gc_visit safe_ts) s.tree start)
      ∙ walk-gc_visit safe_ts (B.items s.tree) start in
    let (left, count) = delete_all_lem B found.keys_to_delete s.tree 0 in
    (
      left
          ∙ ap (λ (ks : List Item). remove_all ks (B.items s.tree)) keys
          ∙ remove_all-dead safe_ts [] false (B.items s.tree) h,
      omega (arith, count, ap (λ (ks : List Item). length ks) keys),
    )
