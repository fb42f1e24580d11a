-- ===== src/Store/Gc.antt =====
-- RunGC of internal/storage/memory.go and reads.
use shard_db.Base.{
  ℕ, ◌^◌, ◌≤◌, ◌<◌, ◌≡◌, refl, sym, ap, ◌∙◌, Ordering, Bool, true, false, ◌&&◌, ◌||◌, List, [], ◌∷◌,
  All, arith, leb, inl, inr, Bool-cases,
}
use shard_db.Bytes.{Bytes, bytes_compare, bytes_equal}
use shard_db.Bytes.Order.{eq_of_equal, equal_sym}
use shard_db.Tree.{BTree, Item, from, less}
use shard_db.Tree.Walk.{IsSorted, ◌≺◌}
use shard_db.Store.{MemoryStore, run_gc, get_txn}
use shard_db.Store.Items.{
  IsVersion, IsApart, IsMvcc, IsOther, user_key, stamp, pick, seek, less-seek_same, pick-others,
  compare-encode_key_apart, others_beyond,
}
use shard_db.Store.Seek.{mvcc_get_locked-pick}
use shard_db.Store.Collected.{found_before, kept, locks-run_gc, run_gc_lem}

module _ (key : Bytes) (ts safe_ts : ℕ) (safe : safe_ts ≤ ts) (fits : ts < 2 ^ 64) where
  abbrev pub SameFind : Bytes → Bool → List Item → Type 0
  SameFind current found is =
      pick key (from (seek key ts) (kept safe_ts current found is))
      ≡ pick key (from (seek key ts) is)

  pick-kept_same :
      (current : Bytes) (found : Bool) (i : Item) (is : List Item)
      → IsVersion i
      → bytes_equal (user_key i) key ≡ true
      → (found && bytes_equal key current) ≡ false
      → (leb (stamp i) safe_ts ≡ false → SameFind (user_key i) false is)
      → SameFind current found (i ∷ is)
  pick-kept_same current found i is v e fresh ih =
      ground (arith, less-seek_same key ts i fits v e, ih, eq_of_equal (user_key i) key e)

  pick-kept_other :
      (current : Bytes) (found : Bool) (i : Item) (is : List Item)
      → IsVersion i
      → IsApart key i
      → IsOther key i
      → ((g : Bool) → SameFind (user_key i) g is)
      → (bytes_compare (user_key i) key ≡ Ordering.gt → All (IsOther key) is)
      → SameFind current found (i ∷ is)
  unfolding less bytes_equal
  pick-kept_other current found i is v a o ih beyond = ground (
    arith,
    compare-encode_key_apart key ts i v a o,
    beyond,
    pick-others key ts is,
    ih (leb (stamp i) safe_ts || found_before current found i),
  )

  pub pick-kept :
      (current : Bytes) (found : Bool) (is : List Item)
      → IsSorted is
      → All IsVersion is
      → All (IsApart key) is
      → (found && bytes_equal key current) ≡ false
      → SameFind current found is
  pick-kept current found [] h vs aps fresh = refl
  pick-kept current found (i ∷ is) h vs aps fresh =
      elim (Bool-cases (bytes_equal (user_key i) key)) [
        | inl e ↦
            pick-kept_same current found i is vs.0 e fresh
              (λ _. pick-kept (user_key i) false is h.1 vs.1 aps.1 refl)
        | inr o ↦
            pick-kept_other current found i is vs.0 aps.0 o
              (λ g.
                pick-kept (user_key i) g is h.1 vs.1 aps.1
                  (ground (arith, equal_sym (user_key i) key)))
              (λ g. others_beyond key i is vs.0 aps.0 o g h.0 vs.1)
      ]

-- A collection at `safe_ts` changes no read at or after `safe_ts` of a key that is neither a proper
-- prefix nor a proper extension of another stored key: GetTxn has the same result, and returns the
-- same error where the key is locked.
pub get_txn-run_gc :
    {B : BTree} (s : MemoryStore B) (key : Bytes) (ts safe_ts : ℕ)
    → IsMvcc (B.items s.tree)
    → All (IsApart key) (B.items s.tree)
    → safe_ts ≤ ts
    → ts < 2 ^ 64
    → get_txn key ts (run_gc safe_ts s).0 ≡ get_txn key ts s
unfolding get_txn
get_txn-run_gc {B} s key ts safe_ts w apart safe fits = ground (
  arith,
  locks-run_gc safe_ts s,
  mvcc_get_locked-pick (run_gc safe_ts s).0 key ts
      ∙ ap (λ (is : List Item). pick key (from (seek key ts) is)) (run_gc_lem safe_ts s w.sorted).0
      ∙ pick-kept key ts safe_ts safe fits [] false (B.items s.tree) w.sorted w.versions apart refl
      ∙ sym (mvcc_get_locked-pick s key ts),
)

module _ (safe_ts : ℕ) where
  pub All-kept {κ} :
      (P : Item → Type κ) (current : Bytes) (found : Bool) (is : List Item)
      → All P is
      → All P (kept safe_ts current found is)
  All-kept P current found [] h = tt
  All-kept P current found (i ∷ is) h =
      let f = found_before current found i in
      ground (arith, All-kept P (user_key i) (leb (stamp i) safe_ts || f) is h.1)

  kept-IsSorted :
      (current : Bytes) (found : Bool) (is : List Item)
      → IsSorted is
      → IsSorted (kept safe_ts current found is)
  kept-IsSorted current found [] h = tt
  kept-IsSorted current found (i ∷ is) h =
      let g = leb (stamp i) safe_ts || found_before current found i in
      ground
        (arith, kept-IsSorted (user_key i) g is h.1, All-kept (λ j. i ≺ j) (user_key i) g is h.0)

  pub kept-IsMvcc : (is : List Item) → IsMvcc is → IsMvcc (kept safe_ts [] false is)
  kept-IsMvcc is w = record {
    sorted = kept-IsSorted [] false is w.sorted;
    versions = All-kept IsVersion [] false is w.versions;
  }
