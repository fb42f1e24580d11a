-- ===== src/Store/Shows.antt =====
-- What a read at a timestamp shows, and the writes of later versions.
use shard_db.Base.{
  ℕ, ◌^◌, ◌≤◌, ◌<◌, ◌≡◌, refl, sym, ◌∙◌, true, false, ◌||◌, Option, List, [], All, arith,
}
use shard_db.Bytes.{Bytes, bytes_equal}
use shard_db.Bytes.Diverge.{diverges}
use shard_db.Tree.{Item, insert_item}
use shard_db.Tree.Walk.{All-insert_item}
use shard_db.Store.Items.{IsVersion, IsApart, IsMvcc, user_key, stamp, latest, value_of, pick-from}
use shard_db.Store.Read.{latest-insert_item}
use shard_db.Store.Seek.{
  version, user_key-version, stamp-version, version-IsVersion, insert_item-IsMvcc,
}
use shard_db.Store.Gc.{kept-IsMvcc, All-kept, pick-kept}
use shard_db.Store.Collected.{kept}
use shard_db.Store.Calls.{Call, prepare, commit, abort, one_phase_commit, put, run_gc, ingest}

module _ (key : Bytes) (ts : ℕ) where
  -- A write of this key at this timestamp: valid, later than the read, and not of a proper prefix or
  -- a proper extension of the key that is read.
  abbrev pub IsLater : Bytes → ℕ → Type 0
  IsLater k commit_ts =
      (ts < commit_ts) × (commit_ts < 2 ^ 64) × ((bytes_equal k key || diverges k key) ≡ true)

  -- The call writes only later versions, and collects only what a read at the timestamp cannot see.
  abbrev pub WritesLater : Call → Type 0
  WritesLater (prepare k value txn_id) = Unit
  WritesLater (commit k txn_id commit_ts) = IsLater k commit_ts
  WritesLater (abort k txn_id) = Unit
  WritesLater (one_phase_commit ops txn_id commit_ts) = All (λ op. IsLater op.key commit_ts) ops
  WritesLater (put k value) = IsLater k 1
  WritesLater (run_gc safe_ts) = safe_ts ≤ ts
  WritesLater (ingest pairs) =
      All
        (λ (p : Bytes × Bytes).
          IsVersion (record { key = p.0; value = p.1 })
          × IsLater (user_key (record { key = p.0; value = p.1 }))
              (stamp (record { key = p.0; value = p.1 })))
        pairs

  pub record Shows (o : Option Bytes) (is : List Item) : Type 0 where
    pub mvcc : IsMvcc is
    pub apart : All (IsApart key) is
    pub shown : value_of (latest key ts is) ≡ o

  module _ (o : Option Bytes) where
    pub insert_item-Shows :
        (i : Item) (is : List Item)
        → IsVersion i
        → IsApart key i
        → ts < stamp i
        → Shows o is
        → Shows o (insert_item i is)
    insert_item-Shows i is v a later h = record {
      mvcc = insert_item-IsMvcc i is v h.mvcc;
      apart = All-insert_item (IsApart key) i is a h.apart;
      shown = ground (arith, latest-insert_item key ts i is v h.mvcc.versions, h.shown);
    }

    pub version-Shows :
        (k : Bytes) (commit_ts : ℕ) (value : Bytes) (is : List Item)
        → IsLater k commit_ts
        → Shows o is
        → Shows o (insert_item (version k commit_ts value) is)
    version-Shows k commit_ts value is later h =
        insert_item-Shows (version k commit_ts value) is
          (version-IsVersion k commit_ts value later.1)
          (ground (arith, user_key-version k commit_ts value later.1))
          (omega (arith, stamp-version k commit_ts value later.1)) h

    pub kept-Shows :
        (safe_ts : ℕ) (is : List Item)
        → safe_ts ≤ ts
        → ts < 2 ^ 64
        → Shows o is
        → Shows o (kept safe_ts [] false is)
    kept-Shows safe_ts is safe fits h =
        let w = kept-IsMvcc safe_ts is h.mvcc in
        let apart = All-kept safe_ts (IsApart key) [] false is h.apart in
        record {
          mvcc = w;
          apart = apart;
          shown =
              sym (pick-from key ts (kept safe_ts [] false is) fits w.sorted w.versions apart)
              ∙ pick-kept key ts safe_ts safe fits [] false is h.mvcc.sorted h.mvcc.versions h.apart
                  refl
              ∙ pick-from key ts is fits h.mvcc.sorted h.mvcc.versions h.apart
              ∙ h.shown;
        }
