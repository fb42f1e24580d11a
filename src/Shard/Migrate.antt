-- ===== src/Shard/Migrate.antt =====
-- The versions of a shard, exported and ingested by another one.
use mathlib.Core.Path.{subst}
use shard_db.Base.{
  or_else-none, or_else, ℕ, ◌≡◌, refl, sym, ap, ◌∙◌, true, none, some, List, [], ◌∷◌, ◌++◌, All,
  arith, ◌<◌, ◌^◌, length,
}
use shard_db.Bytes.{Bytes}
use shard_db.Dict
use shard_db.Dict.{Dict, IsOnce, IsAbsent, get-IsAbsent}
use shard_db.Mvcc.{encode_key, decode_key}
use shard_db.Decimal.{format_decimal}
use shard_db.Bytes.{codes}
use shard_db.Store.Calls.{Call}
use shard_db.Store.{MemoryStore, ingest, scan, scan_range, scan_visit}
use shard_db.Store.Items.{IsVersion, IsMvcc}
use shard_db.Store.Abstract.{Abstract}
use shard_db.Store.Abstract.View.{view}
use shard_db.Store.Abstract.Refine.{call-Refined}
use shard_db.Tree.{BTree, walk}
use shard_db.Shard.Debug.{
  Codec, ExportItem, DebugResponse, debug_export, debug_ingest, export_items, collect_items, bound,
}
use shard_db.Shard.Pairs.{
  last_of, IsRange, put_all, put_all-IsOnce, get-put_all, last_of-IsOnce, All-of_get,
  at-write_pairs, held-write_pairs, pairs_of, pairs_of-IsOnce, get-pairs_of, get-IsVersion, start,
  from-start, walk-put,
}

module _ {B : BTree} (s : MemoryStore B) where
  scan_range-pairs_of :
      All IsVersion (B.items s.tree) → scan_range [] none s ≡ put_all (pairs_of (B.items s.tree)) []
  unfolding scan_range scan
  scan_range-pairs_of vs =
      B.ascend_greater_or_equal_lem (Dict Bytes) start
        (scan_visit none (λ k v found. (Dict.put k v found, true))) s.tree []
      ∙ ap (λ is. walk (scan_visit none (λ k v found. (Dict.put k v found, true))) is [])
          (from-start (B.items s.tree) vs)
      ∙ walk-put (B.items s.tree) []

  -- What /debug/export reads, by key.
  get-scan_range :
      (key : Bytes)
      → IsMvcc (B.items s.tree)
      → Dict.get key (scan_range [] none s) ≡ Dict.get key (pairs_of (B.items s.tree))
  unfolding Dict.get
  get-scan_range key w =
      ap (Dict.get key) (scan_range-pairs_of w.versions)
      ∙ get-put_all key (pairs_of (B.items s.tree)) []
      ∙ or_else-none (last_of key (pairs_of (B.items s.tree)))
      ∙ last_of-IsOnce key (pairs_of (B.items s.tree)) (pairs_of-IsOnce (B.items s.tree) w.sorted)

collect-export : (l m : Dict Bytes) → collect_items (export_items l) m ≡ put_all l m
unfolding collect_items export_items put_all
collect-export [] m = refl
collect-export ((k, v) ∷ rest) m = collect-export rest (Dict.put k v m)

-- What a migration leaves behind.
abbrev pub Moved :
    {B : BTree} → MemoryStore B → MemoryStore B → MemoryStore B × DebugResponse → Type 0
Moved {B} source target after =
    (after.1.status ≡ 200)
    × IsMvcc (B.items after.0.tree)
    × ((view after.0).held ≡ (view target).held)
    × ((key : Bytes) (t : ℕ)
        → t < 2 ^ 64
        → (view after.0).at key t ≡ or_else ((view source).at key t) ((view target).at key t))

module _ {B : BTree} (c : Codec) (source target : MemoryStore B) (r : IsRange c.range) where
  sent : Dict Bytes
  sent = c.range (scan_range [] none source)

  received : Dict Bytes
  received = c.range (collect_items (export_items sent) [])

  sent-IsRange :
      IsMvcc (B.items source.tree)
      → IsOnce sent × ((key : Bytes) → Dict.get key sent ≡ Dict.get key (scan_range [] none source))
  unfolding sent
  sent-IsRange w = r (scan_range [] none source) (
      subst IsOnce (sym (scan_range-pairs_of source w.versions))
        (put_all-IsOnce (pairs_of (B.items source.tree)) [] tt))

  received-IsRange :
      IsOnce received
      × ((key : Bytes)
          → Dict.get key received ≡ Dict.get key (collect_items (export_items sent) []))
  unfolding received
  received-IsRange =
      r (collect_items (export_items sent) [])
        (subst IsOnce (sym (collect-export sent [])) (put_all-IsOnce sent [] tt))

  get-received :
      (key : Bytes)
      → IsMvcc (B.items source.tree)
      → Dict.get key received ≡ Dict.get key (pairs_of (B.items source.tree))
  unfolding received sent Dict.get
  get-received key w =
      received-IsRange.1 key
      ∙ ap (Dict.get key) (collect-export sent [])
      ∙ get-put_all key sent []
      ∙ or_else-none (last_of key sent)
      ∙ last_of-IsOnce key sent (sent-IsRange w).0
      ∙ (sent-IsRange w).1 key
      ∙ get-scan_range source key w

  received-IsVersion :
      IsMvcc (B.items source.tree)
      → All (λ (p : Bytes × Bytes). IsVersion (record { key = p.0; value = p.1 })) received
  unfolding received
  received-IsVersion w =
      All-of_get
        (λ k. (k ≡ encode_key (decode_key k).0 (decode_key k).1) × ((decode_key k).1 < 2 ^ 64))
        received received-IsRange.0
        (λ key value e.
          get-IsVersion key value (B.items source.tree) w.versions (sym (get-received key w) ∙ e))

  answer : DebugResponse
  answer = record {
    status = 200;
    body =
        codes "Ingested "
        ++ (format_decimal (length (collect_items (export_items sent) [])) ++ codes " items");
  }

  run_migration :
      ((items : List ExportItem) → c.decode (c.encode items) ≡ some items)
      → debug_ingest c (debug_export c [] [] source).body target ≡ (ingest received target, answer)
  unfolding debug_ingest debug_export bound received sent answer
  run_migration json = ground (arith, json (export_items sent))

  -- A full export of a well-formed store, ingested by a well-formed store, if JSON keeps the items
  -- and a range over a map meets each pair once: the ingest answers with status 200, the result is
  -- well-formed, every version of the source is there with its value, under the same key and
  -- timestamp, every other version of the target is still there, and the locks are those of the
  -- target: the locks of the source do not move.
  pub debug_ingest-debug_export :
      ((items : List ExportItem) → c.decode (c.encode items) ≡ some items)
      → IsMvcc (B.items source.tree)
      → IsMvcc (B.items target.tree)
      → Moved source target (debug_ingest c (debug_export c [] [] source).body target)
  unfolding answer received
  debug_ingest-debug_export json w v =
      let versions = received-IsVersion w in
      let (kept, seen) = call-Refined (Call.ingest received) target versions v in
      subst (Moved source target) (sym (run_migration json)) (
        refl,
        kept,
        ap (λ (a : Abstract). a.held) seen ∙ held-write_pairs received (view target),
        λ key t fits.
            ap (λ (a : Abstract). a.at key t) seen
            ∙ at-write_pairs key t received (view target) fits versions
            ∙ ap (λ o. or_else o ((view target).at key t))
                (last_of-IsOnce (encode_key key t) received received-IsRange.0
                  ∙ get-received (encode_key key t) w
                  ∙ get-pairs_of key t (B.items source.tree) fits w.versions),
      )
