-- ===== src/MetaNode/Replica.antt =====
-- Two meta nodes: one that has applied a whole log, and one that starts from the other's snapshot.
use shard_db.Base.{
  ℕ, ◌≡◌, refl, sym, ap, Option, none, some, List, [], ◌∷◌, All, arith, inl, inr, Option-cases,
}
use mathlib.Core.Path.{subst}
use shard_db.Bytes.{Bytes}
use shard_db.Meta.{
  Range, MetaStore, Command, new_meta_store, apply, apply_command, split_range, get_shard,
}
use shard_db.Meta.Snapshot.{get_snapshot, restore}
use shard_db.Meta.Tiles.{Tiles, last}
use shard_db.Router.Agreement.{IsFound, get_shard-contains}
use shard_db.Router.Apply.{apply_command-Tiles}
use shard_db.Utf8.{sanitize}
use shard_db.MetaNode.{route, apply_all}

pub new_meta_store-Tiles : Tiles none new_meta_store.ranges
unfolding new_meta_store
new_meta_store-Tiles = last none 1

-- What a command makes of the ranges depends on the ranges only.
apply_command-ranges :
    (cmd : Command) (s t s' t' : MetaStore)
    → s.ranges ≡ t.ranges
    → apply_command cmd s ≡ some s'
    → apply_command cmd t ≡ some t'
    → s'.ranges ≡ t'.ranges
unfolding apply_command
apply_command-ranges cmd s t s' t' e a b = elim (Option-cases (split_range cmd s.ranges)) [
  | inl panic ↦ ground (arith, ap (split_range cmd) e)
  | inr (ranges, done) ↦ ground (arith, ap (split_range cmd) e)
]

-- A route depends on the ranges only.
route-ranges : (key : Bytes) (s t : MetaStore) → s.ranges ≡ t.ranges → route key s ≡ route key t
unfolding route get_shard
route-ranges key s t e =
    subst (λ rs. route key s ≡ route key (record { ranges = rs; shards = t.shards })) e refl

pub route-found :
    (key : Bytes) (s : MetaStore) (id : ℕ)
    → get_shard key s ≡ some id
    → route key s ≡ some (record { key = sanitize key; shard_id = id })
unfolding route
route-found key s id h = ground arith

module _ (unmarshal : Bytes → Option Command) where
  -- The command of the entry has a split key, if the entry is one.
  abbrev pub HasSplitKey : Bytes → Type 0
  HasSplitKey entry =
      (cmd : Command) → unmarshal entry ≡ some cmd → (k : Bytes) × (cmd.split_key ≡ some k)

  pub apply-Tiles :
      (entry : Bytes) (s : MetaStore)
      → HasSplitKey entry
      → Tiles none s.ranges
      → (s' : MetaStore) × (apply unmarshal entry s ≡ some s') × Tiles none s'.ranges
  unfolding apply
  apply-Tiles entry s h t = elim (Option-cases (unmarshal entry)) [
    | inl bad ↦ let step : apply unmarshal entry s ≡ some s = ground arith in (s, step, t)
    | inr (cmd, decoded) ↦
        let (k, e) = h cmd decoded in
        let (s', done, tiles) = apply_command-Tiles cmd k s e t in
        let step : apply unmarshal entry s ≡ some s' = ground arith in (s', step, tiles)
  ]

  apply-ranges :
      (entry : Bytes) (s t s' t' : MetaStore)
      → s.ranges ≡ t.ranges
      → apply unmarshal entry s ≡ some s'
      → apply unmarshal entry t ≡ some t'
      → s'.ranges ≡ t'.ranges
  unfolding apply
  apply-ranges entry s t s' t' e a b = elim (Option-cases (unmarshal entry)) [
    | inl bad ↦ ground arith
    | inr (cmd, decoded) ↦ apply_command-ranges cmd s t s' t' e (ground arith) (ground arith)
  ]

  -- Two stores with the same ranges, which tile the key space, apply a log without a panic and end
  -- with the same ranges, which tile it.
  apply_all-agree :
      (entries : List Bytes) (s t : MetaStore)
      → All HasSplitKey entries
      → s.ranges ≡ t.ranges
      → Tiles none s.ranges
      → (s' : MetaStore) × (apply_all unmarshal entries s ≡ some s')
        × (t' : MetaStore) × (apply_all unmarshal entries t ≡ some t')
        × (s'.ranges ≡ t'.ranges)
        × Tiles none s'.ranges
  apply_all-agree [] s t h e tiles = (s, refl, t, refl, e, tiles)
  apply_all-agree (entry ∷ entries) s t h e tiles =
      let (s1, done, tiles1) = apply-Tiles entry s h.0 tiles in
      let (t1, done', tiles') = apply-Tiles entry t h.0 (subst (Tiles none) e tiles) in
      let same = apply-ranges entry s t s1 t1 e done done' in
      let (s2, rest, t2, rest', same2, tiles2) = apply_all-agree entries s1 t1 h.1 same tiles1 in
      let whole : apply_all unmarshal (entry ∷ entries) s ≡ some s2 = ground arith in
      let whole' : apply_all unmarshal (entry ∷ entries) t ≡ some t2 = ground arith in
      (s2, whole, t2, whole', same2, tiles2)

  -- A meta node has applied a log, and then takes a snapshot; another one, whatever its state is,
  -- restores the snapshot; then both apply the rest of the log, as GetSnapshot, Restore and Apply
  -- do it. If the commands have split keys: no call panics, no index of GetShard is out of range,
  -- and for every key both answer a request for its route with the same shard, that of the one
  -- range that contains the key.
  pub route-restore :
      (before after : List Bytes) (other : MetaStore)
      → All HasSplitKey before
      → All HasSplitKey after
      → (s : MetaStore) × (apply_all unmarshal before new_meta_store ≡ some s)
        × (t : MetaStore) × (apply_all unmarshal after s ≡ some t)
        × (r : MetaStore) × (apply_all unmarshal after (restore (some (get_snapshot s)) other).0
            ≡ some r)
        × ((key : Bytes)
            → (range : Range) × IsFound key t t.ranges range
              × (route key t ≡ some (record { key = sanitize key; shard_id = range.shard_id }))
              × (route key r ≡ route key t))
  unfolding restore get_snapshot
  route-restore before after other h k =
      let (s, done, _, _, _, tiles) =
        apply_all-agree before new_meta_store new_meta_store h refl new_meta_store-Tiles in
      let (t, rest, r, rest', same, tiles') =
        apply_all-agree after s (restore (some (get_snapshot s)) other).0 k refl tiles in
      (
        s,
        done,
        t,
        rest,
        r,
        rest',
        λ key.
            let (range, found) = get_shard-contains key t tiles' in
            (
              range,
              found,
              route-found key t range.shard_id found.0,
              route-ranges key r t (sym same),
            ),
      )
