-- ===== src/Router/Agreement.antt =====
-- GetShard of internal/meta/store.go searches by halving, GetShardID of internal/router/router.go
-- scans: on ranges that tile the key space they agree, and exactly one range contains a key.
use mathlib.Core.Path.{subst}
use shard_db.Base.{
  ◌≡◌, refl, sym, ap, ◌∙◌, true, false, Option, none, some, List, [], ◌∷◌, All, Has, All-Has, arith,
  Bool-cases, inl, inr,
}
use shard_db.Bytes.{Bytes}
use shard_db.Meta.{Range, MetaStore, starts_after, get_shard}
use shard_db.Meta.Tiles.{
  Tiles, Tiles-start, Tiles-tail, Tiles-border, Tiles-end, owner, get_shard-owner, All-start_after,
}
use shard_db.Router.{Router, contains, scan_ranges, get_shard_id}

module _ (key : Bytes) where
  pub contains-starts_after : (r : Range) → starts_after key r ≡ true → contains key r ≡ false
  unfolding contains starts_after
  contains-starts_after r h = ground arith

  -- The next range of a tiling starts where this one ends.
  contains_unless_next :
      {lo : Option Bytes} (r q : Range) (qs : List Range)
      → Tiles lo (r ∷ q ∷ qs)
      → starts_after key r ≡ false
      → contains key r ≡ starts_after key q
  unfolding contains starts_after
  contains_unless_next r q qs t h = let (k, end, start, below) = Tiles-border t in ground arith

  pub owner-contains :
      {lo : Option Bytes} (r : Range) (rs : List Range)
      → Tiles lo (r ∷ rs)
      → starts_after key r ≡ false
      → contains key (owner key r rs) ≡ true
  unfolding contains starts_after
  owner-contains r [] t h = ground (arith, Tiles-end t)
  owner-contains r (q ∷ qs) t h =
      ground (arith, contains_unless_next r q qs t h, owner-contains q qs (Tiles-tail t))

  scan_ranges-owner :
      {lo : Option Bytes} (r : Range) (rs : List Range)
      → Tiles lo (r ∷ rs)
      → starts_after key r ≡ false
      → scan_ranges key (r ∷ rs) ≡ (owner key r rs).shard_id
  unfolding scan_ranges
  scan_ranges-owner r [] t h = ground (arith, owner-contains r [] t h)
  scan_ranges-owner r (q ∷ qs) t h =
      ground (arith, contains_unless_next r q qs t h, scan_ranges-owner q qs (Tiles-tail t))

  rest_starts_after :
      {lo : Option Bytes} (r p : Range) (ps : List Range)
      → Tiles lo (r ∷ p ∷ ps)
      → starts_after key p ≡ true
      → All (λ q. starts_after key q ≡ true) (p ∷ ps)
  unfolding starts_after
  rest_starts_after r p ps t h =
      let (k, end, start, below) = Tiles-border t in
      All-start_after key k (p ∷ ps) (subst (λ lo. Tiles lo (p ∷ ps)) end (Tiles-tail t))
        (ground (arith, start))

  -- No range behind the owner contains the key, and none before it.
  owner_unique :
      {lo : Option Bytes} (r : Range) (rs : List Range)
      → Tiles lo (r ∷ rs)
      → starts_after key r ≡ false
      → (q : Range) → Has q (r ∷ rs)
      → contains key q ≡ true
      → q ≡ owner key r rs
  owner_unique r [] t h q (inl e) c = e
  owner_unique r [] t h q (inr m) c = absurd m
  owner_unique r (p ∷ ps) t h q (inl e) c = ground (arith, contains_unless_next r p ps t h)
  owner_unique r (p ∷ ps) t h q (inr m) c = elim (Bool-cases (starts_after key p)) [
    | inl behind ↦
        let a =
          All-Has (λ x. starts_after key x ≡ true) q (p ∷ ps) (rest_starts_after r p ps t behind)
            m in
        cc (contains-starts_after q a, c)
    | inr at ↦ rw (at, owner) (owner_unique p ps (Tiles-tail t) at q m c)
  ]

pub first_open :
    {r : Range} {rs : List Range} (key : Bytes) → Tiles none (r ∷ rs) → starts_after key r ≡ false
unfolding starts_after
first_open key t = rw (Tiles-start t)

pub owner-Has : (key : Bytes) (r : Range) (rs : List Range) → Has (owner key r rs) (r ∷ rs)
owner-Has key r [] = inl refl
owner-Has key r (q ∷ qs) = elim (Bool-cases (starts_after key q)) [
  | inl behind ↦ inl (ground arith)
  | inr at ↦
      let step : owner key r (q ∷ qs) ≡ owner key q qs = ground arith in
      inr (subst (λ x. Has x (q ∷ qs)) (sym step) (owner-Has key q qs))
]

pub agree :
    (key : Bytes) (s : MetaStore) (rs : List Range)
    → s.ranges ≡ rs
    → Tiles none rs
    → get_shard key s ≡ some (scan_ranges key rs)
agree key s [] e t = elim t [ ]
agree key s (r ∷ rs) e t =
    get_shard-owner key r rs s e t ∙ sym (ap some (scan_ranges-owner key r rs t (first_open key t)))

-- The range that a search finds.
abbrev pub IsFound : Bytes → MetaStore → List Range → Range → Type 0
IsFound key s rs r =
    (get_shard key s ≡ some r.shard_id)
    × Has r rs
    × (contains key r ≡ true)
    × ((q : Range) → Has q rs → contains key q ≡ true → q ≡ r)

found :
    (key : Bytes) (s : MetaStore) (rs : List Range)
    → s.ranges ≡ rs
    → Tiles none rs
    → (r : Range) × IsFound key s rs r
found key s [] e t = elim t [ ]
found key s (r ∷ rs) e t =
    let at = first_open key t in
    (
      owner key r rs,
      (
        get_shard-owner key r rs s e t,
        owner-Has key r rs,
        owner-contains key r rs t at,
        owner_unique key r rs t at,
      ),
    )

-- On ranges that tile the key space the meta node's binary search does not panic, and names the
-- shard that the router's linear scan of the same ranges names, for every key.
pub get_shard-get_shard_id :
    (key : Bytes) (s : MetaStore) (r : Router)
    → Tiles none s.ranges
    → r.ranges ≡ s.ranges
    → get_shard key s ≡ some (get_shard_id key r)
unfolding get_shard_id
get_shard-get_shard_id key s r t e =
    agree key s s.ranges refl t ∙ ap (λ rs. some (scan_ranges key rs)) (sym e)

-- On ranges that tile the key space GetShard names the shard of a range that contains the key, and
-- no other range contains it.
pub get_shard-contains :
    (key : Bytes) (s : MetaStore) → Tiles none s.ranges → (r : Range) × IsFound key s s.ranges r
get_shard-contains key s t = found key s s.ranges refl t
