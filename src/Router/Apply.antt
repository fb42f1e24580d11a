-- ===== src/Router/Apply.antt =====
-- Apply of internal/meta/store.go as a whole, on ranges that tile the key space.
use mathlib.Core.Path.{subst}
use shard_db.Base.{
  ℕ, suc, ◌≡◌, refl, sym, ap, ◌∙◌, Bool, true, false, not, ◌&&◌, Option, none, some, List, [], ◌∷◌,
  ◌++◌, Has, length, get_elem?, arith, if◌then◌else◌, Bool-cases, inl, inr,
}
use shard_db.Bytes.{Bytes, bytes_ltb, bytes_equal, codes}
use shard_db.Sort.Laws.{find_index}
use shard_db.Meta.{
  Range, MetaStore, Command, put_shard, starts_after, get_shard, search_ranges, split_range,
  split_target, replace_by_two, apply_command, or_empty,
}
use shard_db.Meta.Splice.{replace_by_two_lem}
use shard_db.Meta.Tiles.{Tiles, IsBelow, owner, search_ranges-find_index}
use shard_db.Router.{contains, scan_ranges}
use shard_db.Router.Agreement.{agree, first_open, owner-contains}
use shard_db.Router.Split.{IsAbove, lower, upper, Tiles-split, scan_ranges-split, Has-middle}

-- The key lies behind the start of the range, so that the range can be split at it.
abbrev pub splits : Bytes → Range → Bool
splits k target = elim target.start_key [ none ↦ true | some start ↦ bytes_ltb start k ]

-- The range that contains a key, with what stands around it.
record Around (k : Bytes) (ranges : List Range) : Type 0 where
  before : List Range
  target : Range
  rest : List Range
  whole : ranges ≡ before ++ target ∷ rest
  inside : contains k target ≡ true
  at : search_ranges k ranges ≡ suc (length before)

around_owner :
    (k : Bytes) (r : Range) (rs : List Range)
    → (before : List Range) × (rest : List Range) × (r ∷ rs ≡ before ++ owner k r rs ∷ rest)
      × (find_index (starts_after k) rs ≡ length before)
around_owner k r [] = ([], [], refl, refl)
around_owner k r (q ∷ qs) = elim (Bool-cases (starts_after k q)) [
  | inl behind ↦ ([], q ∷ qs, ground arith, ground arith)
  | inr at ↦
      let (before, rest, whole, index) = around_owner k q qs in
      (r ∷ before, rest, ground (arith, whole), ground (arith, index))
]

around : (k : Bytes) (ranges : List Range) → Tiles none ranges → Around k ranges
around k [] t = elim t [ ]
around k (r ∷ rs) t =
    let (before, rest, whole, index) = around_owner k r rs in
    record {
      before = before;
      target = owner k r rs;
      rest = rest;
      whole = whole;
      inside = owner-contains k r rs t (first_open k t);
      at = ground (arith, search_ranges-find_index k t, first_open k t, index);
    }

get_elem?-middle :
    (before : List Range) (target : Range) (rest : List Range)
    → get_elem? (before ++ target ∷ rest) (length before) ≡ some target
get_elem?-middle [] target rest = refl
get_elem?-middle (b ∷ before) target rest = get_elem?-middle before target rest

split_target_lem :
    (cmd : Command) (k : Bytes) (ranges : List Range) (n : ℕ) (target : Range)
    → cmd.split_key ≡ some k
    → contains k target ≡ true
    → split_target cmd ranges n target ≡ (
        if splits k target
        then replace_by_two ranges n (lower target k cmd.shard_id1) (upper target k cmd.shard_id2)
        else ranges)
unfolding split_target contains
split_target_lem cmd k ranges n target e inside = ground arith

split_range_at :
    (cmd : Command) (k : Bytes) (ranges : List Range) (n : ℕ) (target : Range)
    → cmd.split_key ≡ some k
    → search_ranges k ranges ≡ suc n
    → get_elem? ranges n ≡ some target
    → split_range cmd ranges ≡ some (split_target cmd ranges n target)
unfolding split_range
split_range_at cmd k ranges n target e at found =
    ground (arith, ap (λ key. search_ranges (or_empty key) ranges) e)

-- The ranges after a split of a tiling.
abbrev after_split : Command → (k : Bytes) (ranges : List Range) → Around k ranges → List Range
after_split cmd k ranges a =
    if splits k a.target
    then a.before ++ lower a.target k cmd.shard_id1 ∷ upper a.target k cmd.shard_id2 ∷ a.rest
    else ranges

split_range-Around :
    (cmd : Command) (k : Bytes) (ranges : List Range) (a : Around k ranges)
    → cmd.split_key ≡ some k
    → split_range cmd ranges ≡ some (after_split cmd k ranges a)
split_range-Around cmd k ranges a e =
    let r1 = lower a.target k cmd.shard_id1 in
    let r2 = upper a.target k cmd.shard_id2 in
    let n = length a.before in
    split_range_at cmd k ranges n a.target e a.at
      (ap (λ rs. get_elem? rs n) a.whole ∙ get_elem?-middle a.before a.target a.rest)
    ∙ ap some (
        split_target_lem cmd k ranges n a.target e a.inside
        ∙ ap (λ (rs : List Range). if splits k a.target then rs else ranges)
            (ap (λ rs. replace_by_two rs n r1 r2) a.whole
              ∙ replace_by_two_lem a.before a.target r1 r2 a.rest))

IsBelow-of_test :
    (k : Bytes) (start : Option Bytes)
    → elim start [ none ↦ true | some lo ↦ bytes_ltb lo k ] ≡ true
    → IsBelow start k
unfolding bytes_ltb
IsBelow-of_test k none h = tt
IsBelow-of_test k (some lo) h = ground arith

IsAbove-of_test :
    (k : Bytes) (end : Option Bytes)
    → elim end [ none ↦ false | some hi ↦ not (bytes_ltb k hi) ] ≡ false
    → IsAbove end k
unfolding bytes_ltb
IsAbove-of_test k none h = tt
IsAbove-of_test k (some hi) h = ground arith

inside-IsAbove : (k : Bytes) (r : Range) → contains k r ≡ true → IsAbove r.end_key k
unfolding contains
inside-IsAbove k r h = IsAbove-of_test k r.end_key (ground arith)

after_split-Tiles :
    (cmd : Command) (k : Bytes) (ranges : List Range) (a : Around k ranges)
    → Tiles none ranges
    → Tiles none (after_split cmd k ranges a)
after_split-Tiles cmd k ranges a t = elim (Bool-cases (splits k a.target)) [
  | inl ok ↦ rw ok (
      Tiles-split k cmd.shard_id1 cmd.shard_id2 none a.before a.target a.rest
        (subst (Tiles none) a.whole t) (IsBelow-of_test k a.target.start_key ok)
        (inside-IsAbove k a.target a.inside))
  | inr no_split ↦ rw no_split t
]

-- Whatever command is applied, if it has a split key: Apply does not panic, and ranges that tile
-- the key space still do.
pub apply_command-Tiles :
    (cmd : Command) (k : Bytes) (s : MetaStore)
    → cmd.split_key ≡ some k
    → Tiles none s.ranges
    → (s' : MetaStore) × (apply_command cmd s ≡ some s') × Tiles none s'.ranges
unfolding apply_command
apply_command-Tiles cmd k s e t =
    let a = around k s.ranges t in
    let split = split_range-Around cmd k s.ranges a e in
    elim (Bool-cases (bytes_equal cmd.op (codes "REGISTER_SHARD"))) [
      | inl register ↦
          (record s { shards = put_shard cmd.shard.id cmd.shard s.shards }, ground arith, t)
      | inr no_register ↦ elim (Bool-cases (bytes_equal cmd.op (codes "UPDATE_RANGE"))) [
        | inl update ↦ (s, ground arith, t)
        | inr no_update ↦ elim (Bool-cases (bytes_equal cmd.op (codes "SPLIT_RANGE"))) [
          | inl is_split ↦ (
            record s { ranges = after_split cmd k s.ranges a },
            ground arith,
            after_split-Tiles cmd k s.ranges a t,
          )
          | inr no_split ↦ (s, ground arith, t)
        ]
      ]
    ]

scan_ranges-after_split :
    (cmd : Command) (k j : Bytes) (ranges : List Range) (a : Around k ranges)
    → Tiles none ranges
    → scan_ranges j (after_split cmd k ranges a) ≡ (
        if splits k a.target && contains j a.target
        then (if bytes_ltb j k then cmd.shard_id1 else cmd.shard_id2)
        else scan_ranges j ranges)
scan_ranges-after_split cmd k j ranges a t = elim (Bool-cases (splits k a.target)) [
  | inr no_split ↦ rw no_split
  | inl ok ↦ ground (
    arith,
    scan_ranges-split k cmd.shard_id1 cmd.shard_id2 j none a.before a.target a.rest
        (subst (Tiles none) a.whole t) (IsBelow-of_test k a.target.start_key ok)
        (inside-IsAbove k a.target a.inside),
    ap (scan_ranges j) a.whole,
  )
]

apply_command_split :
    (cmd : Command) (s : MetaStore) (ranges : List Range)
    → cmd.op ≡ codes "SPLIT_RANGE"
    → split_range cmd s.ranges ≡ some ranges
    → apply_command cmd s ≡ some (record s { ranges = ranges })
unfolding apply_command bytes_equal
apply_command_split cmd s ranges op split = ground (
  arith,
  ap (λ o. bytes_equal o (codes "REGISTER_SHARD")) op,
  ap (λ o. bytes_equal o (codes "UPDATE_RANGE")) op,
  ap (λ o. bytes_equal o (codes "SPLIT_RANGE")) op,
)

-- SPLIT_RANGE at a key, on ranges that tile the key space: of the one range that contains the key,
-- the keys below it go to the first shard and the others to the second; a key that is itself the
-- start of its range changes nothing; every other key keeps its shard.
pub get_shard-split :
    (cmd : Command) (k : Bytes) (s : MetaStore)
    → cmd.op ≡ codes "SPLIT_RANGE"
    → cmd.split_key ≡ some k
    → Tiles none s.ranges
    → (target : Range) × Has target s.ranges
      × (contains k target ≡ true)
      × (s' : MetaStore) × (apply_command cmd s ≡ some s')
      × ((j : Bytes)
          → get_shard j s' ≡ (
              if splits k target && contains j target
              then some (if bytes_ltb j k then cmd.shard_id1 else cmd.shard_id2)
              else get_shard j s))
get_shard-split cmd k s op e t =
    let a = around k s.ranges t in
    let after : MetaStore = record s { ranges = after_split cmd k s.ranges a } in
    (
      a.target,
      subst (Has a.target) (sym a.whole) (Has-middle a.before a.target a.rest),
      a.inside,
      after,
      apply_command_split cmd s _ op (split_range-Around cmd k s.ranges a e),
      λ j. ground (
        arith,
        agree j after (after_split cmd k s.ranges a) refl (after_split-Tiles cmd k s.ranges a t),
        agree j s s.ranges refl t,
        scan_ranges-after_split cmd k j s.ranges a t,
      ),
    )
