-- ===== src/Meta/Tiles.antt =====
-- Ranges that tile the key space: each starts where the one before it ends, the first is open below
-- and the last above.
use shard_db.Base.{
  ℕ, ◌≡◌, refl, ap, ◌∙◌, Ordering, true, Option, none, some, List, [], ◌∷◌, All, get_elem?, arith,
  if◌then◌else◌,
}
use shard_db.Bytes.{Bytes, bytes_compare, bytes_ltb}
use shard_db.Bytes.Order.{compare_trans}
use shard_db.Sort.Laws.{find_index, IsMonotone, search-find_index}
use shard_db.Meta.{Range, MetaStore, starts_after, search_ranges, get_shard}

-- The bound lies below the key.
abbrev pub IsBelow : Option Bytes → Bytes → Type 0
IsBelow none k = Unit
IsBelow (some lo) k = bytes_compare lo k ≡ Ordering.lt

-- The ranges tile the keys from the bound on.
pub data Tiles : Option Bytes → List Range → Type 0 where
  last :
      (lo : Option Bytes) (id : ℕ)
      → Tiles lo (record { start_key = lo; end_key = none; shard_id = id } ∷ [])
  more :
      (lo : Option Bytes) (k : Bytes) (id : ℕ) (rs : List Range)
      → IsBelow lo k
      → Tiles (some k) rs
      → Tiles lo (record { start_key = lo; end_key = some k; shard_id = id } ∷ rs)

pub Tiles-start :
    {lo : Option Bytes} {r : Range} {rs : List Range} → Tiles lo (r ∷ rs) → r.start_key ≡ lo
Tiles-start (last lo id) = refl
Tiles-start (more lo k id rs below t) = refl

pub Tiles-tail :
    {lo : Option Bytes} {r q : Range} {qs : List Range}
    → Tiles lo (r ∷ q ∷ qs)
    → Tiles r.end_key (q ∷ qs)
Tiles-tail (more lo k id rs below t) = t

-- Where two ranges meet.
pub Tiles-border :
    {lo : Option Bytes} {r q : Range} {qs : List Range}
    → Tiles lo (r ∷ q ∷ qs)
    → (k : Bytes) × (r.end_key ≡ some k) × (q.start_key ≡ some k) × IsBelow lo k
Tiles-border (more lo k id rs below t) = (k, refl, Tiles-start t, below)

pub Tiles-end : {lo : Option Bytes} {r : Range} → Tiles lo (r ∷ []) → r.end_key ≡ none
Tiles-end (last lo id) = refl
Tiles-end (more lo k id rs below t) = elim t [ ]

module _ (key : Bytes) where
  pub starts_after_trans :
      (lo k : Bytes)
      → bytes_compare lo k ≡ Ordering.lt
      → bytes_ltb key lo ≡ true
      → bytes_ltb key k ≡ true
  unfolding bytes_ltb
  starts_after_trans lo k h lt = ground (arith, compare_trans key lo k)

  pub All-start_after :
      (lo : Bytes) (rs : List Range)
      → Tiles (some lo) rs
      → bytes_ltb key lo ≡ true
      → All (λ r. starts_after key r ≡ true) rs
  unfolding starts_after
  All-start_after lo rs (last _ id) lt = (lt, tt)
  All-start_after lo rs (more _ k id rest below t) lt =
      (lt, All-start_after k rest t (starts_after_trans lo k below lt))

  Tiles-IsMonotone :
      {lo : Option Bytes} {rs : List Range} → Tiles lo rs → IsMonotone (starts_after key) rs
  unfolding starts_after
  Tiles-IsMonotone (last lo id) = ((λ _. tt), tt)
  Tiles-IsMonotone (more none k id rest below t) = ((λ h. cc), Tiles-IsMonotone t)
  Tiles-IsMonotone (more (some lo) k id rest below t) =
      ((λ h. All-start_after k rest t (starts_after_trans lo k below h)), Tiles-IsMonotone t)

  -- The last range that does not start behind the key, from a first one on.
  abbrev pub owner : Range → List Range → Range
  owner r [] = r
  owner r (q ∷ qs) = if starts_after key q then r else owner q qs

  pub get_elem?-owner :
      (r : Range) (rs : List Range)
      → get_elem? (r ∷ rs) (find_index (starts_after key) rs) ≡ some (owner r rs)
  get_elem?-owner r [] = refl
  get_elem?-owner r (q ∷ qs) = ground (arith, get_elem?-owner q qs)

  pub search_ranges-find_index :
      {lo : Option Bytes} {rs : List Range}
      → Tiles lo rs
      → search_ranges key rs ≡ find_index (starts_after key) rs
  unfolding search_ranges
  search_ranges-find_index {rs = rs} t =
      search-find_index (starts_after key) rs (Tiles-IsMonotone t)

  -- GetShard finds the last range that starts at or before the key.
  pub get_shard-owner :
      (r : Range) (rs : List Range) (s : MetaStore)
      → s.ranges ≡ r ∷ rs
      → Tiles none (r ∷ rs)
      → get_shard key s ≡ some (owner r rs).shard_id
  unfolding get_shard starts_after
  get_shard-owner r rs s e t = ground (
    arith,
    ap (search_ranges key) e ∙ search_ranges-find_index t,
    Tiles-start t,
    get_elem?-owner r rs,
  )
