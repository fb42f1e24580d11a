-- ===== src/Router/Split.antt =====
-- SPLIT_RANGE of internal/meta/store.go: the ranges still tile the key space, and which keys move.
use mathlib.Core.Path.{subst}
use shard_db.Base.{
  ℕ, ◌≡◌, ◌≢◌, refl, sym, Ordering, true, false, not, ◌&&◌, Option, none, some, List, [], ◌∷◌, ◌++◌,
  Has, All-Has, arith, if◌then◌else◌, inl, inr, ◌⊎◌,
}
use shard_db.Bytes.{Bytes, bytes_compare, bytes_ltb}
use shard_db.Bytes.Order.{compare_trans}
use shard_db.Meta.{Range, starts_after}
use shard_db.Meta.Tiles.{Tiles, last, more, IsBelow, Tiles-start, All-start_after}
use shard_db.Router.{contains, scan_ranges}
use shard_db.Router.Agreement.{contains-starts_after}

-- A range of a tiling is the last one, or the next starts at its end.
Tiles-cases :
    {lo : Option Bytes} {b : Range} {xs : List Range}
    → Tiles lo (b ∷ xs)
    → ((xs ≡ []) × (b.end_key ≡ none))
      ⊎ ((k : Bytes) × (b.end_key ≡ some k) × IsBelow lo k × Tiles (some k) xs)
Tiles-cases (last lo id) = inl (refl, refl)
Tiles-cases (more lo k id rs below t) = inr (k, refl, below, t)

more_of :
    (lo : Option Bytes) (k : Bytes) (b : Range) (rs : List Range)
    → b.start_key ≡ lo
    → b.end_key ≡ some k
    → IsBelow lo k
    → Tiles (some k) rs
    → Tiles lo (b ∷ rs)
more_of lo k b rs s e below t =
    subst (λ (x : Range). Tiles lo (x ∷ rs)) (ground arith) (more lo k b.shard_id rs below t)

last_of : (lo : Option Bytes) (b : Range) → b.start_key ≡ lo → b.end_key ≡ none → Tiles lo (b ∷ [])
last_of lo b s e = subst (λ (x : Range). Tiles lo (x ∷ [])) (ground arith) (last lo b.shard_id)

abbrev pub IsAbove : Option Bytes → Bytes → Type 0
IsAbove none k = Unit
IsAbove (some hi) k = bytes_compare k hi ≡ Ordering.lt

abbrev pub lower : Range → Bytes → ℕ → Range
lower target k id = record { start_key = target.start_key; end_key = some k; shard_id = id }

abbrev pub upper : Range → Bytes → ℕ → Range
upper target k id = record { start_key = some k; end_key = target.end_key; shard_id = id }

append_ne_nil : (xs ys : List Range) (y : Range) → (xs ++ y ∷ ys) ≢ []
append_ne_nil [] ys y e = cc
append_ne_nil (x ∷ xs) ys y e = cc

pub Has-middle :
    (before : List Range) (target : Range) (rest : List Range)
    → Has target (before ++ target ∷ rest)
Has-middle [] target rest = inl refl
Has-middle (b ∷ before) target rest = inr (Has-middle before target rest)

ends_after :
    (j e : Bytes) (b : Range) → b.end_key ≡ some e → contains j b ≡ true → bytes_ltb j e ≡ true
unfolding contains
ends_after j e b end c = ground arith

-- A key of an earlier range is in no later one.
contains_not_later :
    (j e : Bytes) (b : Range) (before : List Range) (target : Range) (rest : List Range)
    → b.end_key ≡ some e
    → Tiles (some e) (before ++ target ∷ rest)
    → contains j b ≡ true
    → contains j target ≡ false
contains_not_later j e b before target rest end t c = contains-starts_after j target (
    All-Has (λ r. starts_after j r ≡ true) target (before ++ target ∷ rest)
      (All-start_after j e (before ++ target ∷ rest) t (ends_after j e b end c))
      (Has-middle before target rest))

module _ (k : Bytes) (id1 id2 : ℕ) where
  Tiles-split_front :
      (lo : Option Bytes) (target : Range) (rest : List Range)
      → Tiles lo (target ∷ rest)
      → IsBelow target.start_key k
      → IsAbove target.end_key k
      → Tiles lo (lower target k id1 ∷ upper target k id2 ∷ rest)
  Tiles-split_front lo target rest t below above =
      let low : IsBelow lo k = subst (λ b. IsBelow b k) (Tiles-start t) below in
      elim (Tiles-cases t) [
        | inl (empty, end) ↦
            subst (λ rs. Tiles lo (lower target k id1 ∷ upper target k id2 ∷ rs)) (sym empty)
              (more_of lo k (lower target k id1) _ (Tiles-start t) refl low
                (last_of (some k) (upper target k id2) refl end))
        | inr (e, end, _, t') ↦ more_of lo k (lower target k id1) _ (Tiles-start t) refl low (
            more_of (some k) e (upper target k id2) rest refl end
              (subst (λ b. IsAbove b k) end above) t')
      ]

  pub Tiles-split :
      (lo : Option Bytes) (before : List Range) (target : Range) (rest : List Range)
      → Tiles lo (before ++ target ∷ rest)
      → IsBelow target.start_key k
      → IsAbove target.end_key k
      → Tiles lo (before ++ lower target k id1 ∷ upper target k id2 ∷ rest)
  Tiles-split lo [] target rest t below above = Tiles-split_front lo target rest t below above
  Tiles-split lo (b ∷ before) target rest t below above = elim (Tiles-cases t) [
    | inl (empty, end) ↦ absurd (append_ne_nil before rest target empty)
    | inr (e, end, low, t') ↦
        more_of lo e b (before ++ lower target k id1 ∷ upper target k id2 ∷ rest) (Tiles-start t)
          end low (Tiles-split (some e) before target rest t' below above)
  ]

  halves :
      (st en : Option Bytes) (id : ℕ) (j : Bytes)
      → IsBelow st k
      → IsAbove en k
      → (contains j (record { start_key = st; end_key = some k; shard_id = id1 })
          ≡ (contains j (record { start_key = st; end_key = en; shard_id = id }) && bytes_ltb j k))
        × (contains j (record { start_key = some k; end_key = en; shard_id = id2 }) ≡ (
            contains j (record { start_key = st; end_key = en; shard_id = id })
            && not (bytes_ltb j k)))
  unfolding contains bytes_ltb
  halves none none id j below above = (ground arith, ground arith)
  halves none (some e) id j below above = (ground (arith, compare_trans j k e), ground arith)
  halves (some s) none id j below above = (ground arith, ground (arith, compare_trans j s k))
  halves (some s) (some e) id j below above =
      (ground (arith, compare_trans j k e), ground (arith, compare_trans j s k))

  -- The two halves contain what the whole contains, on the two sides of the key.
  contains-halves :
      (j : Bytes) (target : Range)
      → IsBelow target.start_key k
      → IsAbove target.end_key k
      → (contains j (lower target k id1) ≡ (contains j target && bytes_ltb j k))
        × (contains j (upper target k id2) ≡ (contains j target && not (bytes_ltb j k)))
  contains-halves j target = halves target.start_key target.end_key target.shard_id j

  pub scan_ranges-split :
      (j : Bytes) (lo : Option Bytes) (before : List Range) (target : Range) (rest : List Range)
      → Tiles lo (before ++ target ∷ rest)
      → IsBelow target.start_key k
      → IsAbove target.end_key k
      → scan_ranges j (before ++ lower target k id1 ∷ upper target k id2 ∷ rest) ≡ (
          if contains j target
          then (if bytes_ltb j k then id1 else id2)
          else scan_ranges j (before ++ target ∷ rest))
  unfolding scan_ranges
  scan_ranges-split j lo [] target rest t below above =
      ground (arith, contains-halves j target below above)
  scan_ranges-split j lo (b ∷ before) target rest t below above = elim (Tiles-cases t) [
    | inl (empty, end) ↦ absurd (append_ne_nil before rest target empty)
    | inr (e, end, low, t') ↦ ground (
      arith,
      scan_ranges-split j (some e) before target rest t' below above,
      contains_not_later j e b before target rest end t',
    )
  ]
