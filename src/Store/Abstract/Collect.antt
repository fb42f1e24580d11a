-- ===== src/Store/Abstract/Collect.antt =====
-- RunGC of internal/storage/memory.go as a step of the contract: what it drops is superseded.
use shard_db.Base.{
  ℕ, ◌<◌, ◌≤◌, ◌≡◌, ◌⊎◌, inl, inr, refl, sym, ap, ◌∙◌, Bool, true, false, ◌&&◌, ◌||◌, none, some,
  List, [], ◌∷◌, All, arith, leb, Bool-cases, Option-cases, compare, Ordering,
}
use mathlib.Core.Path.{ap₂, subst}
use shard_db.Bytes.{Bytes, bytes_compare}
use shard_db.Bytes.Order.{eq_of_equal, equal_refl, compare_refl}
use shard_db.Mvcc.{encode_key}
use shard_db.Mvcc.Laws.{compare-encode_key_same}
use shard_db.Tree.{Item}
use shard_db.Tree.Walk.{IsSorted, ◌≺◌}
use shard_db.Store.Items.{IsVersion, user_key, stamp}
use shard_db.Store.Gc.{All-kept}
use shard_db.Store.Collected.{kept, found_before}
use shard_db.Store.Abstract.View.{is_at, find, same_place}

-- Of two versions of a key the one that stands before is the newer.
compare_stamps :
    (i j : Item) → IsVersion i → IsVersion j → user_key i ≡ user_key j → i ≺ j → stamp j < stamp i
compare_stamps i j v w e lt =
    let order : compare (stamp j) (stamp i) ≡ Ordering.lt =
      sym (compare-encode_key_same (user_key i) (stamp i) (stamp j) v.1 w.1)
      ∙ sym (ap₂ bytes_compare v.0 (w.0 ∙ ap (λ (k : Bytes). encode_key k (stamp j)) (sym e)))
      ∙ lt in
    ground arith

-- A place behind the item holds no version of it.
pub find-above :
    (key : Bytes) (ts : ℕ) (i : Item) (is : List Item)
    → IsVersion i
    → All IsVersion is
    → All (λ j. i ≺ j) is
    → is_at key ts i ≡ true
    → find key ts is ≡ none
find-above key ts i [] v vs above h = refl
find-above key ts i (j ∷ js) v vs above h = elim (Bool-cases (is_at key ts j)) [
  | inl at ↦ absurd (ground (arith, same_place key ts i j v vs.0 h at, compare_refl j.key, above.0))
  | inr off ↦ ground (arith, find-above key ts i js v vs.1 above.1 h)
]

pub find-lt :
    (key : Bytes) (ts : ℕ) (value : Bytes) (i : Item) (is : List Item)
    → IsVersion i
    → All IsVersion is
    → All (λ j. i ≺ j) is
    → user_key i ≡ key
    → find key ts is ≡ some value
    → ts < stamp i
find-lt key ts value i [] v vs above same h = absurd (cc h)
find-lt key ts value i (j ∷ js) v vs above same h = elim (Bool-cases (is_at key ts j)) [
  | inl at ↦
      let here : user_key j ≡ key = eq_of_equal (user_key j) key (ground arith) in
      let lt = compare_stamps i j v vs.0 (same ∙ sym here) above.0 in ground arith
  | inr off ↦ find-lt key ts value i js v vs.1 above.1 same (ground arith)
]

module _ (safe_ts : ℕ) (key : Bytes) (ts : ℕ) where
  -- A newer version of the key that is not after `safe_ts`.
  Newer : List Item → Type 0
  Newer is = (n : ℕ) × (ts < n) × (n ≤ safe_ts) × (value : Bytes) × (find key n is ≡ some value)

  Newer-cons : (i : Item) (is : List Item) → Newer is → Newer (i ∷ is)
  unfolding Newer
  Newer-cons i is (n, lt, le, value, h) = elim (Bool-cases (is_at key n i)) [
    | inl at ↦ (n, lt, le, i.value, ground arith)
    | inr off ↦ (n, lt, le, value, ground arith)
  ]

  -- The version stays, or it is dropped and a newer one stays, in the list or before it.
  Covered : Bytes → Bool → List Item → Type 0
  Covered current found is =
      let rest = kept safe_ts current found is in
      (find key ts rest ≡ find key ts is)
      ⊎ ((find key ts rest ≡ none) × (Newer rest ⊎ ((found ≡ true) × (current ≡ key))))

  drops : Bytes → Bool → Item → Bool
  drops current found i = leb (stamp i) safe_ts && found_before current found i

  passes : Bytes → Bool → Item → Bool
  passes current found i = leb (stamp i) safe_ts || found_before current found i

  Covered-dropped :
      (current : Bytes) (found : Bool) (i : Item) (is : List Item)
      → drops current found i ≡ true
      → (is_at key ts i ≡ true → find key ts (kept safe_ts (user_key i) true is) ≡ none)
      → Covered (user_key i) (passes current found i) is
      → Covered current found (i ∷ is)
  unfolding Covered Newer drops passes
  Covered-dropped current found i is d gone ih =
      let own : user_key i ≡ current = eq_of_equal (user_key i) current (ground arith) in
      elim (Bool-cases (is_at key ts i)) [
        | inl at ↦
            let here : user_key i ≡ key = eq_of_equal (user_key i) key (ground arith) in
            inr (ground (arith, gone at), inr (ground arith, sym own ∙ here))
        | inr off ↦ elim ih [
          | inl same ↦ inl (ground arith)
          | inr (lost, inl newer) ↦ inr (ground arith, inl (ground (arith, newer)))
          | inr (lost, inr (seen, same)) ↦ inr (ground arith, inr (ground arith, sym own ∙ same))
        ]
      ]

  Covered-kept :
      (current : Bytes) (found : Bool) (i : Item) (is : List Item)
      → drops current found i ≡ false
      → ((value : Bytes) → user_key i ≡ key → find key ts is ≡ some value → ts < stamp i)
      → Covered (user_key i) (passes current found i) is
      → Covered current found (i ∷ is)
  unfolding Covered Newer drops passes
  Covered-kept current found i is d later ih =
      let rest = kept safe_ts (user_key i) (passes current found i) is in
      let here : kept safe_ts current found (i ∷ is) ≡ i ∷ rest = ground arith in
      elim (Bool-cases (is_at key ts i)) [
        | inl at ↦ inl (ground arith)
        | inr off ↦ elim ih [
          | inl same ↦ inl (ground arith)
          | inr (lost, inl newer) ↦
              inr (ground arith, inl (subst Newer (sym here) (Newer-cons i rest newer)))
          | inr (lost, inr (seen, same)) ↦ elim (Option-cases (find key ts is)) [
            | inl nothing ↦ inl (ground arith)
            | inr (value, e) ↦ elim (Bool-cases (leb (stamp i) safe_ts)) [
              | inl le ↦
                  let first : find key (stamp i) (i ∷ rest) ≡ some i.value =
                    ground (arith, same, equal_refl key) in
                  inr (
                    ground arith,
                    inl (
                        subst Newer (sym here)
                          (stamp i, later value same e, ground arith, i.value, first)),
                  )
              | inr gt ↦
                  let own : user_key i ≡ current =
                    eq_of_equal (user_key i) current (ground arith) in
                  inr (ground arith, inr (ground arith, sym own ∙ same))
            ]
          ]
        ]
      ]

  covered :
      (current : Bytes) (found : Bool) (is : List Item)
      → IsSorted is
      → All IsVersion is
      → Covered current found is
  unfolding Covered
  covered current found [] srt vs = inl refl
  covered current found (i ∷ is) srt vs =
      let ih = covered (user_key i) (passes current found i) is srt.1 vs.1 in
      elim (Bool-cases (drops current found i)) [
        | inl d ↦
            Covered-dropped current found i is d
              (λ at.
                find-above key ts i (kept safe_ts (user_key i) true is) vs.0
                  (All-kept safe_ts IsVersion (user_key i) true is vs.1)
                  (All-kept safe_ts (λ j. i ≺ j) (user_key i) true is srt.0) at)
              ih
        | inr d ↦
            Covered-kept current found i is d
              (λ value same e. find-lt key ts value i is vs.0 vs.1 srt.0 same e) ih
      ]

-- A version stays, or it is dropped and a newer one that is not after `safe_ts` stays.
pub kept-versions :
    (safe_ts : ℕ) (key : Bytes) (ts : ℕ) (is : List Item)
    → IsSorted is
    → All IsVersion is
    → let rest = kept safe_ts [] false is in
      (find key ts rest ≡ find key ts is)
      ⊎ ((find key ts rest ≡ none)
          × (n : ℕ) × (ts < n)
          × (n ≤ safe_ts)
          × (value : Bytes) × (find key n rest ≡ some value))
unfolding Covered Newer
kept-versions safe_ts key ts is srt vs = elim (covered safe_ts key ts [] false is srt vs) [
  | inl same ↦ inl same
  | inr (lost, inl (n, lt, le, value, e)) ↦ inr (lost, n, lt, le, value, e)
  | inr (lost, inr (seen, same)) ↦ absurd (cc seen)
]
