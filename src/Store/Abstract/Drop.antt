-- ===== src/Store/Abstract/Drop.antt =====
-- Which superseded versions RunGC of internal/storage/memory.go drops.
use shard_db.Base.{
  ℕ, ◌<◌, ◌≤◌, ◌≡◌, ◌⊎◌, inl, inr, refl, sym, ap, ◌∙◌, Bool, true, false, ◌||◌, none, some, List,
  [], ◌∷◌, All, arith, leb, Bool-cases, Ordering,
}
use shard_db.Bytes.{Bytes, bytes_compare, bytes_equal}
use shard_db.Bytes.Order.{eq_of_equal, equal_refl, gt_of_lt}
use shard_db.Bytes.Diverge.{diverges}
use shard_db.Dict
use shard_db.Dict.{Dict}
use shard_db.Store.{MemoryStore, Lock, run_gc}
use shard_db.Store.Abstract.{Collected}
use shard_db.Tree.{BTree, Item}
use shard_db.Tree.Walk.{IsSorted, ◌≺◌}
use shard_db.Mvcc.{encode_key}
use shard_db.Store.Items.{
  IsVersion, IsApart, IsOther, IsMvcc, user_key, stamp, compare-encode_key_apart, others_beyond,
}
use shard_db.Store.Gc.{All-kept}
use shard_db.Store.Collected.{kept, found_before, run_gc_lem, locks-run_gc}
use shard_db.Store.Abstract.Collect.{find-above, find-lt, kept-versions}
use shard_db.Store.Abstract.View.{is_at, find, view}

find-others : (key : Bytes) (ts : ℕ) (is : List Item) → All (IsOther key) is → find key ts is ≡ none
find-others key ts [] h = refl
find-others key ts (i ∷ is) h = ground (arith, find-others key ts is h.1)

-- A version of the key in front of the items.
abbrev Front : Bytes → List Item → Type 0
Front key is = (j : Item) × IsVersion j × (user_key j ≡ key) × All (λ i. j ≺ i) is

-- An item of another key behind a version of the key is of a greater one.
greater :
    (key : Bytes) (i j : Item)
    → IsVersion i
    → IsVersion j
    → IsApart key i
    → IsOther key i
    → user_key j ≡ key
    → j ≺ i
    → bytes_compare (user_key i) key ≡ Ordering.gt
greater key i j v w a o e lt =
    let place : j.key ≡ encode_key key (stamp j) =
      w.0 ∙ ap (λ (k : Bytes). encode_key k (stamp j)) e in
    sym (compare-encode_key_apart key (stamp j) i v a o)
    ∙ ap (bytes_compare i.key) (sym place)
    ∙ gt_of_lt j.key i.key lt

module _ (safe_ts : ℕ) (key : Bytes) (ts : ℕ) where
  -- A newer version, not after `safe_ts`, in the items or in front of them.
  Seen : Bytes → Bool → List Item → Type 0
  Seen current found is =
      ((n : ℕ) × (ts < n) × (n ≤ safe_ts) × (value : Bytes) × (find key n is ≡ some value))
      ⊎ ((found ≡ true) × (current ≡ key) × Front key is)

  Gone : Bytes → Bool → List Item → Type 0
  Gone current found is = find key ts (kept safe_ts current found is) ≡ none

  passes : Bytes → Bool → Item → Bool
  passes current found i = leb (stamp i) safe_ts || found_before current found i

  Gone-other :
      (current : Bytes) (found : Bool) (i : Item) (is : List Item)
      → IsOther key i
      → Gone (user_key i) (passes current found i) is
      → Gone current found (i ∷ is)
  unfolding Gone passes
  Gone-other current found i is o h = ground (arith, h)

  -- An item of the key that is newer than the version.
  Gone-newer :
      (current : Bytes) (found : Bool) (i : Item) (is : List Item)
      → is_at key ts i ≡ false
      → Gone (user_key i) (passes current found i) is
      → Gone current found (i ∷ is)
  unfolding Gone passes
  Gone-newer current found i is off h = ground (arith, h)

  -- The version itself: the newer one is in front of it, so it is dropped.
  Gone-at :
      (current : Bytes) (found : Bool) (i : Item) (is : List Item)
      → ts ≤ safe_ts
      → IsSorted (i ∷ is)
      → All IsVersion (i ∷ is)
      → is_at key ts i ≡ true
      → Seen current found (i ∷ is)
      → Gone current found (i ∷ is)
  unfolding Gone Seen
  Gone-at current found i is le srt vs at seen =
      let own : user_key i ≡ key = eq_of_equal (user_key i) key (ground arith) in
      elim seen [
        | inl (n, lt, safe, value, e) ↦
            let after : n < stamp i = find-lt key n value i is vs.0 vs.1 srt.0 own (ground arith) in
            absurd (ground arith)
        | inr (f, same, front) ↦
            let here : bytes_equal (user_key i) current ≡ true =
              ground (arith, own, same, equal_refl key) in
            let rest =
              find-above key ts i (kept safe_ts (user_key i) true is) vs.0
                (All-kept safe_ts IsVersion (user_key i) true is vs.1)
                (All-kept safe_ts (λ j. i ≺ j) (user_key i) true is srt.0) at in
            ground (arith, rest)
      ]

  -- Behind an item of the key.
  Seen-next :
      (current : Bytes) (found : Bool) (i : Item) (is : List Item)
      → IsVersion i
      → All (λ j. i ≺ j) is
      → bytes_equal (user_key i) key ≡ true
      → Seen current found (i ∷ is)
      → Seen (user_key i) (passes current found i) is
  unfolding Seen passes
  Seen-next current found i is v front own seen =
      let here : user_key i ≡ key = eq_of_equal (user_key i) key own in
      elim seen [
        | inl (n, lt, safe, value, e) ↦ elim (Bool-cases (is_at key n i)) [
          | inl at ↦ inr (ground arith, here, (i, v, here, front))
          | inr off ↦ inl (n, lt, safe, value, ground arith)
        ]
        | inr (f, same, before) ↦
            let again : bytes_equal (user_key i) current ≡ true =
              ground (arith, here, same, equal_refl key) in
            inr (ground arith, here, (i, v, here, front))
      ]

  gone :
      (current : Bytes) (found : Bool) (is : List Item)
      → ts ≤ safe_ts
      → IsSorted is
      → All IsVersion is
      → All (IsApart key) is
      → Seen current found is
      → Gone current found is
  unfolding Gone Seen passes
  gone current found [] le srt vs aps seen = refl
  gone current found (i ∷ is) le srt vs aps seen =
      elim (Bool-cases (bytes_equal (user_key i) key)) [
        | inr o ↦ elim seen [
          | inl (n, lt, safe, value, e) ↦ Gone-other current found i is o (
              gone (user_key i) (passes current found i) is le srt.1 vs.1 aps.1
                (inl (n, lt, safe, value, ground arith)))
          | inr (f, same, (j, w, e, front)) ↦
              let beyond =
                others_beyond key i is vs.0 aps.0 o (greater key i j vs.0 w aps.0 o e front.0) srt.0
                  vs.1 in
              Gone-other current found i is o (
                find-others key ts (kept safe_ts (user_key i) (passes current found i) is)
                  (All-kept safe_ts (IsOther key) (user_key i) (passes current found i) is beyond))
        ]
        | inl own ↦ elim (Bool-cases (is_at key ts i)) [
          | inl at ↦ Gone-at current found i is le srt vs at seen
          | inr off ↦ Gone-newer current found i is off (
              gone (user_key i) (passes current found i) is le srt.1 vs.1 aps.1
                (Seen-next current found i is vs.0 srt.0 own seen))
        ]
      ]

-- What holds at every place of a version holds for every item.
All-of_find :
    (Q : Bytes → Type 0) (is : List Item)
    → ((j : Bytes) (t : ℕ) (value : Bytes) → find j t is ≡ some value → Q j)
    → All (λ i. Q (user_key i)) is
All-of_find Q [] h = tt
All-of_find Q (i ∷ is) h = (
  h (user_key i) (stamp i) i.value (ground (arith, equal_refl (user_key i))),
  All-of_find Q is (λ j t value e. elim (Bool-cases (is_at j t i)) [
    | inl at ↦ h j t i.value (ground arith)
    | inr off ↦ h j t value (ground arith)
  ]),
)

-- A version with a newer one that is not after `safe_ts` is not kept, if no other stored key is a
-- proper prefix or a proper extension of its key.
pub kept-drops :
    (safe_ts : ℕ) (key : Bytes) (ts n : ℕ) (value : Bytes) (is : List Item)
    → IsSorted is
    → All IsVersion is
    → ((j : Bytes) (t : ℕ) (v : Bytes)
        → find j t is ≡ some v
        → (bytes_equal j key || diverges j key) ≡ true)
    → ts < n
    → n ≤ safe_ts
    → find key n is ≡ some value
    → find key ts (kept safe_ts [] false is) ≡ none
unfolding Gone Seen
kept-drops safe_ts key ts n value is srt vs alone lt safe e =
    gone safe_ts key ts [] false is (omega arith) srt vs
      (All-of_find (λ j. (bytes_equal j key || diverges j key) ≡ true) is alone)
      (inl (n, lt, safe, value, e))

-- RunGC keeps the locks, drops no version without a newer one, not after `safe_ts`, that stays, and
-- drops every version of an alone key that has a newer one, not after `safe_ts`.
pub run_gc-Collected :
    {B : BTree} (safe_ts : ℕ) (s : MemoryStore B)
    → IsMvcc (B.items s.tree)
    → Collected safe_ts (view s) (view (run_gc safe_ts s).0)
run_gc-Collected {B} safe_ts s w =
    let after : B.items (run_gc safe_ts s).0.tree ≡ kept safe_ts [] false (B.items s.tree) =
      (run_gc_lem safe_ts s w.sorted).0 in
    record {
      locks_stay = ap (λ (locks : Dict Lock). λ key. Dict.get key locks) (locks-run_gc safe_ts s);
      versions_stay = λ key ts.
          elim (kept-versions safe_ts key ts (B.items s.tree) w.sorted w.versions) [
            | inl same ↦ inl (ap (find key ts) after ∙ same)
            | inr (lost, n, lt, le, value, e) ↦
                inr (ap (find key ts) after ∙ lost, (n, lt, le, value, ap (find key n) after ∙ e))
          ];
      superseded_go = λ key ts alone newer.
          let (n, lt, le, value, e) = newer in
          ap (find key ts) after
          ∙ kept-drops safe_ts key ts n value (B.items s.tree) w.sorted w.versions alone lt le e;
    }
