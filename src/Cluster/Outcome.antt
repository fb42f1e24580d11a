-- ===== src/Cluster/Outcome.antt =====
-- A transaction of the coordinator, seen in the stores of the shards once they have applied its
-- requests.
use mathlib.Core.Path.{ap₂, subst}
use shard_db.Base.{
  is_some, or_else, ℕ, ◌≡◌, refl, sym, ap, ◌∙◌, Bool, true, ◌&&◌, Option, none, some, List, ◌++◌,
  All, arith, if◌then◌else◌, ◌==◌,
}
use shard_db.Bytes.{Bytes}
use shard_db.Bytes.Order.{equal_refl}
use shard_db.Dict.{Dict}
use shard_db.Store.{Lock}
use shard_db.Store.Abstract.{Abstract, allows}
use shard_db.Txn.{WriteIntent, Message}
use shard_db.Cluster.Told.{told_all-append, told_all-prepares, told_all-commits, told_all-aborts}
use shard_db.Cluster.Act.{
  IsPrepare, IsCommit, IsAbort, told_all, named, last_prepared, relock, unlock, owns,
}
use shard_db.Cluster.Groups.{intents_at}

-- A range over the map of groups meets each group once.
abbrev pub IsRange : Dict (List WriteIntent) → Dict (List WriteIntent) → Type 0
IsRange order groups = (addr : Bytes) → intents_at addr order ≡ intents_at addr groups

-- The lock of a key, and its versions, once a transaction whose last write there is `value` is over.
abbrev pub Unlocked : Bytes → Bytes → Option Bytes → Abstract → Abstract → Type 0
Unlocked txn_id key value a b =
    b.held key ≡ (if is_some value && allows (a.held key) txn_id then none else a.held key)

abbrev pub Written : Bytes → ℕ → Bytes → Option Bytes → Abstract → Abstract → Type 0
Written txn_id ts key value a b =
    (t : ℕ)
    → b.at key t
      ≡ (if allows (a.held key) txn_id && ts == t then or_else value (a.at key t) else a.at key t)

settled-lock :
    (txn_id : Bytes) (l : Option Lock) (value : Option Bytes)
    → (if is_some value then unlock txn_id (relock txn_id value l) else relock txn_id value l)
      ≡ (if is_some value && allows l txn_id then none else l)
settled-lock txn_id none none = refl
settled-lock txn_id (some l) none = refl
settled-lock txn_id none (some v) = ground (arith, equal_refl txn_id)
settled-lock txn_id (some l) (some v) = ground (arith, equal_refl txn_id)

settled-value :
    (txn_id : Bytes) (l : Option Lock) (value o : Option Bytes) (n : Bool)
    → (if is_some value && n then or_else (owns txn_id (relock txn_id value l)) o else o)
      ≡ (if allows l txn_id && n then or_else value o else o)
settled-value txn_id none none o n = ground arith
settled-value txn_id (some l) none o n = ground arith
settled-value txn_id none (some v) o n = ground (arith, equal_refl txn_id)
settled-value txn_id (some l) (some v) o n = ground (arith, equal_refl txn_id)

released-lock :
    (txn_id : Bytes) (l : Option Lock) (value written : Option Bytes)
    → (is_some value ≡ true → is_some written ≡ true)
    → (if is_some written then unlock txn_id (relock txn_id value l) else relock txn_id value l)
      ≡ (if is_some written && allows l txn_id then none else l)
released-lock txn_id none none none h = refl
released-lock txn_id (some l) none none h = refl
released-lock txn_id none none (some w) h = refl
released-lock txn_id (some l) none (some w) h = ground arith
released-lock txn_id l (some v) none h = absurd (cc (h refl))
released-lock txn_id none (some v) (some w) h = ground (arith, equal_refl txn_id)
released-lock txn_id (some l) (some v) (some w) h = ground (arith, equal_refl txn_id)

module _ (addr key txn_id : Bytes) (value : Option Bytes) (prepared arrived : List Message)
    (a : Abstract) (last : last_prepared addr key prepared ≡ value)
    (kinds : All (IsPrepare txn_id) prepared) where
  -- The requests of a transaction that commits, told to a shard.
  pub told-committed :
      (ts : ℕ)
      → named addr key arrived ≡ is_some value
      → All (IsCommit txn_id ts) arrived
      → Unlocked txn_id key value a (told_all addr (prepared ++ arrived) a)
        × Written txn_id ts key value a (told_all addr (prepared ++ arrived) a)
  told-committed ts names commits =
      let mid = told_all addr prepared a in
      let first = told_all-prepares addr key txn_id prepared a kinds in
      let second = told_all-commits addr key txn_id ts arrived mid commits in
      let lock : mid.held key ≡ relock txn_id value (a.held key) =
        first.1 ∙ ap (λ o. relock txn_id o (a.held key)) last in
      let old : (t : ℕ) → mid.at key t ≡ a.at key t =
        λ t. ap (λ (f : Bytes → ℕ → Option Bytes). f key t) first.0 in
      subst (λ b. Unlocked txn_id key value a b × Written txn_id ts key value a b)
        (sym (told_all-append addr prepared arrived a))
        (
          second.1
              ∙ ap₂ (λ (n : Bool) (l : Option Lock). if n then unlock txn_id l else l) names lock
              ∙ settled-lock txn_id (a.held key) value,
          λ t.
              second.0 t
              ∙ ap₂
                  (λ (n : Bool) (l : Option Lock).
                    if n && ts == t then or_else (owns txn_id l) (mid.at key t) else mid.at key t)
                  names lock
              ∙ ap
                  (λ (o : Option Bytes).
                    if is_some value && ts == t
                    then or_else (owns txn_id (relock txn_id value (a.held key))) o
                    else o)
                  (old t)
              ∙ settled-value txn_id (a.held key) value (a.at key t) (ts == t),
        )

  -- Of one that aborts, whatever was prepared of it.
  pub told-aborted :
      (written : Option Bytes)
      → named addr key arrived ≡ is_some written
      → (is_some value ≡ true → is_some written ≡ true)
      → All (IsAbort txn_id) arrived
      → Unlocked txn_id key written a (told_all addr (prepared ++ arrived) a)
        × ((told_all addr (prepared ++ arrived) a).at ≡ a.at)
  told-aborted written names within aborts =
      let mid = told_all addr prepared a in
      let first = told_all-prepares addr key txn_id prepared a kinds in
      let second = told_all-aborts addr key txn_id arrived mid aborts in
      let lock : mid.held key ≡ relock txn_id value (a.held key) =
        first.1 ∙ ap (λ o. relock txn_id o (a.held key)) last in
      subst (λ (b : Abstract). Unlocked txn_id key written a b × (b.at ≡ a.at))
        (sym (told_all-append addr prepared arrived a))
        (
          second.1
              ∙ ap₂ (λ (n : Bool) (l : Option Lock). if n then unlock txn_id l else l) names lock
              ∙ released-lock txn_id (a.held key) value written within,
          second.0 ∙ first.0,
        )
