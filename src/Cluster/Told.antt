-- ===== src/Cluster/Told.antt =====
-- What the prepare, commit and abort requests of a transaction do to a key at a shard.
use shard_db.Base.{
  or_else, ℕ, ◌≡◌, refl, ap, ◌∙◌, true, ◌&&◌, Option, none, some, List, [], ◌∷◌, All, arith, ◌==◌,
  if◌then◌else◌, inl, inr, Option-cases, ◌++◌,
}
use shard_db.Bytes.{Bytes, bytes_equal}
use shard_db.Bytes.Order.{eq_of_equal, equal_refl}
use shard_db.Store.{Lock}
use shard_db.Store.Abstract.{Abstract}
use shard_db.Txn.{Message, prepare, commit, abort, oneshot}
use shard_db.Cluster.{shard_of}
use shard_db.Cluster.Act.{
  told, told_all, IsPrepare, IsCommit, IsAbort, concerns, named, value_in, last_prepared, relock,
  unlock, owns,
}

module _ (addr key txn_id : Bytes) where
  told-prepare :
      (m : Message) (a : Abstract)
      → IsPrepare txn_id m
      → ((told addr m a).at ≡ a.at)
        × ((told addr m a).held key
            ≡ relock txn_id (if concerns addr key m then some (value_in m) else none) (a.held key))
  unfolding shard_of
  told-prepare (prepare shard k value owner) a e = (ground arith, ground (arith, eq_of_equal k key))
  told-prepare (commit shard k owner ts) a e = absurd e
  told-prepare (abort shard k owner) a e = absurd e
  told-prepare (oneshot shard intents owner ts) a e = absurd e

  told-commit :
      (ts : ℕ) (m : Message) (a : Abstract)
      → IsCommit txn_id ts m
      → ((t : ℕ)
          → (told addr m a).at key t ≡ (
              if concerns addr key m && ts == t
              then or_else (owns txn_id (a.held key)) (a.at key t)
              else a.at key t))
        × ((told addr m a).held key
            ≡ (if concerns addr key m then unlock txn_id (a.held key) else a.held key))
  unfolding shard_of
  told-commit ts (prepare shard k value owner) a e = absurd e
  told-commit ts (commit shard k owner at) a e =
      let here : bytes_equal k key ≡ true → k ≡ key = eq_of_equal k key in
      elim (Option-cases (a.held k)) [
        | inl free ↦ (
          λ t. ground (arith, here, ap (λ (j : Bytes). a.held j)),
          ground (arith, here, ap (λ (j : Bytes). a.held j)),
        )
        | inr (lock, held) ↦ (
          λ t. ground (arith, here, e.0, e.1, ap (λ (j : Bytes). a.held j)),
          ground (arith, here, e.0, e.1, ap (λ (j : Bytes). a.held j)),
        )
      ]
  told-commit ts (abort shard k owner) a e = absurd e
  told-commit ts (oneshot shard intents owner at) a e = absurd e

  told-abort :
      (m : Message) (a : Abstract)
      → IsAbort txn_id m
      → ((told addr m a).at ≡ a.at)
        × ((told addr m a).held key
            ≡ (if concerns addr key m then unlock txn_id (a.held key) else a.held key))
  unfolding shard_of
  told-abort (prepare shard k value owner) a e = absurd e
  told-abort (commit shard k owner ts) a e = absurd e
  told-abort (abort shard k owner) a e =
      let here : bytes_equal k key ≡ true → k ≡ key = eq_of_equal k key in
      elim (Option-cases (a.held k)) [
        | inl free ↦ (ground arith, ground (arith, here, ap (λ (j : Bytes). a.held j)))
        | inr (lock, held) ↦ (ground arith, ground (arith, here, e, ap (λ (j : Bytes). a.held j)))
      ]
  told-abort (oneshot shard intents owner at) a e = absurd e

  relock_twice :
      (later first : Option Bytes) (l : Option Lock)
      → relock txn_id later (relock txn_id first l) ≡ relock txn_id (or_else later first) l
  relock_twice none first l = refl
  relock_twice (some v) none l = refl
  relock_twice (some v) (some u) l = ground (arith, equal_refl txn_id)

  pub told_all-prepares :
      (ms : List Message) (a : Abstract)
      → All (IsPrepare txn_id) ms
      → ((told_all addr ms a).at ≡ a.at)
        × ((told_all addr ms a).held key ≡ relock txn_id (last_prepared addr key ms) (a.held key))
  told_all-prepares [] a h = (refl, refl)
  told_all-prepares (m ∷ ms) a h =
      let first = told-prepare m a h.0 in
      let rest = told_all-prepares ms (told addr m a) h.1 in
      (
        rest.0 ∙ first.0,
        rest.1
            ∙ ap (relock txn_id (last_prepared addr key ms)) first.1
            ∙ relock_twice (last_prepared addr key ms)
                (if concerns addr key m then some (value_in m) else none) (a.held key),
      )

  unlocked_twice :
      (l : Option Lock)
      → (unlock txn_id (unlock txn_id l) ≡ unlock txn_id l) × (owns txn_id (unlock txn_id l) ≡ none)
  unlocked_twice none = (refl, refl)
  unlocked_twice (some l) = (ground arith, ground arith)

  pub told_all-commits :
      (ts : ℕ) (ms : List Message) (a : Abstract)
      → All (IsCommit txn_id ts) ms
      → ((t : ℕ)
          → (told_all addr ms a).at key t ≡ (
              if named addr key ms && ts == t
              then or_else (owns txn_id (a.held key)) (a.at key t)
              else a.at key t))
        × ((told_all addr ms a).held key
            ≡ (if named addr key ms then unlock txn_id (a.held key) else a.held key))
  told_all-commits ts [] a h = (λ t. refl, refl)
  told_all-commits ts (m ∷ ms) a h =
      let first = told-commit ts m a h.0 in
      let rest = told_all-commits ts ms (told addr m a) h.1 in
      let twice = unlocked_twice (a.held key) in
      (
        λ t. ground (arith, first.0 t, first.1, rest.0 t, twice),
        ground (arith, first.1, rest.1, twice),
      )

  pub told_all-aborts :
      (ms : List Message) (a : Abstract)
      → All (IsAbort txn_id) ms
      → ((told_all addr ms a).at ≡ a.at)
        × ((told_all addr ms a).held key
            ≡ (if named addr key ms then unlock txn_id (a.held key) else a.held key))
  told_all-aborts [] a h = (refl, refl)
  told_all-aborts (m ∷ ms) a h =
      let first = told-abort m a h.0 in
      let rest = told_all-aborts ms (told addr m a) h.1 in
      (rest.0 ∙ first.0, ground (arith, first.1, rest.1, unlocked_twice (a.held key)))

pub told_all-append :
    (addr : Bytes) (ms ns : List Message) (a : Abstract)
    → told_all addr (ms ++ ns) a ≡ told_all addr ns (told_all addr ms a)
told_all-append addr [] ns a = refl
told_all-append addr (m ∷ ms) ns a = told_all-append addr ms ns (told addr m a)
