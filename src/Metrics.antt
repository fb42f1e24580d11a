-- ===== src/Metrics.antt =====
-- internal/metrics/metrics.go: the counters of a program. An int64 is its two's complement, a number
-- below 2 ^ 64. The atomic operations make each call one step.
pub mod Counts
mod Tests
use shard_db.Base.{ℕ, ◌+◌, ◌%◌, ◌^◌, Option, none, some, List, [], ◌∷◌}
use shard_db.Bytes.{Bytes}
use shard_db.Dict
use shard_db.Dict.{Dict}

-- the registry
abbrev pub Registry : Type 0
Registry = Dict ℕ

-- registry.Load, or a new counter at 0
unfoldable pub load : Bytes → Registry → ℕ
load name registry = elim (Dict.get name registry) [ none ↦ 0 | some val ↦ val ]

-- Add
unfoldable pub add : Bytes → ℕ → Registry → Registry
add name delta registry = Dict.put name ((load name registry + delta) % 2 ^ 64) registry

-- Inc
unfoldable pub inc : Bytes → Registry → Registry
unfolding add
inc name registry = add name 1 registry

-- Get
unfoldable pub get_counter : Bytes → Registry → ℕ
get_counter name registry = elim (Dict.get name registry) [ none ↦ 0 | some val ↦ val ]

-- Handler: the map that is written as JSON
unfoldable pub snapshot_counters : Registry → Dict ℕ
snapshot_counters [] = []
snapshot_counters ((name, val) ∷ rest) = Dict.put name val (snapshot_counters rest)
