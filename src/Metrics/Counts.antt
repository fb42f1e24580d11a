-- ===== src/Metrics/Counts.antt =====
-- The value of a counter after a sequence of calls.
use shard_db.Base.{ℕ, ◌+◌, ◌%◌, ◌^◌, ◌<◌, ◌≡◌, List, [], ◌∷◌, arith, if◌then◌else◌}
use shard_db.Bytes.{Bytes, bytes_equal}
use shard_db.Bytes.Order.{eq_of_equal}
use shard_db.Dict
use shard_db.Metrics.{Registry, load, add, get_counter}

-- A call of Add with its arguments.
abbrev pub AddCall : Type 0
AddCall = Bytes × ℕ

abbrev pub add_all : List AddCall → Registry → Registry
add_all [] r = r
add_all ((name, delta) ∷ calls) r = add_all calls (add name delta r)

-- The sum of what the calls add to the counter.
abbrev pub total : Bytes → List AddCall → ℕ
total name [] = 0
total name ((j, delta) ∷ calls) =
    let rest = total name calls in if bytes_equal j name then delta + rest else rest

get-add :
    (name j : Bytes) (delta : ℕ) (r : Registry)
    → get_counter name (add j delta r)
      ≡ (if bytes_equal j name then (get_counter name r + delta) % 2 ^ 64 else get_counter name r)
unfolding get_counter add load
get-add name j delta r =
    ground (arith, Dict.get-put j name ((load j r + delta) % 2 ^ 64) r, eq_of_equal j name)

-- After any sequence of Add calls on any counters, Get returns what the counter was plus the sum of
-- what was added to it, with the wrap-around of an int64; calls on other counters do not matter.
pub get_counter-add_all :
    (name : Bytes) (calls : List AddCall) (r : Registry)
    → get_counter name r < 2 ^ 64
    → get_counter name (add_all calls r) ≡ (get_counter name r + total name calls) % 2 ^ 64
get_counter-add_all name [] r h = omega arith
get_counter-add_all name ((j, delta) ∷ calls) r h =
    let step = get-add name j delta r in
    let next = get_counter-add_all name calls (add j delta r) (ground arith) in ground arith
