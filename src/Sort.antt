-- ===== src/Sort.antt =====
-- sort.Search of Go's standard library, which internal/meta/store.go calls: the smallest index at
-- which the test holds, if the test is monotone.
pub mod Laws
use shard_db.Base.{
  ℕ, zero, suc, ◌+◌, ◌/◌, Bool, true, false, not, ltb, Option, none, some, if◌then◌else◌,
}

-- `for i < j { h := (i + j) / 2; if !f(h) { i = h + 1 } else { j = h } }`. The fuel is the width of
-- the interval at the start, which every round makes smaller.
unfoldable pub search_loop : ℕ → (ℕ → Bool) → ℕ → ℕ → ℕ
search_loop zero f i j = i
search_loop (suc fuel) f i j =
    let h = (i + j) / 2 in
    let right = search_loop fuel f (h + 1) j in
    let left = search_loop fuel f i h in if ltb i j then (if not (f h) then right else left) else i

unfoldable pub search : ℕ → (ℕ → Bool) → ℕ
unfolding search_loop
search n f = search_loop n f 0 n

-- A test of the element that a callback reads at its index.
abbrev pub test {ℓ} : {A : Type ℓ} → (A → Bool) → Option A → Bool
test p none = false
test p (some a) = p a
