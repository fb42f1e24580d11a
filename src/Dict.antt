-- ===== src/Dict.antt =====
-- Go's `map[string]V` as an association list, each key once. The order of the pairs stands for the
-- order of a `range`, which Go leaves open.
use shard_db.Base.{◌≡◌, refl, false, Option, none, some, List, [], ◌∷◌, arith, if◌then◌else◌}
use shard_db.Bytes.{Bytes, bytes_equal}
use shard_db.Bytes.Order.{equal_refl, eq_of_equal, equal_sym}

abbrev pub Dict {ℓ} : Type ℓ → Type ℓ
Dict V = List (Bytes × V)

module _ {ℓ} {V : Type ℓ} where
  -- `m[k]` with its `ok`
  unfoldable pub get : Bytes → Dict V → Option V
  get k [] = none
  get k ((j, v) ∷ m) = if bytes_equal j k then some v else get k m

  -- `m[k] = v`
  unfoldable pub put : Bytes → V → Dict V → Dict V
  put k v [] = (k, v) ∷ []
  put k v ((j, w) ∷ m) = if bytes_equal j k then (k, v) ∷ m else (j, w) ∷ put k v m

  -- `delete(m, k)`
  unfoldable pub remove : Bytes → Dict V → Dict V
  remove k [] = []
  remove k ((j, w) ∷ m) = let rest = remove k m in if bytes_equal j k then rest else (j, w) ∷ rest

  pub get-put :
      (k j : Bytes) (v : V) (m : Dict V)
      → get j (put k v m) ≡ (if bytes_equal k j then some v else get j m)
  unfolding get put
  get-put k j v [] = refl
  get-put k j v ((i, w) ∷ m) =
      ground
        (arith, get-put k j v m, eq_of_equal i k, eq_of_equal k j, eq_of_equal i j, equal_refl j)

  pub get-remove :
      (k j : Bytes) (m : Dict V) → get j (remove k m) ≡ (if bytes_equal k j then none else get j m)
  unfolding get remove
  get-remove k j [] = ground arith
  get-remove k j ((i, w) ∷ m) =
      ground
        (arith, get-remove k j m, eq_of_equal i k, eq_of_equal k j, eq_of_equal i j, equal_refl j)

  -- The map has no such key.
  abbrev pub IsAbsent : Bytes → Dict V → Type 0
  IsAbsent key [] = Unit
  IsAbsent key ((k, v) ∷ m) = (bytes_equal k key ≡ false) × IsAbsent key m

  -- Each key once.
  abbrev pub IsOnce : Dict V → Type 0
  IsOnce [] = Unit
  IsOnce ((k, v) ∷ m) = IsAbsent k m × IsOnce m

  put-IsAbsent :
      (key k : Bytes) (v : V) (m : Dict V)
      → bytes_equal k key ≡ false
      → IsAbsent key m
      → IsAbsent key (put k v m)
  unfolding put
  put-IsAbsent key k v [] f h = (f, tt)
  put-IsAbsent key k v ((j, w) ∷ m) f h = ground (arith, put-IsAbsent key k v m f h.1)

  pub put-IsOnce : (k : Bytes) (v : V) (m : Dict V) → IsOnce m → IsOnce (put k v m)
  unfolding put
  put-IsOnce k v [] h = (tt, tt)
  put-IsOnce k v ((j, w) ∷ m) h =
      ground (arith, put-IsOnce k v m h.1, put-IsAbsent j k v m, equal_sym j k, eq_of_equal j k)

  pub get-IsAbsent : (key : Bytes) (m : Dict V) → IsAbsent key m → get key m ≡ none
  unfolding get
  get-IsAbsent key [] h = refl
  get-IsAbsent key ((k, v) ∷ m) h = ground (arith, get-IsAbsent key m h.1)
