-- ===== src/Bytes.antt =====
-- Go's `[]byte` and `string`: byte sequences, with `bytes.Compare` (the order of `<` on strings too),
-- `bytes.Equal` and the big-endian codecs of encoding/binary.
pub mod Order
pub mod Diverge
pub mod Endian
use Prim.Native.Char.{code}
use Prim.Native.String.{String}
use shard_db.Base.{
  ℕ, zero, suc, ◌+◌, ◌*◌, ◌/◌, ◌%◌, ◌^◌, ◌<◌, compare, Ordering, Bool, true, false, List, [], ◌∷◌,
  All,
}

abbrev pub Bytes : Type 0
Bytes = List ℕ

abbrev pub IsBytes : Bytes → Type 0
IsBytes b = All (λ x. x < 256) b

abbrev pub then : Ordering → Ordering → Ordering
then Ordering.eq second = second
then first _ = first

-- bytes.Compare
unfoldable pub bytes_compare : Bytes → Bytes → Ordering
bytes_compare [] [] = Ordering.eq
bytes_compare [] (y ∷ ys) = Ordering.lt
bytes_compare (x ∷ xs) [] = Ordering.gt
bytes_compare (x ∷ xs) (y ∷ ys) = then (compare x y) (bytes_compare xs ys)

-- bytes.Equal, and `==` on strings
unfoldable pub bytes_equal : Bytes → Bytes → Bool
unfolding bytes_compare
bytes_equal a b = elim (bytes_compare a b) [ Ordering.eq ↦ true | _ ↦ false ]

-- `a < b` on strings, and `bytes.Compare(a, b) < 0`
unfoldable pub bytes_ltb : Bytes → Bytes → Bool
unfolding bytes_compare
bytes_ltb a b = elim (bytes_compare a b) [ Ordering.lt ↦ true | _ ↦ false ]

-- binary.BigEndian.PutUint64 and PutUint32, at 8 and 4 bytes: `byte(v >> (8 * w))` first.
unfoldable pub put_uint : ℕ → ℕ → Bytes
put_uint zero n = []
put_uint (suc w) n = (n / 256 ^ w % 256) ∷ put_uint w n

-- binary.BigEndian.Uint64 and Uint32
unfoldable pub uint_from : ℕ → Bytes → ℕ
uint_from acc [] = acc
uint_from acc (b ∷ bs) = uint_from (acc * 256 + b) bs

-- The bytes of an ASCII literal of the source.
abbrev pub codes : String → Bytes
codes String.[] = []
codes (String.◌∷◌ c s) = code c ∷ codes s
