-- ===== src/Strings.antt =====
-- What the program uses of Go's package strings, on byte strings.
pub mod Split
pub mod Suffix
use shard_db.Base.{
  ℕ, ◌-◌, leb, ◌||◌, Bool, true, false, Option, none, some, List, [], ◌∷◌, ◌++◌, ◌==◌, ◌&&◌,
  if◌then◌else◌, length, drop,
}
use shard_db.Bytes.{Bytes, bytes_equal}

-- strings.HasPrefix
unfoldable pub has_prefix : Bytes → Bytes → Bool
has_prefix s [] = true
has_prefix [] (p ∷ ps) = false
has_prefix (c ∷ cs) (p ∷ ps) = c == p && has_prefix cs ps

-- strings.TrimPrefix
unfoldable pub trim_prefix : Bytes → Bytes → Bytes
unfolding has_prefix
trim_prefix s prefix = if has_prefix s prefix then drop (length prefix) s else s

abbrev pub cons_first : ℕ → List Bytes → List Bytes
cons_first c [] = (c ∷ []) ∷ []
cons_first c (f ∷ fs) = (c ∷ f) ∷ fs

-- strings.Split at a separator of one byte
unfoldable pub split : Bytes → ℕ → List Bytes
split [] sep = [] ∷ []
split (c ∷ cs) sep = let rest = split cs sep in if c == sep then [] ∷ rest else cons_first c rest

-- strings.SplitN with n = 2, at a separator of one byte
unfoldable pub split_two : Bytes → ℕ → List Bytes
split_two [] sep = [] ∷ []
split_two (c ∷ cs) sep =
    let rest = split_two cs sep in if c == sep then [] ∷ cs ∷ [] else cons_first c rest

-- strings.Join
unfoldable pub join : List Bytes → Bytes → Bytes
join [] sep = []
join (e ∷ []) sep = e
join (e ∷ (f ∷ es)) sep = e ++ (sep ++ join (f ∷ es) sep)

-- strings.ToUpper
unfoldable pub to_upper : Bytes → Bytes
to_upper [] = []
to_upper (c ∷ cs) = (if leb b'a' c && leb c b'z' then c - 32 else c) ∷ to_upper cs

abbrev pub is_space : ℕ → Bool
is_space c = c == b' ' || leb 9 c && leb c 13

unfoldable pub trim_left : Bytes → Bytes
trim_left [] = []
trim_left (c ∷ cs) = let rest = trim_left cs in if is_space c then rest else c ∷ cs

unfoldable pub trim_right : Bytes → Bytes
trim_right [] = []
trim_right (c ∷ cs) = elim (trim_right cs) [
  | [] ↦ if is_space c then [] else c ∷ []
  | d ∷ ds ↦ c ∷ d ∷ ds
]

-- strings.TrimSpace
unfoldable pub trim_space : Bytes → Bytes
unfolding trim_left trim_right
trim_space s = trim_right (trim_left s)

-- strings.HasSuffix
unfoldable pub has_suffix : Bytes → Bytes → Bool
has_suffix s suffix =
    leb (length suffix) (length s) && bytes_equal (drop (length s - length suffix) s) suffix
