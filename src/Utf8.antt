-- ===== src/Utf8.antt =====
-- The strings that encoding/json writes: each byte that is not part of a valid UTF-8 sequence is
-- replaced by U+FFFD, so this is what a string is after it has been encoded and decoded.
use shard_db.Base.{
  ℕ, zero, suc, ◌≡◌, refl, Bool, true, false, Option, none, some, [], ◌∷◌, ◌++◌, ◌==◌, ◌&&◌, leb,
  length, if◌then◌else◌, All, All-append, arith,
}
use shard_db.Bytes.{Bytes}

-- The first byte's number of continuation bytes, and the bounds of the first of them.
unfoldable pub shape : ℕ → Option (ℕ × ℕ × ℕ)
shape b =
    if leb b 0x7f
    then some (0, 0x80, 0xbf)
    else if leb b 0xc1
    then none
    else if leb b 0xdf
    then some (1, 0x80, 0xbf)
    else if b == 0xe0
    then some (2, 0xa0, 0xbf)
    else if b == 0xed
    then some (2, 0x80, 0x9f)
    else if leb b 0xef
    then some (2, 0x80, 0xbf)
    else if b == 0xf0
    then some (3, 0x90, 0xbf)
    else if leb b 0xf3
    then some (3, 0x80, 0xbf)
    else if b == 0xf4
    then some (3, 0x80, 0x8f)
    else none

-- a byte in front of the sequence that was split off
abbrev pub add_byte : ℕ → Option (Bytes × Bytes) → Option (Bytes × Bytes)
add_byte b none = none
add_byte b (some (c, tail)) = some (b ∷ c, tail)

-- The continuation bytes, and what is behind them.
unfoldable pub continuation : ℕ → ℕ → ℕ → Bytes → Option (Bytes × Bytes)
continuation zero lo hi bs = some ([], bs)
continuation (suc n) lo hi [] = none
continuation (suc n) lo hi (b ∷ bs) =
    let rest = continuation n 0x80 0xbf bs in if leb lo b && leb b hi then add_byte b rest else none

abbrev pub replacement : Bytes
replacement = 0xef ∷ 0xbf ∷ 0xbd ∷ []

-- the sequence, if there is one, or the replacement of one byte
unfoldable pub rune_of : ℕ → Bytes → Option (Bytes × Bytes) → Bytes × Bytes
rune_of b bs none = (replacement, bs)
rune_of b bs (some (c, tail)) = (b ∷ c, tail)

-- the same for what the first byte says
unfoldable pub rune_by : ℕ → Bytes → Option (ℕ × ℕ × ℕ) → Bytes × Bytes
unfolding continuation rune_of
rune_by b bs none = (replacement, bs)
rune_by b bs (some (n, lo, hi)) = rune_of b bs (continuation n lo hi bs)

-- The sequence at the start, with what is behind it.
unfoldable pub next_rune : ℕ → Bytes → Bytes × Bytes
unfolding shape rune_by
next_rune b bs = rune_by b bs (shape b)

unfoldable pub sanitize_loop : ℕ → Bytes → Bytes
sanitize_loop zero bs = []
sanitize_loop (suc fuel) [] = []
sanitize_loop (suc fuel) (b ∷ bs) =
    let (rune, tail) = next_rune b bs in rune ++ sanitize_loop fuel tail

-- Every round takes a byte at least.
unfoldable pub sanitize : Bytes → Bytes
sanitize bs = sanitize_loop (length bs) bs

sanitize_test :
    sanitize (0x41 ∷ 0xff ∷ 0xc3 ∷ 0xa9 ∷ 0xe2 ∷ [])
    ≡ 0x41 ∷ (replacement ++ 0xc3 ∷ 0xa9 ∷ replacement)
unfolding sanitize sanitize_loop next_rune shape continuation rune_of rune_by
sanitize_test = refl

-- No byte is 255.
abbrev pub IsText : Bytes → Type 0
IsText bs = All (λ b. (b == 255) ≡ false) bs

abbrev IsTextSplit : Option (Bytes × Bytes) → Type 0
IsTextSplit none = Unit
IsTextSplit (some (c, tail)) = IsText c

add_byte-IsTextSplit :
    (b : ℕ) (o : Option (Bytes × Bytes))
    → (b == 255) ≡ false
    → IsTextSplit o
    → IsTextSplit (add_byte b o)
add_byte-IsTextSplit b none h k = tt
add_byte-IsTextSplit b (some (c, tail)) h k = (h, k)

continuation-IsTextSplit :
    (n lo hi : ℕ) (bs : Bytes) → leb hi 0xbf ≡ true → IsTextSplit (continuation n lo hi bs)
unfolding continuation
continuation-IsTextSplit zero lo hi bs small = tt
continuation-IsTextSplit (suc n) lo hi [] small = tt
continuation-IsTextSplit (suc n) lo hi (b ∷ bs) small =
    let o = continuation n 0x80 0xbf bs in
    let go : (x : Bool)
        → (leb lo b && leb b hi) ≡ x
        → IsTextSplit (if x then add_byte b o else none) =
      λ x.
        elim x
          as (λ x. (leb lo b && leb b hi) ≡ x → IsTextSplit (if x then add_byte b o else none)) [
            | true ↦ λ e.
                add_byte-IsTextSplit b o (ground arith)
                  (continuation-IsTextSplit n 0x80 0xbf bs refl)
            | false ↦ λ e. tt
          ] in
    go (leb lo b && leb b hi) refl

-- A byte that starts a sequence, and the bound of those that follow.
shape-below : (b n lo hi : ℕ) → shape b ≡ some (n, lo, hi) → (b == 255) ≡ false
unfolding shape
shape-below b n lo hi h = ground arith

shape-hi : (b n lo hi : ℕ) → shape b ≡ some (n, lo, hi) → leb hi 0xbf ≡ true
unfolding shape
shape-hi b n lo hi h = ground arith

replacement-IsText : IsText replacement
replacement-IsText = (refl, (refl, (refl, tt)))

rune_of-IsText :
    (b : ℕ) (bs : Bytes) (o : Option (Bytes × Bytes))
    → (b == 255) ≡ false
    → IsTextSplit o
    → IsText (rune_of b bs o).0
unfolding rune_of
rune_of-IsText b bs none h k = replacement-IsText
rune_of-IsText b bs (some (c, tail)) h k = (h, k)

rune_by-IsText :
    (b : ℕ) (bs : Bytes) (o : Option (ℕ × ℕ × ℕ)) → shape b ≡ o → IsText (rune_by b bs o).0
unfolding rune_by
rune_by-IsText b bs none e = replacement-IsText
rune_by-IsText b bs (some (n, lo, hi)) e =
    rune_of-IsText b bs (continuation n lo hi bs) (shape-below b n lo hi e)
      (continuation-IsTextSplit n lo hi bs (shape-hi b n lo hi e))

next_rune-IsText : (b : ℕ) (bs : Bytes) → IsText (next_rune b bs).0
unfolding next_rune
next_rune-IsText b bs = rune_by-IsText b bs (shape b) refl

sanitize_loop-IsText : (fuel : ℕ) (bs : Bytes) → IsText (sanitize_loop fuel bs)
unfolding sanitize_loop
sanitize_loop-IsText zero bs = tt
sanitize_loop-IsText (suc fuel) [] = tt
sanitize_loop-IsText (suc fuel) (b ∷ bs) =
    All-append (λ c. (c == 255) ≡ false) (next_rune b bs).0 (sanitize_loop fuel (next_rune b bs).1)
      (next_rune-IsText b bs) (sanitize_loop-IsText fuel (next_rune b bs).1)

pub sanitize-IsText : (bs : Bytes) → IsText (sanitize bs)
unfolding sanitize
sanitize-IsText bs = sanitize_loop-IsText (length bs) bs
