-- ===== src/Decimal.antt =====
-- `%d` of Go's fmt, for the numbers that the program prints, and the number that Sscanf reads.
use shard_db.Base.{
  ℕ, true, All, zero, suc, ◌+◌, ◌-◌, ◌*◌, ◌/◌, ◌%◌, ◌≡◌, refl, [], ◌∷◌, ltb, leb, ◌&&◌, ◌<◌, ◌^◌,
  ◌==◌, Bool-cases, inl, inr, ◌∙◌, ap, if◌then◌else◌, arith,
}
use shard_db.Bytes.{Bytes, codes}

-- The digits, the last one first; the fuel bounds their number.
digits_loop : ℕ → ℕ → Bytes → Bytes
digits_loop zero n acc = acc
digits_loop (suc fuel) n acc =
    let acc' = (n % 10 + b'0') ∷ acc in
    let rest = digits_loop fuel (n / 10) acc' in if ltb n 10 then acc' else rest

-- A number has at most one digit more than itself.
unfoldable pub format_decimal : ℕ → Bytes
unfolding digits_loop
format_decimal n = digits_loop (suc n) n []

-- the digits at the start of the input
unfoldable pub number_from : ℕ → Bytes → ℕ
number_from acc [] = acc
number_from acc (c ∷ cs) =
    let rest = number_from (acc * 10 + (c - b'0')) cs in
    if leb b'0' c && leb c b'9' then rest else acc

-- the spaces of ASCII in front of a number, without the newline, which Sscanf does not skip
unfoldable pub skip_space : Bytes → Bytes
skip_space [] = []
skip_space (c ∷ cs) =
    let rest = skip_space cs in
    if c == b' '
    then rest
    else if c == 9
    then rest
    else if c == 11
    then rest
    else if c == 12
    then rest
    else if c == 13
    then rest
    else c ∷ cs

-- the number that `%d` scans, without a sign; 0 stays in the variable where it is no uint64
unfoldable pub scan_number : Bytes → ℕ
scan_number b = let n = number_from 0 b in if ltb n (2 ^ 64) then n else 0

-- Sscanf with "%d" into a uint64 that is 0; input without a digit leaves the 0, which is the number
-- of no digits too.
unfoldable pub scan_uint64 : Bytes → ℕ
unfolding number_from skip_space scan_number
scan_uint64 b = scan_number (skip_space b)

digits_loop-number :
    (fuel n : ℕ) (acc : Bytes)
    → n < fuel
    → number_from 0 (digits_loop fuel n acc) ≡ number_from n acc
unfolding digits_loop number_from
digits_loop-number zero n acc h = ground arith
digits_loop-number (suc fuel) n acc h = elim (Bool-cases (ltb n 10)) [
  | inl small ↦ ground arith
  | inr large ↦
      let next = digits_loop-number fuel (n / 10) ((n % 10 + b'0') ∷ acc) (ground arith) in
      ground arith
]

scan_digits : (n : ℕ) → number_from 0 (format_decimal n) ≡ n
unfolding format_decimal number_from
scan_digits n = digits_loop-number (suc n) n [] (omega arith)

abbrev pub IsDigit : ℕ → Type 0
IsDigit c = (leb b'0' c && leb c b'9') ≡ true

digits_loop-IsDigit :
    (fuel n : ℕ) (acc : Bytes) → All IsDigit acc → All IsDigit (digits_loop fuel n acc)
unfolding digits_loop
digits_loop-IsDigit zero n acc h = h
digits_loop-IsDigit (suc fuel) n acc h =
    let digit : IsDigit (n % 10 + b'0') = ground arith in
    let next = digits_loop-IsDigit fuel (n / 10) ((n % 10 + b'0') ∷ acc) (digit, h) in ground arith

pub format_decimal-IsDigit : (n : ℕ) → All IsDigit (format_decimal n)
unfolding format_decimal
format_decimal-IsDigit n = digits_loop-IsDigit (suc n) n [] tt

skip_space-digits : (b : Bytes) → All IsDigit b → skip_space b ≡ b
unfolding skip_space
skip_space-digits [] h = refl
skip_space-digits (c ∷ cs) h = ground (arith, h.0)

-- What `%d` prints, `%d` scans.
pub scan_uint64-format_decimal : (n : ℕ) → n < 2 ^ 64 → scan_uint64 (format_decimal n) ≡ n
unfolding scan_uint64
scan_uint64-format_decimal n h =
    ap scan_number (skip_space-digits (format_decimal n) (format_decimal-IsDigit n))
    ∙ ground (arith, scan_digits n)

format_test : format_decimal 1700 ≡ codes "1700"
unfolding format_decimal
format_test = refl

pub scan_uint64-lt : (b : Bytes) → scan_uint64 b < 2 ^ 64
unfolding scan_uint64 scan_number
scan_uint64-lt b = ground arith
