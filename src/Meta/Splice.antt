-- ===== src/Meta/Splice.antt =====
-- The insertion of SPLIT_RANGE replaces one range by two, whatever stands around it.
use shard_db.Base.{suc, ◌+◌, ◌≡◌, refl, ap, List, [], ◌∷◌, ◌++◌, length, arith}
use shard_db.Meta.{Range, copy, replace_by_two}

-- Shifting a list by one place to the right, into the room that an append has made.
copy_shift :
    (xs : List Range) (x room : Range) → copy (xs ++ room ∷ []) 0 (x ∷ xs ++ room ∷ []) ≡ x ∷ xs
unfolding copy
copy_shift [] x room = refl
copy_shift (q ∷ xs) x room = ap (λ t. x ∷ t) (copy_shift xs q room)

splice_front :
    (target r1 r2 : Range) (rest : List Range)
    → replace_by_two (target ∷ rest) 0 r1 r2 ≡ r1 ∷ r2 ∷ rest
unfolding replace_by_two
splice_front target r1 r2 [] = refl
splice_front target r1 r2 (x ∷ rest) = ap (λ t. r1 ∷ r2 ∷ t) (copy_shift rest x _)

pub replace_by_two_lem :
    (before : List Range) (target r1 r2 : Range) (rest : List Range)
    → replace_by_two (before ++ target ∷ rest) (length before) r1 r2 ≡ before ++ r1 ∷ r2 ∷ rest
unfolding replace_by_two
replace_by_two_lem [] target r1 r2 rest = splice_front target r1 r2 rest
replace_by_two_lem (b ∷ before) target r1 r2 rest =
    let n = length before in
    let one : suc n + 1 ≡ suc (n + 1) = omega arith in
    let two : suc n + 2 ≡ suc (n + 2) = omega arith in
    rw (one, two) (ap (λ t. b ∷ t) (replace_by_two_lem before target r1 r2 rest))
