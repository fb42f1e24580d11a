-- ===== src/Bytes/Order.antt =====
-- `bytes_compare` is a total order, and the tests follow it.
use shard_db.Base.{Ordering, ◌≡◌, refl, true, [], ◌∷◌, ◌++◌, arith}
use shard_db.Bytes.{Bytes, bytes_compare, bytes_equal}

pub compare_refl : (a : Bytes) → bytes_compare a a ≡ Ordering.eq
unfolding bytes_compare
compare_refl [] = refl
compare_refl (x ∷ xs) = ground (arith, compare_refl xs)

pub eq_of_compare : (a b : Bytes) → bytes_compare a b ≡ Ordering.eq → a ≡ b
unfolding bytes_compare
eq_of_compare [] [] h = refl
eq_of_compare [] (y ∷ ys) h = cc
eq_of_compare (x ∷ xs) [] h = cc
eq_of_compare (x ∷ xs) (y ∷ ys) h = ground (arith, eq_of_compare xs ys)

pub lt_of_gt : (a b : Bytes) → bytes_compare a b ≡ Ordering.gt → bytes_compare b a ≡ Ordering.lt
unfolding bytes_compare
lt_of_gt [] [] h = cc
lt_of_gt [] (y ∷ ys) h = cc
lt_of_gt (x ∷ xs) [] h = refl
lt_of_gt (x ∷ xs) (y ∷ ys) h = ground (arith, lt_of_gt xs ys)

pub gt_of_lt : (a b : Bytes) → bytes_compare a b ≡ Ordering.lt → bytes_compare b a ≡ Ordering.gt
unfolding bytes_compare
gt_of_lt [] [] h = cc
gt_of_lt [] (y ∷ ys) h = refl
gt_of_lt (x ∷ xs) [] h = cc
gt_of_lt (x ∷ xs) (y ∷ ys) h = ground (arith, gt_of_lt xs ys)

pub compare_trans :
    (a b c : Bytes)
    → bytes_compare a b ≡ Ordering.lt
    → bytes_compare b c ≡ Ordering.lt
    → bytes_compare a c ≡ Ordering.lt
unfolding bytes_compare
compare_trans [] [] c h k = cc
compare_trans (x ∷ xs) [] c h k = cc
compare_trans a (y ∷ ys) [] h k = cc
compare_trans [] (y ∷ ys) (z ∷ zs) h k = refl
compare_trans (x ∷ xs) (y ∷ ys) (z ∷ zs) h k = ground (arith, compare_trans xs ys zs)

pub compare-append_left : (p a b : Bytes) → bytes_compare (p ++ a) (p ++ b) ≡ bytes_compare a b
unfolding bytes_compare
compare-append_left [] a b = refl
compare-append_left (x ∷ p) a b = ground (arith, compare-append_left p a b)

pub equal_refl : (a : Bytes) → bytes_equal a a ≡ true
unfolding bytes_equal
equal_refl a = ground (arith, compare_refl a)

pub eq_of_equal : (a b : Bytes) → bytes_equal a b ≡ true → a ≡ b
unfolding bytes_equal
eq_of_equal a b h = ground (arith, eq_of_compare a b)

pub equal_sym : (a b : Bytes) → bytes_equal a b ≡ bytes_equal b a
unfolding bytes_equal
equal_sym a b =
    ground (arith, eq_of_compare a b, eq_of_compare b a, compare_refl a, gt_of_lt a b, lt_of_gt a b)
