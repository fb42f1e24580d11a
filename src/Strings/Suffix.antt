-- ===== src/Strings/Suffix.antt =====
-- HasSuffix: the strings that end with another.
use shard_db.Base.{
  ◌≡◌, sym, ap, ◌∙◌, true, ◌++◌, ◌-◌, arith, length, take, drop, length-append, drop-append,
  take-append-drop,
}
use shard_db.Bytes.{Bytes}
use shard_db.Bytes.Order.{equal_refl, eq_of_equal}
use shard_db.Strings.{has_suffix}

pub has_suffix-append : (base s : Bytes) → has_suffix (base ++ s) s ≡ true
unfolding has_suffix
has_suffix-append base s =
    let size = length-append base s in
    let cut : drop (length (base ++ s) - length s) (base ++ s) ≡ s =
      ap (λ n. drop n (base ++ s)) (omega (arith, size)) ∙ drop-append base s in
    ground (arith, size, cut, equal_refl s)

pub append_of_suffix : (b s : Bytes) → has_suffix b s ≡ true → (base : Bytes) × (b ≡ base ++ s)
unfolding has_suffix
append_of_suffix b s h =
    let n = length b - length s in
    let same : drop n b ≡ s = eq_of_equal (drop n b) s (ground arith) in
    (take n b, sym (take-append-drop n b) ∙ ap (λ x. take n b ++ x) same)
