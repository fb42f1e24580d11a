-- ===== src/Bytes/Endian.antt =====
-- The big-endian codecs invert each other, and byte order is number order.
use native.Mathlib.Nat.{pow-zero, pow-suc, div-div-eq-div-mul, div-add-mod', mod-lt}
use shard_db.Base.{
  ℕ, zero, suc, ◌+◌, ◌*◌, ◌/◌, ◌%◌, ◌^◌, ◌<◌, ◌≤◌, ◌≡◌, refl, compare, length, arith, ap, sym,
}
use shard_db.Bytes.{IsBytes, bytes_compare, put_uint, uint_from, then}

pub length-put_uint : (w n : ℕ) → length (put_uint w n) ≡ w
unfolding put_uint
length-put_uint zero n = refl
length-put_uint (suc w) n = omega (arith, length-put_uint w n)

pub put_uint-IsBytes : (w n : ℕ) → IsBytes (put_uint w n)
unfolding put_uint
put_uint-IsBytes zero n = tt
put_uint-IsBytes (suc w) n = (omega arith, put_uint-IsBytes w n)

pow_pos : (w : ℕ) → 0 < 256 ^ w
pow_pos zero = rw pow-zero (omega arith)
pow_pos (suc w) = rw pow-suc (omega (arith, pow_pos w))

top_digit : (b n : ℕ) → 0 < b → n % (b * 256) ≡ n / b % 256 * b + n % b
top_digit b n h = omega (
  arith,
  div-add-mod' n b,
  div-add-mod' n (b * 256),
  ap (λ (t : ℕ). t * b) (div-add-mod' (n / b) 256),
  ap (λ (t : ℕ). t * (b * 256)) (div-div-eq-div-mul n b 256),
)

pub uint_from-put_uint : (w acc n : ℕ) → uint_from acc (put_uint w n) ≡ acc * 256 ^ w + n % 256 ^ w
unfolding put_uint uint_from
uint_from-put_uint zero acc n = omega arith
uint_from-put_uint (suc w) acc n = omega (
  arith,
  uint_from-put_uint w (acc * 256 + n / 256 ^ w % 256) n,
  top_digit (256 ^ w) n (pow_pos w),
  pow-suc 256 w,
  ap (λ (t : ℕ). acc * t) (pow-suc 256 w),
  ap (λ (t : ℕ). n % t) (pow-suc 256 w),
)

next_row : (b d e : ℕ) → d < e → d * b + b ≤ e * b
next_row b d e h = grind arith

two_digits :
    (b d e r s : ℕ)
    → r < b
    → s < b
    → compare (d * b + r) (e * b + s) ≡ then (compare d e) (compare r s)
two_digits b d e r s hr hs = ground (arith, next_row b d e, next_row b e d)

pub compare-put_uint :
    (w n m : ℕ) → bytes_compare (put_uint w n) (put_uint w m) ≡ compare (n % 256 ^ w) (m % 256 ^ w)
unfolding put_uint bytes_compare
compare-put_uint zero n m = ground arith
compare-put_uint (suc w) n m =
    rw
      (
        compare-put_uint w n m,
        pow-suc 256 w,
        top_digit (256 ^ w) n (pow_pos w),
        top_digit (256 ^ w) m (pow_pos w),
      )
      (sym (two_digits (256 ^ w) _ _ _ _ (mod-lt n (pow_pos w)) (mod-lt m (pow_pos w))))
