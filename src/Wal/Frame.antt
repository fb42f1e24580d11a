-- ===== src/Wal/Frame.antt =====
-- The bytes of a log, record by record.
use shard_db.Base.{
  ℕ, ◌+◌, ◌%◌, ◌^◌, ◌≤◌, ◌<◌, ◌≡◌, sym, ap, ◌∙◌, false, List, [], ◌∷◌, ◌++◌, length, length-append,
  take-append, drop-append, append_assoc, append-nil, ltb, ◌==◌, arith, if◌then◌else◌,
}
use shard_db.Base.Result.{ok, err}
use shard_db.Bytes.{Bytes, put_uint, uint_from}
use shard_db.Bytes.Endian.{length-put_uint, uint_from-put_uint}
use shard_db.Wal.{Wal, eof, unexpected_eof, append, read_full}
use shard_db.Wal.Crc.{crc32}

-- The bytes of one record.
abbrev pub frame : Bytes → Bytes
frame d = put_uint 4 (length d % 2 ^ 32) ++ (d ++ put_uint 4 (crc32 d))

abbrev pub frames : List Bytes → Bytes
frames [] = []
frames (d ∷ ds) = frame d ++ frames ds

pub append-frame : (d : Bytes) (w : Wal) → (append d w).f ≡ w.f ++ frame d
unfolding append
append-frame d w = simp append_assoc

pub read_full-append : (a b : Bytes) → read_full (length a) (a ++ b) ≡ ok (a, b)
unfolding read_full
read_full-append a b =
    let long : ltb (length (a ++ b)) (length a) ≡ false = ground (arith, length-append a b) in
    rw (long, take-append a b, drop-append a b)

pub read_full_short :
    (n : ℕ) (b : Bytes)
    → length b < n
    → read_full n b ≡ err (if length b == 0 then eof else unexpected_eof)
unfolding read_full
read_full_short n b h = ground arith

pub read_full_word : (n : ℕ) (b : Bytes) → read_full 4 (put_uint 4 n ++ b) ≡ ok (put_uint 4 n, b)
read_full_word n b =
    ap (λ k. read_full k (put_uint 4 n ++ b)) (sym (length-put_uint 4 n))
    ∙ read_full-append (put_uint 4 n) b

pub word_value : (n : ℕ) → n < 2 ^ 32 → uint_from 0 (put_uint 4 n) ≡ n
word_value n h = omega (arith, uint_from-put_uint 4 0 n)

pub length_value :
    (d : Bytes) → length d < 2 ^ 32 → uint_from 0 (put_uint 4 (length d % 2 ^ 32)) ≡ length d
length_value d h = word_value (length d % 2 ^ 32) (omega arith) ∙ omega arith

pub length-frame : (d : Bytes) → length (frame d) ≡ length d + 8
length-frame d = omega (
  arith,
  length-append (put_uint 4 (length d % 2 ^ 32)) (d ++ put_uint 4 (crc32 d)),
  length-append d (put_uint 4 (crc32 d)),
  length-put_uint 4 (length d % 2 ^ 32),
  length-put_uint 4 (crc32 d),
)

pub frames_long : (ds : List Bytes) → length ds ≤ length (frames ds)
frames_long [] = omega arith
frames_long (d ∷ ds) =
    omega (arith, frames_long ds, length-append (frame d) (frames ds), length-frame d)

-- Appending entries one after the other.
abbrev pub append_all : List Bytes → Wal → Wal
append_all [] w = w
append_all (d ∷ ds) w = append_all ds (append d w)

pub append_all-frames : (ds : List Bytes) (w : Wal) → (append_all ds w).f ≡ w.f ++ frames ds
append_all-frames [] w = sym (append-nil w.f)
append_all-frames (d ∷ ds) w =
    append_all-frames ds (append d w)
    ∙ ap (λ f. f ++ frames ds) (append-frame d w)
    ∙ append_assoc w.f (frame d) (frames ds)
