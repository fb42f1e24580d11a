-- ===== src/Wal/Replay.antt =====
-- Iterate after Append, and after a crash.
use mathlib.Core.Path.{ap₂, fun_ext}
use shard_db.Base.{
  ℕ, suc, ◌+◌, ◌-◌, ◌%◌, ◌^◌, ◌<◌, ◌≡◌, refl, sym, ap, ◌∙◌, List, [], ◌∷◌, ◌++◌, All, length, take,
  length-append, take-append_add, length-take_of_le, append_assoc, append-nil, ltb, ◌==◌, ◌||◌,
  Bool-cases, inl, inr, arith, if◌then◌else◌,
}
use shard_db.Base.Result.{Result, ok, err}
use shard_db.Bytes.{Bytes, put_uint}
use shard_db.Bytes.Endian.{length-put_uint}
use shard_db.Wal.{
  Wal, WalError, eof, unexpected_eof, Handler, read_full, finish_round, iterate_loop, iterate,
}
use shard_db.Wal.Crc.{crc32, crc32-lt}
use shard_db.Wal.Frame.{
  frame, frames, read_full-append, read_full_short, read_full_word, word_value, length_value,
  length-frame, frames_long, append_all, append_all-frames,
}

-- The error at the end of a log whose last record was cut to n bytes.
abbrev pub torn_error : ℕ → ℕ → WalError
torn_error n len = if n == 4 || n == 4 + len then eof else unexpected_eof

module _ {S : Type 0} (handler : Handler S) where
  -- The handler on each entry in turn, up to its first error.
  abbrev pub handle_all :
      List Bytes → (S → S × Result WalError (Unit {0})) → S → S × Result WalError (Unit {0})
  handle_all [] end s = end s
  handle_all (d ∷ ds) end s =
      let (s', result) = handler d s in
      elim result [ err e ↦ (s', err e) | ok _ ↦ handle_all ds end s' ]

  finish_round-frame :
      (next : Bytes → S → S × Result WalError (Unit {0})) (d b : Bytes) (s : S)
      → finish_round handler next d (put_uint 4 (crc32 d) ++ b) s ≡ handle_all (d ∷ []) (next b) s
  unfolding finish_round
  finish_round-frame next d b s =
      ground (arith, read_full_word (crc32 d) b, word_value (crc32 d) (crc32-lt d))

  -- One round at a whole record.
  iterate_loop-frame :
      (fuel : ℕ) (d b : Bytes) (s : S)
      → length d < 2 ^ 32
      → iterate_loop (suc fuel) handler (frame d ++ b) s
        ≡ handle_all (d ∷ []) (iterate_loop fuel handler b) s
  unfolding iterate_loop
  iterate_loop-frame fuel d b s h =
      let n = length d % 2 ^ 32 in
      let crc = put_uint 4 (crc32 d) in
      ground (
        arith,
        ap (read_full 4) (append_assoc (put_uint 4 n) (d ++ crc) b)
            ∙ read_full_word n ((d ++ crc) ++ b),
        length_value d h,
        ap (read_full (length d)) (append_assoc d crc b) ∙ read_full-append d (crc ++ b),
        finish_round-frame (iterate_loop fuel handler) d b s,
      )

  -- Enough rounds for the entries, and whatever the rest is.
  iterate_loop-frames :
      (ds : List Bytes) (fuel : ℕ) (b : Bytes) (s : S)
      → All (λ d. length d < 2 ^ 32) ds
      → iterate_loop (length ds + fuel) handler (frames ds ++ b) s
        ≡ handle_all ds (iterate_loop fuel handler b) s
  iterate_loop-frames [] fuel b s h = ap (λ n. iterate_loop n handler b s) (omega arith)
  iterate_loop-frames (d ∷ ds) fuel b s h =
      ap₂ (λ n f. iterate_loop n handler f s) (omega arith) (append_assoc (frame d) (frames ds) b)
      ∙ iterate_loop-frame (length ds + fuel) d (frames ds ++ b) s h.0
      ∙ ap (λ end. handle_all (d ∷ []) end s) (fun_ext (λ s'. iterate_loop-frames ds fuel b s' h.1))

  iterate_at :
      (ds : List Bytes) (b : Bytes) (w : Wal) (s : S)
      → w.f ≡ frames ds ++ b
      → All (λ d. length d < 2 ^ 32) ds
      → iterate handler w s
        ≡ handle_all ds (iterate_loop (suc (length w.f) - length ds) handler b) s
  unfolding iterate
  iterate_at ds b w s e h =
      ap₂ (λ n f. iterate_loop n handler f s)
        (omega (arith, frames_long ds, ap (λ (f : Bytes). length f) e, length-append (frames ds) b))
        e
      ∙ iterate_loop-frames ds (suc (length w.f) - length ds) b s h

  -- The data is cut, or the CRC.
  torn_body :
      (k m : ℕ) (d : Bytes) (s : S)
      → length d < 2 ^ 32
      → m < length d + 4
      → iterate_loop
          (suc k)
          handler
          (put_uint 4 (length d % 2 ^ 32) ++ take m (d ++ put_uint 4 (crc32 d)))
          s
        ≡ (s, err (torn_error (4 + m) (length d)))
  unfolding iterate_loop finish_round
  torn_body k m d s h short = elim (Bool-cases (ltb m (length d))) [
    | inl in_data ↦ ground (
      arith,
      read_full_word (length d % 2 ^ 32) (take m (d ++ put_uint 4 (crc32 d))),
      length_value d h,
      read_full_short (length d) (take m (d ++ put_uint 4 (crc32 d))),
      length-take_of_le m (d ++ put_uint 4 (crc32 d)),
      length-append d (put_uint 4 (crc32 d)),
    )
    | inr in_crc ↦
        let q = m - length d in
        let cut : take m (d ++ put_uint 4 (crc32 d)) ≡ d ++ take q (put_uint 4 (crc32 d)) =
          ap (λ n. take n (d ++ put_uint 4 (crc32 d))) (ground arith)
          ∙ take-append_add d (put_uint 4 (crc32 d)) q in
        ground (
          arith,
          read_full_word (length d % 2 ^ 32) (take m (d ++ put_uint 4 (crc32 d))),
          length_value d h,
          ap (read_full (length d)) cut ∙ read_full-append d (take q (put_uint 4 (crc32 d))),
          read_full_short 4 (take q (put_uint 4 (crc32 d))),
          length-take_of_le q (put_uint 4 (crc32 d)),
          length-put_uint 4 (crc32 d),
        )
  ]

  torn_round :
      (k n : ℕ) (d : Bytes) (s : S)
      → length d < 2 ^ 32
      → 0 < n
      → n < length d + 8
      → iterate_loop (suc k) handler (take n (frame d)) s ≡ (s, err (torn_error n (length d)))
  unfolding iterate_loop
  torn_round k n d s h pos short = elim (Bool-cases (ltb n 4)) [
    | inl in_length ↦
        ground (
          arith,
          read_full_short 4 (take n (frame d)),
          length-take_of_le n (frame d),
          length-frame d,
        )
    | inr behind ↦
        let word = put_uint 4 (length d % 2 ^ 32) in
        let whole : n ≡ 4 + (n - 4) = ground arith in
        let cut : take n (frame d) ≡ word ++ take (n - 4) (d ++ put_uint 4 (crc32 d)) =
          ap (λ m. take m (frame d)) (ground (arith, length-put_uint 4 (length d % 2 ^ 32)))
          ∙ take-append_add word (d ++ put_uint 4 (crc32 d)) (n - 4) in
        ap (λ b. iterate_loop (suc k) handler b s) cut
        ∙ torn_body k (n - 4) d s h (omega arith)
        ∙ ap (λ m. (s, err (torn_error m (length d)))) (sym whole)
  ]

rounds_left :
    (ds : List Bytes) (b f : Bytes)
    → f ≡ frames ds ++ b
    → suc (length f) - length ds ≡ suc (length f - length ds)
rounds_left ds b f e =
    omega (arith, frames_long ds, ap (λ (x : Bytes). length x) e, length-append (frames ds) b)

last_round :
    {S : Type 0} (handler : Handler S) (k : ℕ) (s : S)
    → iterate_loop (suc k) handler [] s ≡ (s, ok tt)
unfolding iterate_loop read_full
last_round handler k s = refl

-- Iterate over a log that holds the entries appended to a new file, each shorter than 2^32 bytes:
-- the handler gets every entry, whole and in order, up to the first at which it fails, whose error
-- is the result; if it never fails there is none.
pub iterate-append_all :
    {S : Type 0} (handler : Handler S) (ds : List Bytes) (w : Wal) (s : S)
    → w.f ≡ []
    → All (λ d. length d < 2 ^ 32) ds
    → iterate handler (append_all ds w) s ≡ handle_all handler ds (λ s'. (s', ok tt)) s
iterate-append_all handler ds w s e h =
    let f : (append_all ds w).f ≡ frames ds ++ [] =
      append_all-frames ds w ∙ ap (λ b. b ++ frames ds) e ∙ sym (append-nil (frames ds)) in
    iterate_at handler ds [] (append_all ds w) s f h
    ∙ ap (λ end. handle_all handler ds end s)
        (fun_ext (λ s'.
          ap (λ n. iterate_loop n handler [] s') (rounds_left ds [] (append_all ds w).f f)
          ∙ last_round handler _ s'))

-- After a crash that left a proper, non-empty prefix of the last record, Iterate hands the handler
-- the whole entries before it and then fails, if the handler does not fail first: with io.EOF if
-- the cut is behind the length or behind the data, and with io.ErrUnexpectedEOF else.
pub iterate_torn :
    {S : Type 0} (handler : Handler S) (ds : List Bytes) (d : Bytes) (n : ℕ) (w : Wal) (s : S)
    → w.f ≡ frames ds ++ take n (frame d)
    → All (λ d. length d < 2 ^ 32) ds
    → length d < 2 ^ 32
    → 0 < n
    → n < length (frame d)
    → iterate handler w s ≡ handle_all handler ds (λ s'. (s', err (torn_error n (length d)))) s
iterate_torn handler ds d n w s e h short pos cut =
    iterate_at handler ds (take n (frame d)) w s e h
    ∙ ap (λ end. handle_all handler ds end s)
        (fun_ext (λ s'.
          ap (λ k. iterate_loop k handler (take n (frame d)) s')
            (rounds_left ds (take n (frame d)) w.f e)
          ∙ torn_round handler _ n d s' short pos (omega (arith, length-frame d))))
