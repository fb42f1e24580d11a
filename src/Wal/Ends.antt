-- ===== src/Wal/Ends.antt =====
-- Iterate ends: on every file, whatever it holds.
use shard_db.Base.{
  ℕ, zero, suc, ◌+◌, ◌*◌, ◌≤◌, ◌<◌, ◌≡◌, refl, length, length-drop, ◌⊎◌, inl, inr, arith,
}
use shard_db.Base.Result.{Result, ok, err}
use shard_db.Bytes.{Bytes, uint_from}
use shard_db.Wal.{
  Wal, WalError, eof, unexpected_eof, handler_error, Handler, read_full, finish_round, iterate_loop,
  iterate,
}

Result-cases : {E A : Type 0} (r : Result E A) → ((a : A) × (r ≡ ok a)) ⊎ ((e : E) × (r ≡ err e))
Result-cases (ok a) = inl (a, refl)
Result-cases (err e) = inr (e, refl)

length-read_full :
    (n : ℕ) (b a rest : Bytes) → read_full n b ≡ ok (a, rest) → length b ≡ n + length rest
unfolding read_full
length-read_full n b a rest h = ground (arith, length-drop n b)

module _ {S : Type 0} where
  -- A handler that counts its calls.
  abbrev pub counted : Handler S → Handler (S × ℕ)
  counted handler data_ (s, n) = let (s', r) = handler data_ s in ((s', n + 1), r)

  finish_round-agree :
      (handler : Handler S) (next next' : Bytes → S → S × Result WalError (Unit {0}))
      (data_ b : Bytes) (s : S)
      → ((rest : Bytes) (t : S) → length rest ≤ length b → next rest t ≡ next' rest t)
      → finish_round handler next data_ b s ≡ finish_round handler next' data_ b s
  unfolding finish_round
  finish_round-agree handler next next' data_ b s same = elim (Result-cases (read_full 4 b)) [
    | inr (e, bad) ↦ ground arith
    | inl ((crc_buf, rest), good) ↦
        let shorter : length rest ≤ length b =
          omega (arith, length-read_full 4 b crc_buf rest good) in
        ground (arith, same rest (handler data_ s).0 shorter)
  ]

  iterate_loop-fuel :
      (f g : ℕ) (handler : Handler S) (b : Bytes) (s : S)
      → length b < f
      → length b < g
      → iterate_loop f handler b s ≡ iterate_loop g handler b s
  unfolding iterate_loop
  iterate_loop-fuel zero g handler b s h k = absurd (omega arith)
  iterate_loop-fuel (suc f) zero handler b s h k = absurd (omega arith)
  iterate_loop-fuel (suc f) (suc g) handler b s h k = elim (Result-cases (read_full 4 b)) [
    | inr (eof, bad) ↦ ground arith
    | inr (unexpected_eof, bad) ↦ ground arith
    | inr (handler_error m, bad) ↦ ground arith
    | inl ((len_buf, b1), good) ↦ elim (Result-cases (read_full (uint_from 0 len_buf) b1)) [
      | inr (e, bad) ↦ ground arith
      | inl ((data_, b2), more) ↦
          let first = length-read_full 4 b len_buf b1 good in
          let second = length-read_full (uint_from 0 len_buf) b1 data_ b2 more in
          let rounds =
            finish_round-agree handler (iterate_loop f handler) (iterate_loop g handler) data_ b2 s
              (λ rest t le. iterate_loop-fuel f g handler rest t (omega arith) (omega arith)) in
          ground arith
    ]
  ]

  finish_round-calls :
      (handler : Handler S) (next : Bytes → S × ℕ → (S × ℕ) × Result WalError (Unit {0}))
      (data_ b : Bytes) (s : S) (n : ℕ)
      → ((rest : Bytes) (t : S) (m : ℕ) → (next rest (t, m)).0.1 * 8 ≤ m * 8 + length rest)
      → (finish_round (counted handler) next data_ b (s, n)).0.1 * 8 ≤ n * 8 + (4 + length b)
  unfolding finish_round
  finish_round-calls handler next data_ b s n few = elim (Result-cases (read_full 4 b)) [
    | inr (e, bad) ↦ ground arith
    | inl ((crc_buf, rest), good) ↦
        ground (arith, length-read_full 4 b crc_buf rest good, few rest (handler data_ s).0 (n + 1))
  ]

  iterate_loop-calls :
      (f : ℕ) (handler : Handler S) (b : Bytes) (s : S) (n : ℕ)
      → (iterate_loop f (counted handler) b (s, n)).0.1 * 8 ≤ n * 8 + length b
  unfolding iterate_loop
  iterate_loop-calls zero handler b s n = omega arith
  iterate_loop-calls (suc f) handler b s n = elim (Result-cases (read_full 4 b)) [
    | inr (eof, bad) ↦ ground arith
    | inr (unexpected_eof, bad) ↦ ground arith
    | inr (handler_error m, bad) ↦ ground arith
    | inl ((len_buf, b1), good) ↦ elim (Result-cases (read_full (uint_from 0 len_buf) b1)) [
      | inr (e, bad) ↦ ground arith
      | inl ((data_, b2), more) ↦
          let first = length-read_full 4 b len_buf b1 good in
          let second = length-read_full (uint_from 0 len_buf) b1 data_ b2 more in
          let rounds =
            finish_round-calls handler (iterate_loop f (counted handler)) data_ b2 s n
              (λ rest t m. iterate_loop-calls f handler rest t m) in
          ground arith
    ]
  ]

  -- On every file, whatever it holds, and with every handler, Iterate ends: its loop has the same
  -- result with any bound on the number of rounds that is larger than the length of the file, and
  -- it calls the handler at most once for each eight bytes.
  pub iterate-ends :
      (fuel : ℕ) (handler : Handler S) (w : Wal) (s : S)
      → length w.f < fuel
      → (iterate_loop fuel handler w.f s ≡ iterate handler w s)
        × ((iterate (counted handler) w (s, 0)).0.1 * 8 ≤ length w.f)
  unfolding iterate
  iterate-ends fuel handler w s h = (
    iterate_loop-fuel fuel (suc (length w.f)) handler w.f s h (omega arith),
    omega (arith, iterate_loop-calls (suc (length w.f)) handler w.f s 0),
  )
