-- ===== src/Wal.antt =====
-- internal/storage/wal/wal.go: a log file of records, each a length, the data and its CRC. The file
-- is its bytes; it is opened for appending, so every write goes to its end, and Iterate reads it
-- from its start. A crash while a record is written leaves a prefix of the record.
pub mod Crc
pub mod Frame
pub mod Replay
pub mod Ends
mod Tests
use Prim.Native.Nat.{bit_xor}
use shard_db.Base.{
  ℕ, zero, suc, ◌+◌, ◌/◌, ◌%◌, ◌^◌, Bool, true, false, Option, none, some, List, [], ◌∷◌, ◌++◌,
  length, take, drop, ltb, ◌==◌, if◌then◌else◌, ◌&&◌,
}
use shard_db.Base.Result.{Result, ok, err}
use shard_db.Bytes.{Bytes, put_uint, uint_from}
use shard_db.Wal.Crc.{crc32}

pub record Wal : Type 0 where
  pub f : Bytes
  pub path : Bytes

-- io.EOF, io.ErrUnexpectedEOF, and what a handler returns
pub data WalError : Type 0 where
  eof : WalError
  unexpected_eof : WalError
  handler_error : Bytes → WalError

-- One write to the end of the file.
unfoldable pub write : Bytes → Wal → Wal
write b w = record w { f = w.f ++ b }

-- Append
unfoldable pub append : Bytes → Wal → Wal
unfolding write
append data_ w =
    let len_written = write (put_uint 4 (length data_ % 2 ^ 32)) w in
    let data_written = write data_ len_written in write (put_uint 4 (crc32 data_)) data_written

-- io.ReadFull of n bytes from what is left of the file: the bytes and the rest
unfoldable pub read_full : ℕ → Bytes → Result WalError (Bytes × Bytes)
read_full n b =
    if ltb (length b) n
    then (if length b == 0 then err eof else err unexpected_eof)
    else ok (take n b, drop n b)

-- A handler may change the variables that it captures, and may fail.
abbrev pub Handler : Type 0 → Type 0
Handler S = Bytes → S → S × Result WalError (Unit {0})

module _ {S : Type 0} where
  -- the end of a round, from the read of the CRC on; `next` is the next round
  unfoldable pub finish_round :
      Handler S
      → (Bytes → S → S × Result WalError (Unit {0}))
      → Bytes
      → Bytes
      → S
      → S × Result WalError (Unit {0})
  finish_round handler next data_ b s = elim (read_full 4 b) [
    | err e ↦ (s, err e)
    | ok (crc_buf, rest) ↦
        if uint_from 0 crc_buf == crc32 data_
        then (let (s', result) = handler data_ s in
            elim result [ err e ↦ (s', err e) | ok _ ↦ next rest s' ])
        else (s, err unexpected_eof)
  ]

  -- the loop of Iterate over what is left of the file
  unfoldable pub iterate_loop : ℕ → Handler S → Bytes → S → S × Result WalError (Unit {0})
  iterate_loop zero handler b s = (s, err eof)
  iterate_loop (suc fuel) handler b s = elim (read_full 4 b) [
    | err eof ↦ (s, ok tt)
    | err e ↦ (s, err e)
    | ok (len_buf, b1) ↦ elim (read_full (uint_from 0 len_buf) b1) [
      | err e ↦ (s, err e)
      | ok (data_, b2) ↦ finish_round handler (iterate_loop fuel handler) data_ b2 s
    ]
  ]

  -- Iterate; each round reads eight bytes at least, so the fuel does not run out.
  unfoldable pub iterate : Handler S → Wal → S → S × Result WalError (Unit {0})
  iterate handler w s = iterate_loop (suc (length w.f)) handler w.f s
