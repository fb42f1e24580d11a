-- ===== src/Wal/Crc.antt =====
-- hash/crc32: ChecksumIEEE, bit by bit, with the reversed polynomial 0xedb88320.
use Prim.Native.Nat.{bit_xor}
use shard_db.Base.{ℕ, zero, suc, ◌/◌, ◌%◌, ◌^◌, ◌<◌, ◌≡◌, refl, [], ◌∷◌, ◌==◌, if◌then◌else◌, arith}
use shard_db.Bytes.{Bytes, codes}

crc_bits : ℕ → ℕ → ℕ
crc_bits zero c = c
crc_bits (suc n) c = crc_bits n (if c % 2 == 1 then bit_xor (c / 2) 0xedb88320 else c / 2)

crc_update : ℕ → Bytes → ℕ
crc_update c [] = c
crc_update c (b ∷ bs) = crc_update (crc_bits 8 (bit_xor c b)) bs

-- A uint32.
unfoldable pub crc32 : Bytes → ℕ
unfolding crc_update crc_bits
crc32 b = bit_xor (crc_update 0xffff_ffff b) 0xffff_ffff % 2 ^ 32

pub crc32-lt : (b : Bytes) → crc32 b < 2 ^ 32
unfolding crc32
crc32-lt b = omega arith

-- The check value of the standard.
crc32_check : crc32 (codes "123456789") ≡ 0xcbf4_3926
unfolding crc32
crc32_check = refl
