-- ===== src/Bytes/Diverge.antt =====
-- Two byte strings that differ at some position of both, so that neither is a prefix of the other.
use shard_db.Base.{◌≡◌, Bool, true, false, [], ◌∷◌, ◌++◌, arith, ◌==◌, if◌then◌else◌}
use shard_db.Bytes.{Bytes, bytes_compare}

abbrev pub diverges : Bytes → Bytes → Bool
diverges [] b = false
diverges (x ∷ xs) [] = false
diverges (x ∷ xs) (y ∷ ys) = if x == y then diverges xs ys else true

-- The order of two strings that diverge is settled whatever is appended to them.
pub compare-append_diverges :
    (a b s t : Bytes) → diverges a b ≡ true → bytes_compare (a ++ s) (b ++ t) ≡ bytes_compare a b
unfolding bytes_compare
compare-append_diverges [] b s t h = cc
compare-append_diverges (x ∷ xs) [] s t h = cc
compare-append_diverges (x ∷ xs) (y ∷ ys) s t h = ground (arith, compare-append_diverges xs ys s t)
