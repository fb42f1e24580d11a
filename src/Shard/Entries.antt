-- ===== src/Shard/Entries.antt =====
-- The fields of the entries that the handlers propose.
use shard_db.Base.{
  ℕ, ◌≡◌, refl, ap, ◌∙◌, append_assoc, All-imp, true, [], ◌∷◌, ◌++◌, length, leb, arith,
}
use shard_db.Bytes.{Bytes, codes}
use shard_db.Decimal.{format_decimal, format_decimal-IsDigit}
use shard_db.Strings.{split}
use shard_db.Strings.Split.{Lacks, split-field, split-last, length-split, split-nonempty}
use shard_db.Shard.{prepare_entry, commit_entry, abort_entry}

Lacks-prepare : Lacks b' ' (codes "PREPARE")
Lacks-prepare = (refl, (refl, (refl, (refl, (refl, (refl, (refl, tt)))))))

Lacks-commit : Lacks b' ' (codes "COMMIT")
Lacks-commit = (refl, (refl, (refl, (refl, (refl, (refl, tt))))))

Lacks-abort : Lacks b' ' (codes "ABORT")
Lacks-abort = (refl, (refl, (refl, (refl, (refl, tt)))))

pub split-prepare_entry :
    (key val txn : Bytes)
    → Lacks b' ' key
    → Lacks b' ' val
    → Lacks b' ' txn
    → split (prepare_entry key val txn) b' ' ≡ codes "PREPARE" ∷ key ∷ val ∷ txn ∷ []
unfolding prepare_entry
split-prepare_entry key val txn k v t =
    split-field (codes "PREPARE") (key ++ b' ' ∷ (val ++ b' ' ∷ txn)) b' ' Lacks-prepare
    ∙ ap (λ l. codes "PREPARE" ∷ l) (split-field key (val ++ b' ' ∷ txn) b' ' k)
    ∙ ap (λ l. codes "PREPARE" ∷ key ∷ l) (split-field val txn b' ' v)
    ∙ ap (λ l. codes "PREPARE" ∷ key ∷ val ∷ l) (split-last txn b' ' t)

pub split-commit_entry :
    (key txn ts : Bytes)
    → Lacks b' ' key
    → Lacks b' ' txn
    → Lacks b' ' ts
    → split (commit_entry key txn ts) b' ' ≡ codes "COMMIT" ∷ key ∷ txn ∷ ts ∷ []
unfolding commit_entry
split-commit_entry key txn ts k t n =
    split-field (codes "COMMIT") (key ++ b' ' ∷ (txn ++ b' ' ∷ ts)) b' ' Lacks-commit
    ∙ ap (λ l. codes "COMMIT" ∷ l) (split-field key (txn ++ b' ' ∷ ts) b' ' k)
    ∙ ap (λ l. codes "COMMIT" ∷ key ∷ l) (split-field txn ts b' ' t)
    ∙ ap (λ l. codes "COMMIT" ∷ key ∷ txn ∷ l) (split-last ts b' ' n)

pub split-abort_entry :
    (key txn : Bytes)
    → Lacks b' ' key
    → Lacks b' ' txn
    → split (abort_entry key txn) b' ' ≡ codes "ABORT" ∷ key ∷ txn ∷ []
unfolding abort_entry
split-abort_entry key txn k t =
    split-field (codes "ABORT") (key ++ b' ' ∷ txn) b' ' Lacks-abort
    ∙ ap (λ l. codes "ABORT" ∷ l) (split-field key txn b' ' k)
    ∙ ap (λ l. codes "ABORT" ∷ key ∷ l) (split-last txn b' ' t)

-- A space in the value makes at least five fields.
pub length-spaced :
    (key a b txn : Bytes)
    → leb 5 (length (split (prepare_entry key (a ++ b' ' ∷ b) txn) b' ')) ≡ true
unfolding prepare_entry
length-spaced key a b txn =
    let tail = b ++ b' ' ∷ txn in
    let whole : (a ++ b' ' ∷ b) ++ b' ' ∷ txn ≡ a ++ b' ' ∷ tail =
      append_assoc a (b' ' ∷ b) (b' ' ∷ txn) in
    let first =
      length-split (codes "PREPARE") (key ++ b' ' ∷ ((a ++ b' ' ∷ b) ++ b' ' ∷ txn)) b' ' in
    let second = length-split key ((a ++ b' ' ∷ b) ++ b' ' ∷ txn) b' ' in
    let third = ap (λ (l : Bytes). length (split l b' ')) whole ∙ length-split a tail b' ' in
    let fourth = length-split b txn b' ' in
    ground (
      arith,
      first,
      second,
      third,
      fourth,
      split-nonempty (codes "PREPARE") b' ',
      split-nonempty key b' ',
      split-nonempty a b' ',
      split-nonempty b b' ',
      split-nonempty txn b' ',
    )

pub format_decimal-Lacks : (n : ℕ) → Lacks b' ' (format_decimal n)
format_decimal-Lacks n = All-imp (λ c h. ground arith) (format_decimal n) (format_decimal-IsDigit n)
