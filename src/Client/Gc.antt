-- ===== src/Client/Gc.antt =====
-- cmd/tools/verify_gc/main.go: the client that collects the versions of one key and reads it around
-- that. What it prints is a list of lines.

use shard_db.Base.{Bool, not, Option, none, some, List, [], ◌∷◌, ◌++◌, if◌then◌else◌}
use shard_db.Base.Result.{Result, ok, err}
use shard_db.Bytes.{Bytes, bytes_equal, codes}
use shard_db.Decimal.{format_decimal}
use shard_db.Shard.Debug.{or_nil}
use shard_db.Store.{MemoryStore, StoreError, prepare, commit, get_txn, run_gc, new_memory_store}
use shard_db.Tree.{BTree}

-- The value of a read whose error is not looked at: nil where there is an error.
abbrev read : Result StoreError (Option Bytes) → Option Bytes
read (ok val) = val
read (err e) = none

abbrev key : Bytes
key = codes "keyA"

-- The conversion of a slice to a string, compared with a string.
abbrev is_text : Option Bytes → Bytes → Bool
is_text val expected = bytes_equal (or_nil val) expected

-- the line on the version 10
unfoldable shadowed_line : Option Bytes → Bytes
shadowed_line none = codes "PASS: Version 10 is gone."
shadowed_line (some val15) = codes "FAIL: Read 15 expected nil (deleted), got " ++ val15

-- the lines on the versions 20 and 30
unfoldable kept_line : Option Bytes → Bytes → Bytes → Bytes → Bytes
kept_line val expected failure success =
    if not (is_text val expected) then failure ++ or_nil val else success

module _ {B : BTree} where
  -- the three versions
  unfoldable pub insert_versions : MemoryStore B → MemoryStore B
  insert_versions s0 =
      let s1 = (prepare key (codes "val10") (codes "txn1") s0).0 in
      let s2 = (commit key (codes "txn1") 10 s1).0 in
      let s3 = (prepare key (codes "val20") (codes "txn2") s2).0 in
      let s4 = (commit key (codes "txn2") 20 s3).0 in
      let s5 = (prepare key (codes "val30") (codes "txn3") s4).0 in
      (commit key (codes "txn3") 30 s5).0

  -- the collection, and the reads after it
  unfoldable pub collect_versions : MemoryStore B → List Bytes
  unfolding kept_line shadowed_line
  collect_versions s =
      let (s', deleted) = run_gc 25 s in
      codes "Running GC(25)..."
      ∷ (codes "Deleted items: " ++ format_decimal deleted)
      ∷ shadowed_line (read (get_txn key 15 s'))
      ∷ kept_line (read (get_txn key 25 s')) (codes "val20")
          (codes "FAIL: Read 25 expected val20, got ") (codes "PASS: Version 20 remained.")
      ∷ kept_line (read (get_txn key 35 s')) (codes "val30")
          (codes "FAIL: Read 35 expected val30, got ") (codes "PASS: Version 30 remained.")
      ∷ []

-- main
unfoldable pub verify_gc : BTree → List Bytes
unfolding insert_versions collect_versions
verify_gc B =
    let s = insert_versions (new_memory_store B) in
    let val = read (get_txn key 25 s) in
    codes "Initial State Created."
    ∷ (if not (is_text val (codes "val20"))
        then (codes "FAIL: Pre-GC Read 25 expected val20, got " ++ or_nil val) ∷ []
        else collect_versions s)
