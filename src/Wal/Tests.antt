-- ===== src/Wal/Tests.antt =====
-- Logs with two entries.
use shard_db.Base.{◌≡◌, refl, List, [], ◌∷◌, ◌++◌, take, arith, ◌*◌, ◌≤◌}
use shard_db.Base.Result.{ok, err}
use shard_db.Bytes.{Bytes, put_uint, codes}
use shard_db.Wal.{Wal, eof, Handler, iterate, iterate_loop}
use shard_db.Wal.Ends.{counted, iterate-ends}
use shard_db.Wal.Frame.{frame, frames, append_all}
use shard_db.Wal.Replay.{iterate-append_all, iterate_torn}

-- A handler that collects the entries.
abbrev collect : Handler (List Bytes)
collect d s = (s ++ d ∷ [], ok tt)

abbrev fresh : Wal
fresh = record { f = []; path = codes "data/shard-1" }

abbrev entries : List Bytes
entries = codes "one" ∷ codes "two" ∷ []

iterate-append_all_example : iterate collect (append_all entries fresh) [] ≡ (entries, ok tt)
iterate-append_all_example =
    iterate-append_all collect entries fresh [] refl (omega arith, (omega arith, tt))

abbrev torn : Wal
torn = record { f = frames entries ++ take 4 (frame (codes "three")); path = codes "data/shard-1" }

iterate_torn_example : iterate collect torn [] ≡ (entries, err eof)
unfolding put_uint
iterate_torn_example =
    iterate_torn collect entries (codes "three") 4 torn [] refl (omega arith, (omega arith, tt))
      (omega arith) (omega arith) (omega arith)

-- A file that is no log: the length is far behind its end.
abbrev broken : Wal
broken = record { f = 255 ∷ 255 ∷ 255 ∷ 255 ∷ codes "one"; path = codes "data/shard-1" }

iterate-ends_example :
    (iterate_loop 100 collect broken.f [] ≡ iterate collect broken [])
    × ((iterate (counted collect) broken ([], 0)).0.1 * 8 ≤ 7)
iterate-ends_example = iterate-ends 100 collect broken [] (omega arith)
