-- ===== src/Shard/Debug.antt =====
-- cmd/shard-node/main.go: /debug/export and /debug/ingest, which move the versions of a shard to another
-- one.
use shard_db.Base.{ℕ, Option, none, some, List, [], ◌∷◌, ◌++◌, length}
use shard_db.Bytes.{Bytes, codes}
use shard_db.Decimal.{format_decimal}
use shard_db.Dict
use shard_db.Dict.{Dict}
use shard_db.Store.{MemoryStore, scan_range, ingest}
use shard_db.Tree.{BTree}

-- ExportItem
pub record ExportItem : Type 0 where
  pub key : Bytes
  pub value : Bytes

-- What the handlers use besides: the text of a list in JSON, `none` for a text that is none, and the
-- order of a range over a map.
pub record Codec : Type 0 where
  pub encode : List ExportItem → Bytes
  pub decode : Bytes → Option (List ExportItem)
  pub range : Dict Bytes → Dict Bytes

-- A response: its status and its body; of an error the text is not told.
pub record DebugResponse : Type 0 where
  pub status : ℕ
  pub body : Bytes

-- `[]byte(start)`, which stays nil where the parameter is empty
unfoldable pub bound : Bytes → Option Bytes
bound [] = none
bound (c ∷ cs) = some (c ∷ cs)

abbrev pub or_nil : Option Bytes → Bytes
or_nil none = []
or_nil (some b) = b

-- the loop of /debug/export
unfoldable pub export_items : Dict Bytes → List ExportItem
export_items [] = []
export_items ((k, v) ∷ rest) = record { key = k; value = v } ∷ export_items rest

-- the loop of /debug/ingest
unfoldable pub collect_items : List ExportItem → Dict Bytes → Dict Bytes
collect_items [] data_ = data_
collect_items (item ∷ items) data_ = collect_items items (Dict.put item.key item.value data_)

module _ {B : BTree} (c : Codec) where
  -- the handler of /debug/export; ScanRange returns no error
  unfoldable pub debug_export : Bytes → Bytes → MemoryStore B → DebugResponse
  unfolding bound export_items
  debug_export start end s =
      let data_ = scan_range (or_nil (bound start)) (bound end) s in
      record { status = 200; body = c.encode (export_items (c.range data_)) }

  -- the handler of /debug/ingest; Ingest returns no error
  unfoldable pub debug_ingest : Bytes → MemoryStore B → MemoryStore B × DebugResponse
  unfolding collect_items
  debug_ingest body s = elim (c.decode body) [
    | none ↦ (s, record { status = 400; body = codes "decode" })
    | some items ↦
        let data_ = collect_items items [] in
        (
          ingest (c.range data_) s,
          record {
            status = 200;
            body = codes "Ingested " ++ (format_decimal (length data_) ++ codes " items");
          },
        )
  ]
