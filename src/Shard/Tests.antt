-- ===== src/Shard/Tests.antt =====
-- Entries of a transaction, applied to a store, and the theorems at them.
use shard_db.Base.{◌≡◌, refl, ap, ◌∙◌, zero, suc, some, List, [], ◌∷◌, arith, if◌then◌else◌}
use shard_db.Base.Result.{ok, err}
use shard_db.Bytes.{Bytes, codes, bytes_compare, bytes_equal, put_uint, uint_from}
use shard_db.Mvcc.{encode_key, decode_key}
use shard_db.Strings.{cons_first, has_prefix, to_upper, join}
use shard_db.Dict
use shard_db.Sql.Executor.{row_key}
use shard_db.Shard.Execute.{
  execute_handler, text_response, rows_response, execute_handler-apply_entry,
}
use shard_db.Store.Items.{IsMvcc}
use shard_db.Store.Seek.{version}
use shard_db.Shard.Debug.{ExportItem, Codec, debug_ingest, debug_export}
use shard_db.Shard.Migrate.{Moved, debug_ingest-debug_export}
use shard_db.Decimal.{format_decimal}
use shard_db.Sql.{unsupported, insert_node, point_get_node}
use shard_db.Store.{MemoryStore, commit, new_memory_store}
use shard_db.Tree.SortedList.{sorted_list}
use shard_db.Shard.{Parsers, apply_entry, prepare_entry, commit_entry}
use shard_db.Shard.Apply.{commit_request, apply_entry-entry, apply_entry-spaced}

abbrev parsers : Parsers
parsers = record {
  unmarshal = λ body. record { txn_id = []; ts = 0; ops = [] };
  parse_to_plan = λ sql. err unsupported;
}

abbrev held : MemoryStore sorted_list
held = record {
  tree = [];
  locks = (codes "t:u1", record { txn_id = codes "txn-7"; value = codes "v" }) ∷ [];
}

apply_entry-entry_example :
    apply_entry parsers (commit_entry (codes "t:u1") (codes "txn-7") (format_decimal 12)) held
    ≡ (commit (codes "t:u1") (codes "txn-7") 12 held).0
apply_entry-entry_example =
    apply_entry-entry parsers (commit_request (codes "t:u1") (codes "txn-7") 12) held
      ((refl, (refl, (refl, (refl, tt)))), (refl, (refl, (refl, (refl, (refl, tt))))), omega arith)

apply_entry-spaced_example :
    apply_entry parsers
      (prepare_entry (codes "t:u1") (codes "two words") (codes "txn-7"))
      (new_memory_store sorted_list)
    ≡ new_memory_store sorted_list
apply_entry-spaced_example =
    apply_entry-spaced parsers (codes "t:u1") (codes "two") (codes "words") (codes "txn-7")
      (new_memory_store sorted_list)

-- A text for lists of items, in the place of JSON: a byte is written as its successor, and 0 ends a
-- field.
abbrev field : Bytes → Bytes → Bytes
field [] rest = 0 ∷ rest
field (c ∷ cs) rest = suc c ∷ field cs rest

abbrev write_items : List ExportItem → Bytes
write_items [] = []
write_items (item ∷ items) = field item.key (field item.value (write_items items))

abbrev read_fields : Bytes → List Bytes
read_fields [] = []
read_fields (zero ∷ bs) = [] ∷ read_fields bs
read_fields (suc c ∷ bs) = let rest = read_fields bs in cons_first c rest

abbrev read_items : List Bytes → List ExportItem
read_items (k ∷ (v ∷ rest)) = record { key = k; value = v } ∷ read_items rest
read_items _ = []

read_fields-field : (b rest : Bytes) → read_fields (field b rest) ≡ b ∷ read_fields rest
read_fields-field [] rest = refl
read_fields-field (c ∷ cs) rest = ap (cons_first c) (read_fields-field cs rest)

read-write_items : (items : List ExportItem) → read_items (read_fields (write_items items)) ≡ items
read-write_items [] = refl
read-write_items (item ∷ items) =
    ap read_items (read_fields-field item.key (field item.value (write_items items)))
    ∙ ap (λ fs. read_items (item.key ∷ fs)) (read_fields-field item.value (write_items items))
    ∙ ap (λ is. item ∷ is) (read-write_items items)

abbrev codec : Codec
codec = record {
  encode = write_items;
  decode = λ bs. some (read_items (read_fields bs));
  range = λ m. m;
}

-- Two shards with a version of the same key each, and a lock at each.
abbrev from_shard : MemoryStore sorted_list
from_shard = record {
  tree = version (codes "t:k") 20 (codes "new") ∷ version (codes "t:k") 10 (codes "old") ∷ [];
  locks = (codes "t:k", record { txn_id = codes "txn-7"; value = codes "v" }) ∷ [];
}

abbrev to_shard : MemoryStore sorted_list
to_shard = record { tree = version (codes "t:k") 20 (codes "kept") ∷ []; locks = [] }

from_shard-IsMvcc : IsMvcc from_shard.tree
unfolding bytes_compare encode_key decode_key put_uint uint_from
from_shard-IsMvcc = record {
  sorted = ((refl, tt), (tt, tt));
  versions = ((refl, omega arith), ((refl, omega arith), tt));
}

to_shard-IsMvcc : IsMvcc to_shard.tree
unfolding encode_key decode_key put_uint uint_from
to_shard-IsMvcc = record { sorted = (tt, tt); versions = ((refl, omega arith), tt) }

debug_ingest-debug_export_example :
    Moved from_shard to_shard
      (debug_ingest codec (debug_export codec [] [] from_shard).body to_shard)
debug_ingest-debug_export_example =
    debug_ingest-debug_export codec from_shard to_shard (λ m once. (once, λ key. refl))
      (λ items. ap some (read-write_items items)) from_shard-IsMvcc to_shard-IsMvcc

abbrev insert_sql : Bytes
insert_sql = codes "INSERT INTO t VALUES ('k', 'z')"

abbrev select_sql : Bytes
select_sql = codes "SELECT * FROM t WHERE id = 'k'"

abbrev sql_parsers : Parsers
sql_parsers = record parsers {
  parse_to_plan = λ sql.
      if has_prefix sql (codes "INSERT")
      then ok (insert_node (codes "t") [] (codes "k" ∷ codes "z" ∷ []))
      else ok (point_get_node (codes "t") (codes "k"));
}

execute_handler-apply_entry_example :
    let sent = execute_handler sql_parsers [] insert_sql to_shard in
    let applied = apply_entry sql_parsers sent.0 to_shard in
    let read = execute_handler sql_parsers [] select_sql applied in
    (sent.1 ≡ to_shard)
    × (sent.2 ≡ text_response (codes "OK"))
    × (read.1 ≡ applied)
    × (read.2 ≡ rows_response (some ((codes "k" ∷ codes "k,z" ∷ []) ∷ [])) (codes "ops_select"))
unfolding has_prefix to_upper row_key join bytes_equal encode_key decode_key put_uint uint_from
    Dict.get
execute_handler-apply_entry_example =
    execute_handler-apply_entry sql_parsers insert_sql select_sql (codes "t") (codes "k") []
      (codes "z" ∷ []) to_shard refl refl refl refl refl to_shard-IsMvcc (refl, tt)
