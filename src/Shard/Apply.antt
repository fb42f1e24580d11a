-- ===== src/Shard/Apply.antt =====
-- What the applier does with the entries that the handlers propose.
use shard_db.Base.{ℕ, ◌≡◌, refl, ap, ◌∙◌, true, List, [], ◌∷◌, ◌++◌, length, leb, ◌<◌, ◌^◌, arith}
use shard_db.Bytes.{Bytes}
use shard_db.Decimal.{format_decimal, scan_uint64-format_decimal}
use shard_db.Strings.{has_prefix, split, trim_prefix}
use shard_db.Strings.Split.{Lacks}
use shard_db.Store.{MemoryStore, prepare, commit, abort, one_phase_commit}
use shard_db.Tree.{BTree}
use shard_db.Shard.{
  Parsers, storage_ops, apply_entry, apply_prepare, apply_commit, apply_abort, prepare_entry,
  commit_entry, abort_entry, oneshot_entry,
}
use shard_db.Shard.Entries.{
  split-prepare_entry, split-commit_entry, split-abort_entry, length-spaced, format_decimal-Lacks,
}

-- A request that a handler turns into an entry.
pub data Request : Type 0 where
  prepare_request : Bytes → Bytes → Bytes → Request
  commit_request : Bytes → Bytes → ℕ → Request
  abort_request : Bytes → Bytes → Request
  oneshot_request : Bytes → Request

-- The entry of a request; the timestamp is the decimal number of the coordinator's request.
abbrev pub entry : Request → Bytes
entry (prepare_request key val txn) = prepare_entry key val txn
entry (commit_request key txn ts) = commit_entry key txn (format_decimal ts)
entry (abort_request key txn) = abort_entry key txn
entry (oneshot_request body) = oneshot_entry body

-- No field has a space, and the timestamp is a uint64.
abbrev pub IsPlain : Request → Type 0
IsPlain (prepare_request key val txn) = Lacks b' ' key × Lacks b' ' val × Lacks b' ' txn
IsPlain (commit_request key txn ts) = Lacks b' ' key × Lacks b' ' txn × (ts < 2 ^ 64)
IsPlain (abort_request key txn) = Lacks b' ' key × Lacks b' ' txn
IsPlain (oneshot_request body) = Unit

module _ {B : BTree} (p : Parsers) where
  -- The call of the store that the request asks for.
  abbrev pub effect : Request → MemoryStore B → MemoryStore B
  effect (prepare_request key val txn) s = (prepare key val txn s).0
  effect (commit_request key txn ts) s = (commit key txn ts s).0
  effect (abort_request key txn) s = (abort key txn s).0
  effect (oneshot_request body) s =
      (one_phase_commit (storage_ops (p.unmarshal body).ops) (p.unmarshal body).txn_id
        (p.unmarshal body).ts s).0

  prepare_branch :
      (key val txn : Bytes) (s : MemoryStore B)
      → apply_entry p (prepare_entry key val txn) s
        ≡ apply_prepare (split (prepare_entry key val txn) b' ') s
  unfolding apply_entry has_prefix prepare_entry
  prepare_branch key val txn s = refl

  commit_branch :
      (key txn ts : Bytes) (s : MemoryStore B)
      → apply_entry p (commit_entry key txn ts) s
        ≡ apply_commit (split (commit_entry key txn ts) b' ') s
  unfolding apply_entry has_prefix commit_entry
  commit_branch key txn ts s = refl

  abort_branch :
      (key txn : Bytes) (s : MemoryStore B)
      → apply_entry p (abort_entry key txn) s ≡ apply_abort (split (abort_entry key txn) b' ') s
  unfolding apply_entry has_prefix abort_entry
  abort_branch key txn s = refl

  -- Apply of the entry that a handler proposes makes the call of the store that the request asks for,
  -- with the same arguments, if no field of the request has a space: the entries for the parts of
  -- a transaction are formatted and parsed back. The body of a oneshot request is what
  -- json.Unmarshal makes of it, spaces included.
  pub apply_entry-entry :
      (r : Request) (s : MemoryStore B) → IsPlain r → apply_entry p (entry r) s ≡ effect r s
  unfolding apply_prepare apply_commit apply_abort apply_entry has_prefix oneshot_entry trim_prefix
  apply_entry-entry (prepare_request key val txn) s h =
      prepare_branch key val txn s
      ∙ ap (λ fields. apply_prepare fields s) (split-prepare_entry key val txn h.0 h.1 h.2)
  apply_entry-entry (commit_request key txn ts) s h =
      commit_branch key txn (format_decimal ts) s
      ∙ ap (λ fields. apply_commit fields s)
          (split-commit_entry key txn (format_decimal ts) h.0 h.1 (format_decimal-Lacks ts))
      ∙ ap (λ (n : ℕ). (commit key txn n s).0) (scan_uint64-format_decimal ts h.2)
  apply_entry-entry (abort_request key txn) s h =
      abort_branch key txn s
      ∙ ap (λ fields. apply_abort fields s) (split-abort_entry key txn h.0 h.1)
  apply_entry-entry (oneshot_request body) s h = refl

  apply_prepare-more :
      (fields : List Bytes) (s : MemoryStore B)
      → leb 5 (length fields) ≡ true
      → apply_prepare fields s ≡ s
  unfolding apply_prepare
  apply_prepare-more [] s h = ground arith
  apply_prepare-more (a ∷ []) s h = ground arith
  apply_prepare-more (a ∷ (b ∷ [])) s h = ground arith
  apply_prepare-more (a ∷ (b ∷ (c ∷ []))) s h = ground arith
  apply_prepare-more (a ∷ (b ∷ (c ∷ (d ∷ [])))) s h = ground arith
  apply_prepare-more (a ∷ (b ∷ (c ∷ (d ∷ (e ∷ fs))))) s h = refl

  -- The entry of a prepare request whose value has a space is dropped: Apply takes no lock and stores
  -- nothing, whatever the key, the transaction and the state.
  pub apply_entry-spaced :
      (key before after txn : Bytes) (s : MemoryStore B)
      → apply_entry p (prepare_entry key (before ++ b' ' ∷ after) txn) s ≡ s
  apply_entry-spaced key before after txn s =
      prepare_branch key (before ++ b' ' ∷ after) txn s
      ∙ apply_prepare-more (split (prepare_entry key (before ++ b' ' ∷ after) txn) b' ') s
          (length-spaced key before after txn)
