-- ===== src/Raft/Transport.antt =====
-- internal/raft/transport.go: messages of raft as HTTP requests, from Send to the handler of the peer.
-- The client and raftpb are parameters.
mod Tests
use mathlib.Core.Path.{subst}
use shard_db.Base.{
  ℕ, ◌≡◌, refl, sym, ap, ◌∙◌, true, false, Option, none, some, List, [], ◌∷◌, ◌++◌, All, arith, not,
  if◌then◌else◌, inl, inr, Option-cases, Bool-cases, Bool, ◌⊎◌,
}
use shard_db.Bytes.{Bytes, bytes_equal, codes}
use shard_db.Strings.{has_suffix}
use shard_db.Strings.Suffix.{has_suffix-append, append_of_suffix}
use shard_db.Peers.{PeerMap, Peers, get_peer, put_peer, shard_peers, meta_peers}
use shard_db.Peers.Flag.{
  IsPeer, flag_of, listed, no_peers, last_url, get_peer-listed_all, peers-flag_of,
}

-- What the transport uses of raftpb.Message; `none` is an error.
pub record MessageCodec : Type 1 where
  pub Message : Type 0
  pub to : Message → ℕ
  pub marshal : Message → Option Bytes
  pub unmarshal : Bytes → Option Message

pub record HttpTransport : Type 0 where
  pub peers : PeerMap

-- A POST request: the URL and the body.
pub record Post : Type 0 where
  pub url : Bytes
  pub body : Bytes

-- NewHTTPTransport
unfoldable pub new_http_transport : HttpTransport
new_http_transport = record { peers = [] }

-- AddPeer
unfoldable pub add_peer : ℕ → Bytes → HttpTransport → HttpTransport
add_peer id url t = record t { peers = put_peer id url t.peers }

-- SetPeers
unfoldable pub set_peers : PeerMap → HttpTransport → HttpTransport
set_peers peers t = record t { peers = peers }

unfoldable pub full_url : Bytes → Bytes
full_url url = if not (has_suffix url (codes "/raft")) then url ++ codes "/raft" else url

true_not_false : (b : Bool) → b ≡ true → b ≡ false → ⊥
true_not_false b is is_not = ground arith

module _ (M : MessageCodec) where
  -- the goroutine of a message: the request that it makes, if it makes one
  unfoldable pub post_of : M.Message → HttpTransport → Option Post
  unfolding full_url
  post_of m t = elim (get_peer (M.to m) t.peers) [
    | none ↦ none
    | some url ↦ elim (M.marshal m) [
      | none ↦ none
      | some data_ ↦ some (record { url = full_url url; body = data_ })
    ]
  ]

  -- Send: the requests in the order in which the goroutines are started; nothing waits for them.
  unfoldable pub send : List M.Message → HttpTransport → List Post
  unfolding post_of
  send [] t = []
  send (m ∷ ms) t =
      let rest = send ms t in elim (post_of m t) [ none ↦ rest | some post ↦ post ∷ rest ]

  -- Handler: the status, and the message that the node's Step gets. A body that cannot be read is
  -- `none`. An error of Step is only printed.
  unfoldable pub handler : Bytes → Option Bytes → ℕ × Option M.Message
  handler method body = if not (bytes_equal method (codes "POST")) then (405, none) else elim body [
    | none ↦ (400, none)
    | some data_ ↦ elim (M.unmarshal data_) [ none ↦ (400, none) | some m ↦ (200, some m) ]
  ]

  -- What the handlers at the URLs of the requests do.
  abbrev pub handled : List Post → List (Bytes × (ℕ × Option M.Message))
  handled [] = []
  handled (post ∷ posts) = (post.url, handler (codes "POST") (some post.body)) ∷ handled posts

  -- The URL ends with /raft: it is the address that does, or the address that does not with /raft
  -- behind it.
  abbrev pub IsRaftUrl : Bytes → Bytes → Type 0
  IsRaftUrl addr url =
      ((base : Bytes) × (addr ≡ base ++ codes "/raft") × (url ≡ addr))
      ⊎ (((base : Bytes) → ¬ (addr ≡ base ++ codes "/raft")) × (url ≡ addr ++ codes "/raft"))

  -- What the handlers do is to take each message for a listed peer, in order, at the URL of the last
  -- address that is listed for it, and no other message.
  pub data Delivered (ps : PeerMap)
      : List M.Message → List (Bytes × (ℕ × Option M.Message)) → Type 0 where
    nothing_left : Delivered ps [] []
    not_listed :
        (m : M.Message) (ms : List M.Message) (hs : List (Bytes × (ℕ × Option M.Message)))
        → last_url (M.to m) ps ≡ none
        → Delivered ps ms hs
        → Delivered ps (m ∷ ms) hs
    taken :
        (m : M.Message) (ms : List M.Message) (hs : List (Bytes × (ℕ × Option M.Message)))
        (addr url : Bytes)
        → last_url (M.to m) ps ≡ some addr
        → IsRaftUrl addr url
        → Delivered ps ms hs
        → Delivered ps (m ∷ ms) ((url, (200, some m)) ∷ hs)

  full_url-IsRaftUrl : (addr : Bytes) → IsRaftUrl addr (full_url addr)
  unfolding full_url
  full_url-IsRaftUrl addr = elim (Bool-cases (has_suffix addr (codes "/raft"))) [
    | inl has ↦
        let (base, e) = append_of_suffix addr (codes "/raft") has in inl (base, e, ground arith)
    | inr lacks ↦ inr (
      (λ base e.
          true_not_false (has_suffix addr (codes "/raft"))
            (ap (λ u. has_suffix u (codes "/raft")) e ∙ has_suffix-append base (codes "/raft"))
            lacks),
      ground arith,
    )
  ]

  -- The message can be marshalled, and is what its bytes are unmarshalled to.
  abbrev pub IsCoded : M.Message → Type 0
  IsCoded m = (data_ : Bytes) × (M.marshal m ≡ some data_) × (M.unmarshal data_ ≡ some m)

  handler-post :
      (m : M.Message) (data_ : Bytes)
      → M.unmarshal data_ ≡ some m
      → handler (codes "POST") (some data_) ≡ (200, some m)
  unfolding handler bytes_equal
  handler-post m data_ h = ground arith

  handled-send :
      (ps : PeerMap) (t : HttpTransport) (ms : List M.Message)
      → ((id : ℕ) → get_peer id t.peers ≡ last_url id ps)
      → All IsCoded ms
      → Delivered ps ms (handled (send ms t))
  unfolding send
  handled-send ps t [] same h = nothing_left
  handled-send ps t (m ∷ ms) same h =
      let (data_, coded, decoded) = h.0 in
      let peer = same (M.to m) in
      elim (Option-cases (last_url (M.to m) ps)) [
        | inl unknown ↦
            let same_posts : handled (send (m ∷ ms) t) ≡ handled (send ms t) = ground arith in
            subst (Delivered ps (m ∷ ms)) (sym same_posts)
              (not_listed m ms (handled (send ms t)) unknown (handled-send ps t ms same h.1))
        | inr (addr, known) ↦
            let posts : handled (send (m ∷ ms) t)
                ≡ (full_url addr, (200, some m)) ∷ handled (send ms t) =
              ground (arith, handler-post m data_ decoded) in
            subst (Delivered ps (m ∷ ms)) (sym posts) (
              taken m ms (handled (send ms t)) addr (full_url addr) known (full_url-IsRaftUrl addr)
                (handled-send ps t ms same h.1))
      ]

  -- A flag that lists peers, with ids that are uint64 and addresses without a comma and an equals
  -- sign, is read as the same peers by the shard node, which does not panic, and by the meta node.
  -- The messages of any Send with these peers, if they can be marshalled and unmarshalled, are
  -- posted in order at the last address that is listed for their peer, if it ends with /raft, and
  -- else at this address with /raft behind it, and the handler there answers with status 200 and
  -- hands the same message to Step; a message for a peer that is not listed is dropped.
  pub handler-send :
      (p : ℕ × Bytes) (ps : PeerMap) (t : HttpTransport) (ms : List M.Message)
      → All IsPeer (p ∷ ps)
      → All IsCoded ms
      → let peers = meta_peers (flag_of (p ∷ ps)) in
        (shard_peers (flag_of (p ∷ ps)) ≡ some peers)
        × Delivered (p ∷ ps) ms (handled (send ms (set_peers peers.urls t)))
  unfolding set_peers
  handler-send p ps t ms h coded =
      let (shard, meta) = peers-flag_of p ps h in
      (
        shard ∙ ap some (sym meta),
        subst (λ (q : Peers). Delivered (p ∷ ps) ms (handled (send ms (set_peers q.urls t))))
            (sym meta)
            (handled-send (p ∷ ps) (set_peers (listed (p ∷ ps) no_peers).urls t) ms
              (λ id. get_peer-listed_all id (p ∷ ps)) coded),
      )
