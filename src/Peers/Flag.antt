-- ===== src/Peers/Flag.antt =====
-- A flag that lists peers, and what the two programs read from it.
use shard_db.Base.{
  ℕ, ◌≡◌, refl, ap, ◌∙◌, false, Option, none, some, List, [], ◌∷◌, ◌++◌, ◌==◌, ◌<◌, ◌^◌, All,
  All-imp, All-append, arith, leb, or_else, true, length, length-append, if◌then◌else◌,
}
use shard_db.Bytes.{Bytes, codes}
use shard_db.Decimal.{format_decimal, format_decimal-IsDigit, scan_uint64-format_decimal}
use shard_db.Strings.{split, join}
use shard_db.Strings.Split.{Lacks, split-field, split-last, split-join}
use shard_db.Peers.{
  PeerMap, Peers, add_pair, get_peer, put_peer, shard_parts, shard_peers, meta_parts, meta_peers,
}

-- The text of a peer, and of a list of peers.
abbrev pub part_of : ℕ × Bytes → Bytes
part_of (id, url) = format_decimal id ++ b'=' ∷ url

abbrev pub parts_of : PeerMap → List Bytes
parts_of [] = []
parts_of (p ∷ ps) = part_of p ∷ parts_of ps

abbrev pub flag_of : PeerMap → Bytes
flag_of ps = join (parts_of ps) (codes ",")

-- The id is a uint64, and the address has no comma and no equals sign.
abbrev pub IsPeer : ℕ × Bytes → Type 0
IsPeer (id, url) = (id < 2 ^ 64) × Lacks b',' url × Lacks b'=' url

-- The listed peers; of two with the same id the address of the later.
abbrev pub listed : PeerMap → Peers → Peers
listed [] p = p
listed ((id, url) ∷ ps) p =
    listed ps (record { urls = put_peer id url p.urls; ids = p.ids ++ id ∷ [] })

equals-Lacks : (n : ℕ) → Lacks b'=' (format_decimal n)
equals-Lacks n = All-imp (λ d h. ground arith) (format_decimal n) (format_decimal-IsDigit n)

comma-Lacks : (n : ℕ) → Lacks b',' (format_decimal n)
comma-Lacks n = All-imp (λ d h. ground arith) (format_decimal n) (format_decimal-IsDigit n)

split-part_of :
    (id : ℕ) (url : Bytes)
    → Lacks b'=' url
    → split (part_of (id, url)) b'=' ≡ format_decimal id ∷ url ∷ []
split-part_of id url h =
    split-field (format_decimal id) url b'=' (equals-Lacks id)
    ∙ ap (λ l. format_decimal id ∷ l) (split-last url b'=' h)

parts-Lacks : (ps : PeerMap) → All IsPeer ps → All (Lacks b',') (parts_of ps)
parts-Lacks [] h = tt
parts-Lacks ((id, url) ∷ ps) h = (
  All-append (λ c. (c == b',') ≡ false) (format_decimal id) (b'=' ∷ url) (comma-Lacks id)
      (refl, h.0.1),
  parts-Lacks ps h.1,
)

split-flag_of :
    (p : ℕ × Bytes) (ps : PeerMap)
    → All IsPeer (p ∷ ps)
    → split (flag_of (p ∷ ps)) b',' ≡ parts_of (p ∷ ps)
split-flag_of p ps h = split-join (part_of p) (parts_of ps) b',' (parts-Lacks (p ∷ ps) h)

add_pair-format :
    (id : ℕ) (url : Bytes) (p : Peers)
    → id < 2 ^ 64
    → add_pair (format_decimal id) url p
      ≡ record { urls = put_peer id url p.urls; ids = p.ids ++ id ∷ [] }
unfolding add_pair
add_pair-format id url p h = rw (scan_uint64-format_decimal id h) refl

shard_parts-parts_of :
    (ps : PeerMap) (p : Peers) → All IsPeer ps → shard_parts (parts_of ps) p ≡ some (listed ps p)
unfolding shard_parts
shard_parts-parts_of [] p h = refl
shard_parts-parts_of ((id, url) ∷ ps) p h = ground (
  arith,
  split-part_of id url h.0.2,
  add_pair-format id url p h.0.0,
  shard_parts-parts_of ps (record { urls = put_peer id url p.urls; ids = p.ids ++ id ∷ [] }) h.1,
)

meta_parts-parts_of :
    (ps : PeerMap) (p : Peers) → All IsPeer ps → meta_parts (parts_of ps) p ≡ listed ps p
unfolding meta_parts
meta_parts-parts_of [] p h = refl
meta_parts-parts_of ((id, url) ∷ ps) p h = ground (
  arith,
  split-part_of id url h.0.2,
  add_pair-format id url p h.0.0,
  meta_parts-parts_of ps (record { urls = put_peer id url p.urls; ids = p.ids ++ id ∷ [] }) h.1,
)

-- The last address that is listed for the id.
abbrev pub last_url : ℕ → PeerMap → Option Bytes
last_url id [] = none
last_url id ((j, url) ∷ ps) = or_else (last_url id ps) (if j == id then some url else none)

get_peer-put_peer :
    (id j : ℕ) (url : Bytes) (m : PeerMap)
    → get_peer id (put_peer j url m) ≡ (if j == id then some url else get_peer id m)
unfolding get_peer put_peer
get_peer-put_peer id j url [] = refl
get_peer-put_peer id j url ((k, other) ∷ rest) = ground (arith, get_peer-put_peer id j url rest)

get_peer-listed :
    (id : ℕ) (ps : PeerMap) (p : Peers)
    → get_peer id (listed ps p).urls ≡ or_else (last_url id ps) (get_peer id p.urls)
get_peer-listed id [] p = refl
get_peer-listed id ((j, url) ∷ ps) p = ground (
  arith,
  get_peer-listed id ps (record { urls = put_peer j url p.urls; ids = p.ids ++ j ∷ [] }),
  get_peer-put_peer id j url p.urls,
)

abbrev pub no_peers : Peers
no_peers = record { urls = []; ids = [] }

pub get_peer-listed_all :
    (id : ℕ) (ps : PeerMap) → get_peer id (listed ps no_peers).urls ≡ last_url id ps
unfolding get_peer
get_peer-listed_all id ps = ground (arith, get_peer-listed id ps no_peers)

shard_peers-split :
    (b part : Bytes) (parts : List Bytes)
    → split b b',' ≡ part ∷ parts
    → leb 1 (length part) ≡ true
    → shard_peers b ≡ shard_parts (part ∷ parts) no_peers
unfolding shard_peers split
shard_peers-split [] part parts e long = absurd (ground arith)
shard_peers-split (c ∷ cs) part parts e long = ap (λ ps. shard_parts ps no_peers) e

-- Both programs read the listed peers.
pub peers-flag_of :
    (p : ℕ × Bytes) (ps : PeerMap)
    → All IsPeer (p ∷ ps)
    → (shard_peers (flag_of (p ∷ ps)) ≡ some (listed (p ∷ ps) no_peers))
      × (meta_peers (flag_of (p ∷ ps)) ≡ listed (p ∷ ps) no_peers)
unfolding meta_peers
peers-flag_of p ps h =
    let fields = split-flag_of p ps h in
    (
      shard_peers-split (flag_of (p ∷ ps)) (part_of p) (parts_of ps) fields
            (ground (arith, length-append (format_decimal p.0) (b'=' ∷ p.1)))
          ∙ shard_parts-parts_of (p ∷ ps) no_peers h,
      ap (λ l. meta_parts l no_peers) fields ∙ meta_parts-parts_of (p ∷ ps) no_peers h,
    )
