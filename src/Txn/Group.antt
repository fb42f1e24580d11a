-- ===== src/Txn/Group.antt =====
-- The grouping of a transaction's writes by shard.
use shard_db.Base.{
  ◌≡◌, refl, ap, ◌∙◌, Option, none, some, List, [], ◌∷◌, ◌++◌, append_assoc, arith, if◌then◌else◌,
}
use shard_db.Bytes.{Bytes, bytes_equal}
use shard_db.Bytes.Order.{eq_of_equal}
use shard_db.Dict
use shard_db.Dict.{Dict}
use shard_db.Router.{Router, locate}
use shard_db.Txn.{WriteIntent, group_by_shard, group_of}

-- The writes whose keys the router places at the address, in their order.
abbrev pub writes_at : Router → Bytes → List WriteIntent → List WriteIntent
writes_at r addr [] = []
writes_at r addr (w ∷ ws) =
    let rest = writes_at r addr ws in if bytes_equal (locate w.key r) addr then w ∷ rest else rest

-- The group of an address: no entry where there are no writes.
abbrev pub entry : Option (List WriteIntent) → List WriteIntent → Option (List WriteIntent)
entry o [] = o
entry none (w ∷ ws) = some (w ∷ ws)
entry (some g) (w ∷ ws) = some (g ++ w ∷ ws)

entry_step :
    (o : Option (List WriteIntent)) (w : WriteIntent) (ws : List WriteIntent)
    → entry (some (group_of o ++ w ∷ [])) ws ≡ entry o (w ∷ ws)
entry_step none w [] = refl
entry_step none w (x ∷ ws) = refl
entry_step (some g) w [] = refl
entry_step (some g) w (x ∷ ws) = ap some (append_assoc g (w ∷ []) (x ∷ ws))

get-group_step :
    (r : Router) (addr : Bytes) (w : WriteIntent) (ws : List WriteIntent)
    (groups : Dict (List WriteIntent))
    → entry
        (Dict.get addr (
          Dict.put (locate w.key r) (group_of (Dict.get (locate w.key r) groups) ++ w ∷ []) groups))
        (writes_at r addr ws)
      ≡ entry (Dict.get addr groups) (writes_at r addr (w ∷ ws))
get-group_step r addr w ws groups =
    let addr' = locate w.key r in
    ground (
      arith,
      Dict.get-put addr' addr (group_of (Dict.get addr' groups) ++ w ∷ []) groups,
      eq_of_equal addr' addr,
      entry_step (Dict.get addr' groups) w (writes_at r addr ws),
    )

get-group_from :
    (r : Router) (addr : Bytes) (ws : List WriteIntent) (groups : Dict (List WriteIntent))
    → Dict.get addr (group_by_shard r ws groups)
      ≡ entry (Dict.get addr groups) (writes_at r addr ws)
unfolding group_by_shard
get-group_from r addr [] groups = refl
get-group_from r addr (w ∷ ws) groups =
    get-group_from r addr ws _ ∙ get-group_step r addr w ws groups

-- The group of an address holds exactly the writes whose keys the router places there, in the order
-- in which they were buffered; an address with no such write has no group.
pub get-group_by_shard :
    (r : Router) (addr : Bytes) (ws : List WriteIntent)
    → Dict.get addr (group_by_shard r ws []) ≡ entry none (writes_at r addr ws)
unfolding Dict.get
get-group_by_shard r addr ws = get-group_from r addr ws []
