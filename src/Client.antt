-- ===== src/Client.antt =====
-- cmd/tools/verify_*: the client programs that call the servers, or a store, and print what they see.
-- What a client sends over HTTP is answered by a parameter, which has a state of its own.
pub mod Gc
pub mod Migration
pub mod Scatter
pub mod TwoPhase
mod Tests
use shard_db.Base.{ℕ, Option, none, List, [], ◌∷◌, ◌++◌, Bool, true, false, ◌||◌}
use shard_db.Base.Result.{Result, ok, err}
use shard_db.Bytes.{Bytes, codes}
use shard_db.Decimal.{format_decimal}
use shard_db.Sql.{Row}
use shard_db.Strings.{has_prefix}

pub record HttpResponse : Type 0 where
  pub status_code : ℕ
  pub body : Bytes

-- The servers and the libraries: the answer to a request, or the text of the error; what a pause of
-- some milliseconds does; url.QueryEscape; and the rows after json.Unmarshal, whose error is not
-- looked at.
pub record Web (W : Type 0) : Type 0 where
  pub do_request : Bytes → Bytes → Option Bytes → W → W × Result Bytes HttpResponse
  pub sleep : ℕ → W → W
  pub query_escape : Bytes → Bytes
  pub unmarshal_rows : Bytes → List Row

-- A client on its way: the servers, and the lines that are printed so far.
pub record Session (W : Type 0) : Type 0 where
  pub world : W
  pub lines : List Bytes

module _ {W : Type 0} where
  -- fmt.Println, or fmt.Printf with a line
  unfoldable pub print_line : Bytes → Session W → Session W
  print_line line s = record s { lines = s.lines ++ line ∷ [] }

  unfoldable pub pause : Web W → ℕ → Session W → Session W
  pause web ms s = record s { world = web.sleep ms s.world }

-- `method url -> `, which starts a line on a request
abbrev pub arrow : Bytes → Bytes → Bytes
arrow method url = method ++ (codes " " ++ (url ++ codes " -> "))

-- a status as a line shows it
abbrev pub shown : HttpResponse → Bytes
shown resp = format_decimal resp.status_code ++ (codes ": " ++ resp.body)

-- strings.Contains
unfoldable pub contains : Bytes → Bytes → Bool
contains [] substr = has_prefix [] substr
contains (c ∷ cs) substr = has_prefix (c ∷ cs) substr || contains cs substr
