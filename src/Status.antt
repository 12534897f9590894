-- ===== src/Status.antt =====
-- server/status.go and server/status_windows.go: the list of devices that the service answers on its
-- status pipe. The JSON text of a time, RFC 3339 with nanoseconds, is a parameter, and so is the pipe
-- of go-winio; a payload is what its JSON says.
pub mod Codec
mod Examples
use remote_mouse.Common.{
  ℕ, String, Bool, true, false, Option, none, some, List, [], ◌∷◌, map, if◌then◌else◌,
}
use remote_mouse.Clients.{Client, ClientRegistry, snapshot}

-- time.Time's MarshalJSON, which may fail, and UnmarshalJSON.
pub record TimeText : Type 0 where
  pub format : ℕ → Option String
  pub parse : String → Option ℕ

-- The JSON object of a client: its exported fields.
pub record Row : Type 0 where
  pub name : String
  pub addr : String
  pub since : String

-- No bytes, a JSON array of such objects, or anything else.
pub data Payload : Type 0 where
  no_bytes garbled : Payload
  rows : List Row → Payload

abbrev pub cons_of {ℓ} : {A : Type ℓ} → Option A → Option (List A) → Option (List A)
cons_of none rest = none
cons_of (some x) none = none
cons_of (some x) (some xs) = some (x ∷ xs)

-- Every element must convert.
abbrev pub all_of {ℓ κ} : {A : Type ℓ} {B : Type κ} → (A → Option B) → List A → Option (List B)
all_of f [] = some []
all_of f (x ∷ xs) = cons_of (f x) (all_of f xs)

abbrev row_with : Client → Option String → Option Row
row_with c none = none
row_with c (some t) = some (record { name = c.name; addr = c.addr; since = t })

unfoldable pub marshal_client : TimeText → Client → Option Row
marshal_client tx c = row_with c (tx.format c.since)

abbrev client_with : Row → Option ℕ → Option Client
client_with r none = none
client_with r (some t) = some (record { name = r.name; addr = r.addr; since = t; seq = 0 })

unfoldable pub unmarshal_client : TimeText → Row → Option Client
unmarshal_client tx r = client_with r (tx.parse r.since)

-- An error of json.Marshal is answered by an empty array.
abbrev pub or_no_rows : Option (List Row) → Payload
or_no_rows none = rows []
or_no_rows (some rs) = rows rs

unfoldable pub encode_clients : TimeText → List Client → Payload
unfolding marshal_client
encode_clients tx cs = or_no_rows (all_of (marshal_client tx) cs)

unfoldable pub decode_clients : TimeText → Payload → Option (List Client)
unfolding unmarshal_client
decode_clients tx no_bytes = some []
decode_clients tx garbled = none
decode_clients tx (rows rs) = all_of (unmarshal_client tx) rs

-- The answer to one connection of the pipe.
unfoldable pub serve_status : TimeText → ClientRegistry → Payload
unfolding encode_clients
serve_status tx reg = encode_clients tx (snapshot reg)

-- `read` is what the pipe gives: nothing where it cannot be dialled or read.
unfoldable pub query_status_pipe : TimeText → Option Payload → Option (List Client)
unfolding decode_clients
query_status_pipe tx none = none
query_status_pipe tx (some b) = decode_clients tx b
