-- ===== src/Status/Codec.antt =====
-- server/status.go and the panel's ticker: the devices of the service in the panel.
use remote_mouse.Common.{
  String, none, some, List, [], ◌∷◌, map, ◌≡◌, refl, Has, inl, inr, Option-cases, All,
}
use remote_mouse.Clients.{Client}
use remote_mouse.Status.{
  TimeText, Row, all_of, marshal_client, unmarshal_client, encode_clients, decode_clients,
}

-- The client without its place in the order of registration, which is not sent.
abbrev pub sent_client : Client → Client
sent_client c = record c { seq = 0 }

-- The time has a JSON text, which reads back as it.
abbrev pub HasText : TimeText → Client → Type 0
HasText tx c = (t : String) × (tx.format c.since ≡ some t) × (tx.parse t ≡ some c.since)

all_of_back :
    (tx : TimeText) (cs : List Client)
    → All (HasText tx) cs
    → (rs : List Row) × (all_of (marshal_client tx) cs ≡ some rs)
      × (all_of (unmarshal_client tx) rs ≡ some (map sent_client cs))
unfolding marshal_client unmarshal_client
all_of_back tx [] h = ([], refl, refl)
all_of_back tx (c ∷ cs) ((t, shown, read), h) =
    let (rs, there, back) = all_of_back tx cs h in
    (
      record { name = c.name; addr = c.addr; since = t } ∷ rs,
      rw (shown, there) refl,
      rw (read, back) refl,
    )

-- If the time of every client has a JSON text that reads back as it, then the list that is sent reads
-- back in its order, but for the clients' order of registration.
pub decode-encode_clients :
    (tx : TimeText) (cs : List Client)
    → All (HasText tx) cs
    → decode_clients tx (encode_clients tx cs) ≡ some (map sent_client cs)
unfolding decode_clients encode_clients
decode-encode_clients tx cs h = let (rs, there, back) = all_of_back tx cs h in rw there back

-- A client whose time has no JSON text empties the list.
all_of_fails :
    (tx : TimeText) (cs : List Client) (c : Client)
    → Has c cs
    → tx.format c.since ≡ none
    → all_of (marshal_client tx) cs ≡ none
unfolding marshal_client
all_of_fails tx [] c h bad = elim h [ ]
all_of_fails tx (d ∷ cs) c (inl e) bad = rw (← e) (rw bad refl)
all_of_fails tx (d ∷ cs) c (inr h) bad =
    let rest = all_of_fails tx cs c h bad in
    elim (Option-cases (tx.format d.since)) [
      | inl none_shown ↦ rw none_shown refl
      | inr (t, shown) ↦ rw (shown, rest) refl
    ]

pub unmarshallable_empties_list :
    (tx : TimeText) (cs : List Client) (c : Client)
    → Has c cs
    → tx.format c.since ≡ none
    → decode_clients tx (encode_clients tx cs) ≡ some []
unfolding decode_clients encode_clients
unmarshallable_empties_list tx cs c h bad = rw (all_of_fails tx cs c h bad) refl
