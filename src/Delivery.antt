-- ===== src/Delivery.antt =====
-- server/server.go, server/pipe_inject.go, server/fanout.go and server/inject_apply.go together: what
-- an authenticated client sends to the service, on its way to the agents.
mod Path
mod Visit
mod Examples
use remote_mouse.Common.{
  ℕ, String, Bool, true, false, not, ◌||◌, List, [], ◌∷◌, if◌then◌else◌, str_eq,
}
use remote_mouse.Common.Int.{ℤ}
use remote_mouse.Proto.{In, Decoded, Line, fits, unmarshal}
use remote_mouse.Inject.{Injector}
use remote_mouse.Server.{Crypto, Server, Conn, handle_line}

module _ {ℓ} {S : Type ℓ} (crypto : Crypto) (injector : Injector S) (screen : ℤ × ℤ) where
  -- The scan of `handle` over the lines of one connection.
  unfoldable pub feed : ℕ → List Line → Conn → Server S → Conn × Server S
  feed now [] c s = (c, s)
  feed now (l ∷ ls) c s =
      let (c', s') = handle_line crypto injector screen now l c s in feed now ls c' s'

-- What the client asks to be injected: the messages that decode, but for the two that are answered,
-- up to a "bye" or a line that is too long.
abbrev pub event_before : Decoded → List In → List In
event_before (m, false) rest = rest
event_before (m, true) rest =
    if str_eq m.t "ping"
    then rest
    else if str_eq m.t "getscreen"
    then rest
    else if str_eq m.t "bye"
    then []
    else m ∷ rest

unfoldable pub events : List Line → List In
events [] = []
events (l ∷ ls) =
    let rest = event_before (unmarshal l.body) (events ls) in if fits l then rest else []
