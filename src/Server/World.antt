-- ===== src/Server/World.antt =====
-- server/server.go: the server with its connections. `Serve` runs each connection in a goroutine of
-- its own; a history is any interleaving of accepted connections, lines, ends of input and calls of
-- SetPassword and SetName.
use remote_mouse.Common.{ℕ, String, Option, none, some, List, [], ◌∷◌, ◌++◌, get_elem?, set}
use remote_mouse.Common.Int.{ℤ}
use remote_mouse.Proto.{Line}
use remote_mouse.Inject.{Injector}
use remote_mouse.Server.{
  Crypto, Server, Addr, Conn, wait_hello, set_password, set_name, handle_line, return_from,
}

pub record World {ℓ} (S : Type ℓ) : Type ℓ where
  pub server : Server S
  pub conns : List Conn

pub data Action : Type 0 where
  accept : Addr → List ℕ → List ℕ → Action
  line : ℕ → ℕ → Line → Action
  hang_up : ℕ → Action
  change_password : String → Action
  change_name : String → Action

abbrev pub new_conn : Addr → List ℕ → List ℕ → Conn
new_conn addr salt nonce = record {
  addr = addr;
  salt = salt;
  nonce = nonce;
  phase = wait_hello;
  sent = [];
}

abbrev pub put_conn {ℓ} : {S : Type ℓ} → ℕ → World S → Conn × Server S → World S
put_conn i w (c, s) = record { server = s; conns = set w.conns i c }

module _ {ℓ} {S : Type ℓ} (crypto : Crypto) (injector : Injector S) (screen : ℤ × ℤ) where
  -- A line for connection `i`, read at time `now`.
  unfoldable pub on_line_at : ℕ → ℕ → Line → World S → Option Conn → World S
  on_line_at i now l w none = w
  on_line_at i now l w (some c) = put_conn i w (handle_line crypto injector screen now l c w.server)

  unfoldable pub on_end_at : ℕ → World S → Option Conn → World S
  on_end_at i w none = w
  on_end_at i w (some c) = put_conn i w (return_from c w.server)

  unfoldable pub step : World S → Action → World S
  step w (accept addr salt nonce) = record w { conns = w.conns ++ new_conn addr salt nonce ∷ [] }
  step w (line i now l) = on_line_at i now l w (get_elem? w.conns i)
  step w (hang_up i) = on_end_at i w (get_elem? w.conns i)
  step w (change_password p) = record w { server = set_password p w.server }
  step w (change_name n) = record w { server = set_name n w.server }

  unfoldable pub run : World S → List Action → World S
  run w [] = w
  run w (a ∷ rest) = run (step w a) rest
