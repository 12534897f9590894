-- ===== src/Server.antt =====
-- server/server.go: the control server. `handle` is a state machine that is fed the lines of one
-- connection; what it sends is a list of replies. Logs and write deadlines are left out. The
-- digests and base64 are parameters, and so is the platform's injector.
pub mod Handshake
pub mod World
pub mod Safety
pub mod Counts
pub mod Turns
pub mod Online
mod Examples
use remote_mouse.Common.{
  ℕ, String, Bool, true, false, ◌&&◌, Option, none, some, List, [], ◌∷◌, ◌++◌, if◌then◌else◌,
  str_eq,
}
use remote_mouse.Common.Int.{ℤ}
use remote_mouse.Proto.{In, Line, fits, Decoded, unmarshal}
use remote_mouse.Inject.{Injector, apply_event}
use remote_mouse.Clients.{ClientRegistry, register, deregister}

-- pbkdf2.Key with SHA-256 (password, salt, iterations, length), HMAC-SHA256 and base64.
pub record Crypto : Type 0 where
  pub pbkdf2_key : String → List ℕ → ℕ → ℕ → List ℕ
  pub hmac_sha256 : List ℕ → List ℕ → List ℕ
  pub base64 : List ℕ → String

abbrev pub iterations : ℕ
iterations = 100000

unfoldable pub derive_proof : Crypto → String → List ℕ → List ℕ → String
derive_proof c password salt nonce =
    c.base64 (c.hmac_sha256 (c.pbkdf2_key password salt iterations 32) nonce)

-- `inj` is the state of the injector; `reg` may be nil.
pub record Server {ℓ} (S : Type ℓ) : Type ℓ where
  pub password : String
  pub name : String
  pub inj : S
  pub reg : Option ClientRegistry

unfoldable pub set_password {ℓ} : {S : Type ℓ} → String → Server S → Server S
set_password p s = record s { password = p }

unfoldable pub set_name {ℓ} : {S : Type ℓ} → String → Server S → Server S
set_name n s = record s { name = n }

-- An address that net.SplitHostPort takes apart, or not.
pub data Addr : Type 0 where
  host_port : String → String → Addr
  unsplit : String → Addr

unfoldable pub ip_of : Addr → String
ip_of (host_port host port) = host
ip_of (unsplit a) = a

pub data Reply : Type 0 where
  error_reply : String → String → Reply
  challenge : String → String → ℕ → Reply
  auth_ok : String → String → Reply
  pong : ℤ → Reply
  screen_reply : ℤ → ℤ → Reply

-- Where `handle` waits for the next line. `ready` holds the id of the registration, if there is one.
pub data Phase : Type 0 where
  wait_hello : Phase
  wait_auth : String → Phase
  ready : Option ℕ → Phase
  closed : Phase

-- `salt` and `nonce` are the random bytes of this connection.
pub record Conn : Type 0 where
  pub addr : Addr
  pub salt : List ℕ
  pub nonce : List ℕ
  pub phase : Phase
  pub sent : List Reply

abbrev pub send : Reply → Conn → Conn
send r c = record c { sent = c.sent ++ r ∷ [] }

-- `defer s.reg.Deregister(cid)`.
abbrev pub deregister_in : ℕ → Option ClientRegistry → Option ClientRegistry
deregister_in cid none = none
deregister_in cid (some r) = some (deregister cid r)

unfoldable pub deregister_conn {ℓ} : {S : Type ℓ} → Phase → Server S → Server S
deregister_conn (ready (some cid)) s = record s { reg = deregister_in cid s.reg }
deregister_conn wait_hello s = s
deregister_conn (wait_auth n) s = s
deregister_conn (ready none) s = s
deregister_conn closed s = s

-- `handle` returns: its deferred calls run.
unfoldable pub return_from {ℓ} : {S : Type ℓ} → Conn → Server S → Conn × Server S
return_from c s = (record c { phase = closed }, deregister_conn c.phase s)

abbrev pub register_in :
    Option ClientRegistry → String → String → ℕ → Option ClientRegistry × Option ℕ
register_in none name addr now = (none, none)
register_in (some r) name addr now = let (r', cid) = register name addr now r in (some r', some cid)

module _ {ℓ} {S : Type ℓ} (crypto : Crypto) (injector : Injector S) (screen : ℤ × ℤ) where
  -- The first line: the error of json.Unmarshal is dropped, the type is not.
  unfoldable pub on_hello : Decoded → Conn → Server S → Conn × Server S
  on_hello (hello, ok) c s =
      if str_eq hello.t "hello"
      then (
        record (send (challenge (crypto.base64 c.salt) (crypto.base64 c.nonce) iterations) c) {
          phase = wait_auth hello.name;
        },
        s,
      )
      else return_from (send (error_reply "bad_hello" "expected hello") c) s

  -- The second line, checked against the password of this moment.
  unfoldable pub on_auth : String → ℕ → Decoded → Conn → Server S → Conn × Server S
  on_auth name now (auth, ok) c s =
      let want = derive_proof crypto s.password c.salt c.nonce in
      let (reg', cid) = register_in s.reg name (ip_of c.addr) now in
      if str_eq auth.t "auth" && str_eq auth.proof want
      then (record (send (auth_ok s.name "0.1") c) { phase = ready cid }, record s { reg = reg' })
      else return_from (send (error_reply "auth_failed" "wrong password") c) s

  -- Any later line; one that does not decode is skipped.
  unfoldable pub on_event : Decoded → Conn → Server S → Conn × Server S
  on_event (m, false) c s = (c, s)
  on_event (m, true) c s =
      if str_eq m.t "ping"
      then (send (pong m.ts) c, s)
      else if str_eq m.t "getscreen"
      then (send (screen_reply screen.0 screen.1) c, s)
      else if str_eq m.t "bye"
      then return_from c s
      else (c, record s { inj = apply_event injector m s.inj })

  unfoldable pub on_line : Phase → ℕ → Decoded → Conn → Server S → Conn × Server S
  on_line wait_hello now d c s = on_hello d c s
  on_line (wait_auth name) now d c s = on_auth name now d c s
  on_line (ready cid) now d c s = on_event d c s
  on_line closed now d c s = (c, s)

  -- One turn of `handle`: a line that does not fit the buffer ends the scan.
  unfoldable pub handle_line : ℕ → Line → Conn → Server S → Conn × Server S
  handle_line now l c s =
      if fits l then on_line c.phase now (unmarshal l.body) c s else return_from c s
