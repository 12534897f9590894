-- ===== src/Server/Examples.antt =====
-- Tests and instances for server/server.go.
use remote_mouse.Common.{
  ℕ, suc, String, true, some, List, [], ◌∷◌, ◌++◌, ◌≡◌, refl, ◌↔◌, ◌⊎◌, arith, if◌then◌else◌,
  str_eq, eq_iff,
}
use remote_mouse.Common.Int.{pos}
use remote_mouse.Proto.{
  Line, Document, object, text, integer, unmarshal, decode_fields, store_pair, store_named, store,
  field_of,
}
use remote_mouse.Inject.{Call, called_move_rel, recorder, apply_event, dispatch, kind_of}
use remote_mouse.Clients.{new_client_registry, register, insert, lookup, notify}
use remote_mouse.Server.{
  Crypto, Server, Conn, Addr, host_port, wait_auth, ready, closed, auth_ok, challenge, error_reply,
  iterations, derive_proof, handle_line, on_line, on_hello, on_auth, on_event, return_from,
  deregister_conn, ip_of, register_in, set_password,
}
use remote_mouse.Server.World.{
  World, Action, accept, line, hang_up, change_password, step, run, on_line_at, on_end_at,
}
use remote_mouse.Server.Handshake.{is_ready, Proves, auth_exact, auth_outcome}
use remote_mouse.Server.Safety.{NoneReady, NeverProves, no_proof_no_input}
use remote_mouse.Server.Counts.{Agrees}
use remote_mouse.Server.Online.{registry-Agrees}

-- A stand-in for the digests: the proof tells whether the password is "1234".
abbrev first_is_one : List ℕ → String
first_is_one (suc n ∷ l) = "right"
first_is_one _ = "wrong"

abbrev crypto : Crypto
crypto = record {
  pbkdf2_key = λ p salt n k. (if str_eq p "1234" then 1 else 0) ∷ salt;
  hmac_sha256 = λ key m. key ++ m;
  base64 = first_is_one;
}

abbrev server : Server (List Call)
server = record { password = "1234"; name = "PC"; inj = []; reg = some new_client_registry }

abbrev phone_addr : Addr
phone_addr = host_port "192.168.1.7" "50000"

abbrev waiting : Conn
waiting = record { addr = phone_addr; salt = []; nonce = []; phase = wait_auth "phone"; sent = [] }

abbrev line_with : Document → Line
line_with d = record { size = 100; body = d }

abbrev hello_line : Line
hello_line = line_with (object (("t", text "hello") ∷ ("name", text "phone") ∷ []))

abbrev auth_line : String → Line
auth_line p = line_with (object (("t", text "auth") ∷ ("proof", text p) ∷ []))

abbrev move_line : Line
move_line = line_with (object (("t", text "move") ∷ ("dx", integer (pos 2)) ∷ []))

abbrev visit : List Action
visit =
    accept phone_addr [] []
    ∷ line 0 5 move_line
    ∷ accept phone_addr [] []
    ∷ line 1 6 hello_line
    ∷ line 1 7 (auth_line "right")
    ∷ line 1 8 move_line
    ∷ change_password "other"
    ∷ line 1 9 move_line
    ∷ []

abbrev fresh_world : World (List Call)
fresh_world = record { server = server; conns = [] }

-- Only the connection that proves the password injects, and it stays up when the password changes.
run-visit :
    let w = run crypto recorder (pos 1920, pos 1080) fresh_world visit in
    (w.server.inj ≡ called_move_rel (pos 2) (pos 0) ∷ called_move_rel (pos 2) (pos 0) ∷ [])
    × (w.conns
        ≡ record {
          addr = phone_addr;
          salt = [];
          nonce = [];
          phase = closed;
          sent = error_reply "bad_hello" "expected hello" ∷ [];
        }
          ∷ record {
            addr = phone_addr;
            salt = [];
            nonce = [];
            phase = ready (some 1);
            sent = challenge "wrong" "wrong" iterations ∷ auth_ok "PC" "0.1" ∷ [];
          }
          ∷ [])
unfolding run step on_line_at on_end_at handle_line on_line on_hello on_auth on_event return_from
    deregister_conn derive_proof ip_of register insert notify new_client_registry unmarshal
    decode_fields store_pair store_named store field_of apply_event dispatch kind_of set_password
run-visit = (refl, refl)

auth_exact_example :
    let (c', s') =
      handle_line crypto recorder (pos 0, pos 0) 7 (auth_line "right") waiting server in
    (s'.inj ≡ [])
    × ((is_ready c'.phase ≡ true)
        ↔ Proves crypto recorder (pos 0, pos 0) (auth_line "right") waiting server)
auth_exact_example =
    auth_exact crypto recorder (pos 0, pos 0) 7 (auth_line "right") waiting server refl

auth_outcome_example :
    let l = auth_line "wrong" in
    let (c', s') = handle_line crypto recorder (pos 0, pos 0) 7 l waiting server in
    let (reg', cid) = register_in (some new_client_registry) "phone" (ip_of phone_addr) 7 in
    (Proves crypto recorder (pos 0, pos 0) l waiting server
      × (c' ≡ record waiting { phase = ready cid; sent = auth_ok "PC" "0.1" ∷ [] })
      × (s' ≡ record server { reg = reg' }))
    ⊎ ((¬ Proves crypto recorder (pos 0, pos 0) l waiting server)
        × (c' ≡ record waiting {
          phase = closed;
          sent = error_reply "auth_failed" "wrong password" ∷ [];
        })
        × (s' ≡ server))
auth_outcome_example =
    auth_outcome crypto recorder (pos 0, pos 0) 7 (auth_line "wrong") waiting server "phone" refl
      refl

abbrev intruder : List Action
intruder =
    accept phone_addr [] []
    ∷ line 0 5 hello_line
    ∷ line 0 6 (auth_line "wrong")
    ∷ line 0 7 move_line
    ∷ hang_up 0
    ∷ []

intruder-NeverProves : NeverProves crypto recorder (pos 0, pos 0) fresh_world intruder
unfolding run step on_line_at on_end_at handle_line on_line on_hello on_auth on_event return_from
    deregister_conn derive_proof unmarshal decode_fields store_pair store_named store field_of
intruder-NeverProves = (
  λ f. f,
  (
    λ (c, e, p). ground arith,
    (
      λ (c, e, p). ground (arith, eq_iff "wrong" "right"),
      (λ (c, e, p). ground arith, (λ f. f, tt)),
    ),
  ),
)

no_proof_no_input_example :
    let w = run crypto recorder (pos 0, pos 0) fresh_world intruder in
    (w.server.inj ≡ []) × NoneReady w.conns
no_proof_no_input_example =
    no_proof_no_input crypto recorder (pos 0, pos 0) fresh_world intruder tt intruder-NeverProves

new-Agrees : Agrees (some new_client_registry) []
unfolding new_client_registry lookup
new-Agrees = (record { used = tt; bounded = omega arith }, λ id. refl)

registry-Agrees_example :
    let w = run crypto recorder (pos 0, pos 0) fresh_world visit in Agrees w.server.reg w.conns
unfolding new_client_registry
registry-Agrees_example =
    registry-Agrees crypto recorder (pos 0, pos 0) fresh_world visit (omega arith) new-Agrees
