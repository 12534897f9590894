-- ===== src/Delivery/Examples.antt =====
-- Tests and instances for the delivery of a client's input.
use remote_mouse.Common.{
  ℕ, suc, String, true, false, none, some, List, [], ◌∷◌, ◌++◌, ◌≡◌, refl, arith, if◌then◌else◌,
  str_eq, get_elem?,
}
use remote_mouse.Common.Int.{pos}
use remote_mouse.Proto.{
  Line, Document, object, syntax_error, text, integer, unmarshal, decode_fields, store_pair,
  store_named, store, field_of,
}
use remote_mouse.Inject.{
  called_move_rel, called_text, recorder, apply_event, apply_events, dispatch, kind_of,
}
use remote_mouse.Inject.Fanout.{FanoutWriter}
use remote_mouse.Inject.Pipe.{PipeInjector, new_pipe_injector, pipe, run_agent_loop}
use remote_mouse.Inject.Broadcast.{PipeEnd, pipe_end, fan_out}
use remote_mouse.Server.{Crypto, Server, Conn, wait_hello, derive_proof, unsplit}
use remote_mouse.Delivery.{feed, events}
use remote_mouse.Delivery.Visit.{visit_reaches_agents}

-- A stand-in for the digests: the proof tells whether the password is "1234".
abbrev first_is_one : List ℕ → String
first_is_one (suc n ∷ l) = "right"
first_is_one _ = "wrong"

abbrev crypto : Crypto
crypto = record {
  pbkdf2_key = λ p salt n k. (if str_eq p "1234" then 1 else 0) ∷ salt;
  hmac_sha256 = λ key m. key ++ m;
  base64 = first_is_one;
}

abbrev dead_end : PipeEnd
dead_end = record { broken = true; got = []; deadline = none }

abbrev live_end : PipeEnd
live_end = record { broken = false; got = []; deadline = none }

abbrev phone : Conn
phone = record { addr = unsplit "pipe"; salt = []; nonce = []; phase = wait_hello; sent = [] }

abbrev service : Server (PipeInjector (FanoutWriter PipeEnd))
service = record {
  password = "1234";
  name = "PC";
  inj = new_pipe_injector (some (record { ws = dead_end ∷ live_end ∷ []; timeout = pos 200 }));
  reg = none;
}

abbrev line_with : Document → Line
line_with d = record { size = 100; body = d }

abbrev hello : Line
hello = line_with (object (("t", text "hello") ∷ ("name", text "phone") ∷ []))

abbrev auth : Line
auth = line_with (object (("t", text "auth") ∷ ("proof", text "right") ∷ []))

abbrev lines : List Line
lines =
    line_with (object (("t", text "move") ∷ ("dx", integer (pos 2)) ∷ []))
    ∷ line_with (object (("t", text "ping") ∷ []))
    ∷ line_with syntax_error
    ∷ line_with (object (("t", text "text") ∷ ("s", text "hi") ∷ []))
    ∷ line_with (object (("t", text "bye") ∷ []))
    ∷ line_with (object (("t", text "text") ∷ ("s", text "late") ∷ []))
    ∷ []

events-lines :
    apply_events recorder (events lines) []
    ≡ called_move_rel (pos 2) (pos 0) ∷ called_text "hi" ∷ []
unfolding apply_events apply_event dispatch kind_of events unmarshal decode_fields store_pair
    store_named store field_of
events-lines = refl

visit_reaches_agents_example :
    (f : FanoutWriter PipeEnd) × (v : PipeEnd) × ((feed crypto
        (pipe (fan_out pipe_end 9))
        (pos 0, pos 0)
        9
        (hello ∷ auth ∷ lines)
        phone
        service).1.inj
      ≡ new_pipe_injector (some f))
    × (get_elem? f.ws 1 ≡ some v)
    × (run_agent_loop v.got recorder [] ≡ apply_events recorder (events lines) [])
unfolding events unmarshal decode_fields store_pair store_named store field_of derive_proof
visit_reaches_agents_example =
    visit_reaches_agents crypto (pos 0, pos 0) 9 hello auth lines phone service
      (dead_end ∷ live_end ∷ []) (pos 200) 1 live_end recorder []
      (refl, refl, refl, refl, refl, refl) refl (omega arith) refl refl refl
