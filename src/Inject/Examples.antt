-- ===== src/Inject/Examples.antt =====
-- Tests and instances for server/inject_apply.go, server/pipe_inject.go and server/fanout.go.
use remote_mouse.Common.{
  ℕ, zero, suc, ◌*◌, String, true, false, some, List, [], ◌∷◌, ◌≡◌, refl, All, arith,
}
use remote_mouse.Common.Int.{pos, negsuc}
use remote_mouse.Proto.{In, zero_in, Line}
use remote_mouse.Proto.RoundTrip.{IsGoMessage}
use remote_mouse.Proto.Size.{text_size, char_size}
use remote_mouse.Inject.{
  called_move_rel, called_button, called_text, recorder, apply_events, apply_event, dispatch,
  kind_of,
}
use remote_mouse.Inject.Pipe.{stream, new_pipe_injector, pipe, run_agent_loop}
use remote_mouse.Inject.Sizes.{IsShort, short_messages_reach_agent, long_text_stops_agent}

abbrev drag : List In
drag =
    record zero_in { t = "move"; dx = pos 3; dy = negsuc 4 }
    ∷ record zero_in { t = "click"; b = "right" }
    ∷ record zero_in { t = "text"; s = "hé" }
    ∷ record zero_in { t = "unknown" }
    ∷ []

apply_events-drag :
    apply_events recorder drag []
    ≡ called_move_rel (pos 3) (negsuc 4)
      ∷ called_button "right" true
      ∷ called_button "right" false
      ∷ called_text "hé"
      ∷ []
unfolding apply_events apply_event dispatch kind_of
apply_events-drag = refl

drag-IsGoMessage : All IsGoMessage drag
drag-IsGoMessage = ground arith

drag-IsShort : All IsShort drag
drag-IsShort = omega arith

short_messages_reach_agent_example :
    (ls : List Line) × (apply_events (pipe stream) drag (new_pipe_injector (some []))
      ≡ new_pipe_injector (some ls))
    × (run_agent_loop ls recorder [] ≡ apply_events recorder drag [])
short_messages_reach_agent_example =
    short_messages_reach_agent recorder drag [] drag-IsGoMessage drag-IsShort

-- `n` characters that are escaped to six bytes each.
angles : ℕ → String
angles zero = ""
angles (suc n) = String.◌∷◌ "<" (angles n)

text_size-angles : (n : ℕ) → text_size (angles n) ≡ 6 * n
unfolding angles text_size char_size
text_size-angles zero = omega arith
text_size-angles (suc n) = omega (arith, text_size-angles n)

-- It has 180000 characters, and the line that brought it to the server can hold it unescaped.
abbrev long_text : In
long_text = record zero_in { t = "text"; s = angles 180000 }

long_text_stops_agent_example :
    (ls : List Line) × (apply_events (pipe stream) (long_text ∷ drag) (new_pipe_injector (some []))
      ≡ new_pipe_injector (some ls))
    × (run_agent_loop ls recorder [] ≡ [])
long_text_stops_agent_example =
    long_text_stops_agent recorder long_text drag [] refl (omega (arith, text_size-angles 180000))
