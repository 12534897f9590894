-- ===== src/Inject/Transparent.antt =====
-- server/pipe_inject.go with server/inject_apply.go: the pipe between the service and an agent does
-- not change what is injected.
use mathlib.Core.List.{append_assoc, append-nil}
use remote_mouse.Common.{
  true, false, some, List, [], ◌∷◌, ◌++◌, ◌≡◌, refl, ◌∙◌, sym, ap, All, arith,
}
use remote_mouse.Proto.{In, zero_in, Line, fits, marshal, encode}
use remote_mouse.Proto.RoundTrip.{IsGoMessage, unmarshal-marshal}
use remote_mouse.Proto.Size.{line_of}
use remote_mouse.Inject.{
  Injector, Kind, move, moveabs, button, click, scroll, text, key, other, kind_of, is_down,
  dispatch, apply_event, apply_events,
}
use remote_mouse.Inject.Pipe.{
  stream, PipeInjector, new_pipe_injector, emit, pipe, agent_line, run_agent_loop,
}

-- The lines that the pipe carries for one event.
abbrev pub lines_of : Kind → In → List Line
lines_of move m = line_of (marshal (record zero_in { t = "move"; dx = m.dx; dy = m.dy })) ∷ []
lines_of moveabs m = line_of (marshal (record zero_in { t = "moveabs"; x = m.x; y = m.y })) ∷ []
lines_of button m =
    line_of (marshal (record zero_in { t = "button"; b = m.b; down = some (is_down m.down) })) ∷ []
lines_of click m =
    line_of (marshal (record zero_in { t = "button"; b = m.b; down = some true }))
    ∷ line_of (marshal (record zero_in { t = "button"; b = m.b; down = some false }))
    ∷ []
lines_of scroll m = line_of (marshal (record zero_in { t = "scroll"; dx = m.dx; dy = m.dy })) ∷ []
lines_of text m = line_of (marshal (record zero_in { t = "text"; s = m.s })) ∷ []
lines_of key m =
    line_of (
      marshal
        (record zero_in { t = "key"; code = m.code; mods = m.mods; down = some (is_down m.down) }))
    ∷ []
lines_of other m = []

abbrev carrying : List Line → PipeInjector (List Line)
carrying ls = new_pipe_injector (some ls)

pipe_dispatch :
    (k : Kind) (m : In) (ls : List Line)
    → dispatch (pipe stream) k m (carrying ls) ≡ carrying (ls ++ lines_of k m)
unfolding dispatch emit encode
pipe_dispatch click m ls = ap carrying (append_assoc ls _ _)
pipe_dispatch other m ls = ap carrying (sym (append-nil ls))
pipe_dispatch _ m ls = refl

unfoldable pub lines_of_all : List In → List Line
lines_of_all [] = []
lines_of_all (m ∷ ms) = lines_of (kind_of m.t) m ++ lines_of_all ms

pub pipe_events :
    (ms : List In) (ls : List Line)
    → apply_events (pipe stream) ms (carrying ls) ≡ carrying (ls ++ lines_of_all ms)
unfolding apply_events apply_event lines_of_all
pipe_events [] ls = ap carrying (sym (append-nil ls))
pipe_events (m ∷ ms) ls =
    ap (apply_events (pipe stream) ms) (pipe_dispatch (kind_of m.t) m ls)
    ∙ pipe_events ms (ls ++ lines_of (kind_of m.t) m)
    ∙ ap carrying (append_assoc ls (lines_of (kind_of m.t) m) (lines_of_all ms))

abbrev pub AllFit : List Line → Type 0
AllFit = All (λ l. fits l ≡ true)

AllFit-append : (xs ys : List Line) → AllFit (xs ++ ys) → AllFit xs × AllFit ys
AllFit-append [] ys h = (tt, h)
AllFit-append (x ∷ xs) ys h = let (a, b) = AllFit-append xs ys h.1 in ((h.0, a), b)

module _ {ℓ} {S : Type ℓ} (inj : Injector S) where
  run_agent_loop-append :
      (xs ys : List Line) (s : S)
      → AllFit xs
      → run_agent_loop (xs ++ ys) inj s ≡ run_agent_loop ys inj (run_agent_loop xs inj s)
  unfolding run_agent_loop
  run_agent_loop-append [] ys s h = refl
  run_agent_loop-append (x ∷ xs) ys s h =
      rw h.0 (run_agent_loop-append xs ys (agent_line inj x s) h.1)

  agent-marshal :
      (m : In) (ls : List Line) (s : S)
      → IsGoMessage m
      → fits (line_of (marshal m)) ≡ true
      → run_agent_loop (line_of (marshal m) ∷ ls) inj s
        ≡ run_agent_loop ls inj (apply_event inj m s)
  unfolding run_agent_loop agent_line
  agent-marshal m ls s v h = rw h (rw (unmarshal-marshal m v) refl)

  agent_dispatch :
      (k : Kind) (m : In) (s : S)
      → IsGoMessage m
      → AllFit (lines_of k m)
      → run_agent_loop (lines_of k m) inj s ≡ dispatch inj k m s
  unfolding apply_event dispatch run_agent_loop kind_of
  agent_dispatch move m s v h = agent-marshal _ [] s (ground arith) h.0
  agent_dispatch moveabs m s v h = agent-marshal _ [] s (ground arith) h.0
  agent_dispatch button m s v h = agent-marshal _ [] s (ground arith) h.0
  agent_dispatch click m s v h =
      agent-marshal _
        (line_of (marshal (record zero_in { t = "button"; b = m.b; down = some false })) ∷ []) s
        (ground arith) h.0
      ∙ agent-marshal _ [] _ (ground arith) h.1.0
  agent_dispatch scroll m s v h = agent-marshal _ [] s (ground arith) h.0
  agent_dispatch text m s v h = agent-marshal _ [] s (ground arith) h.0
  agent_dispatch key m s v h = agent-marshal _ [] s (ground arith) h.0
  agent_dispatch other m s v h = refl

  pub agent_events :
      (ms : List In) (s : S)
      → All IsGoMessage ms
      → AllFit (lines_of_all ms)
      → run_agent_loop (lines_of_all ms) inj s ≡ apply_events inj ms s
  unfolding apply_events apply_event lines_of_all
  agent_events [] s v h = unfold run_agent_loop in refl
  agent_events (m ∷ ms) s v h =
      let ls : List Line = lines_of (kind_of m.t) m in
      let (h0, h1) = AllFit-append ls (lines_of_all ms) h in
      run_agent_loop-append ls (lines_of_all ms) s h0
      ∙ ap (run_agent_loop (lines_of_all ms) inj) (agent_dispatch (kind_of m.t) m s v.0 h0)
      ∙ agent_events ms (dispatch inj (kind_of m.t) m s) v.1 h1
