-- ===== src/Inject/Pipe.antt =====
-- server/pipe_inject.go: the injector that serialises each call onto the pipe to an agent, and the
-- agent's loop over the lines of the pipe.
use remote_mouse.Common.{Option, none, some, List, [], ◌∷◌, ◌++◌, if◌then◌else◌}
use remote_mouse.Proto.{In, zero_in, Object, Line, fits, encode, unmarshal}
use remote_mouse.Proto.Size.{line_of}
use remote_mouse.Inject.{Injector, apply_event}

-- What a pipe injector writes to: an io.Writer.
pub record Writer {ℓ} (W : Type ℓ) : Type ℓ where
  pub write : Line → W → W

-- A stream that keeps the lines written to it, oldest first.
abbrev pub stream : Writer (List Line)
stream = record { write = λ l ls. ls ++ l ∷ [] }

-- `w` is nil until an agent is bound.
pub record PipeInjector {ℓ} (W : Type ℓ) : Type ℓ where
  pub w : Option W

abbrev pub new_pipe_injector {ℓ} : {W : Type ℓ} → Option W → PipeInjector W
new_pipe_injector w = record { w = w }

abbrev pub set_writer {ℓ} : {W : Type ℓ} → Option W → PipeInjector W → PipeInjector W
set_writer w p = record p { w = w }

module _ {ℓ} {W : Type ℓ} (writer : Writer W) where
  abbrev pub write_encoded : Option Object → Option W → Option W
  write_encoded none w = w
  write_encoded (some o) none = none
  write_encoded (some o) (some w) = some (writer.write (line_of o) w)

  -- The lock is held across the write, so an emit is one step.
  unfoldable pub emit : In → PipeInjector W → PipeInjector W
  emit m p = record p { w = write_encoded (encode m) p.w }

  abbrev pub pipe : Injector (PipeInjector W)
  pipe = record {
    move_rel = λ dx dy. emit (record zero_in { t = "move"; dx = dx; dy = dy });
    move_abs = λ nx ny. emit (record zero_in { t = "moveabs"; x = nx; y = ny });
    button = λ b d. emit (record zero_in { t = "button"; b = b; down = some d });
    scroll = λ dx dy. emit (record zero_in { t = "scroll"; dx = dx; dy = dy });
    text = λ s. emit (record zero_in { t = "text"; s = s });
    key =
        λ code mods d. emit (record zero_in { t = "key"; code = code; mods = mods; down = some d });
    close = λ p. p;
  }

-- One line: skipped if decoding it returns an error.
unfoldable pub agent_line {ℓ} : {S : Type ℓ} → Injector S → Line → S → S
agent_line inj l s = let (m, ok) = unmarshal l.body in if ok then apply_event inj m s else s

-- The scanner stops for good at a line that does not fit its buffer, and at the end of the pipe.
unfoldable pub run_agent_loop {ℓ} : {S : Type ℓ} → List Line → Injector S → S → S
run_agent_loop [] inj s = s
run_agent_loop (l ∷ ls) inj s =
    let rest = run_agent_loop ls inj (agent_line inj l s) in if fits l then rest else s
