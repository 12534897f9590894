-- ===== src/Agent.antt =====
-- server/agent_windows.go: the agent process, from its dial of the service's pipe to the loop over the
-- pipe's lines, which is Inject.Pipe's. The pipe of go-winio is a parameter. The file log is left out
-- but for its name.
mod Dialling
mod Examples
use remote_mouse.Common.{
  ℕ, zero, suc, ◌+◌, String, Bool, true, false, Option, none, some, List, [], ◌∷◌, if◌then◌else◌,
}
use remote_mouse.Config.{AppConfig}
use remote_mouse.WinInjector.{WinInjector, new_injector, new_secure_injector}

abbrev pub dial_attempts : ℕ
dial_attempts = 20

abbrev pub dialled {ℓ} : {C : Type ℓ} → Option C → Option (C × ℕ) → ℕ → Option (C × ℕ)
dialled none rest i = rest
dialled (some c) rest i = some (c, i)

-- The loop from attempt `i` on, with the attempts that are left; `dial i` is what attempt `i` gives.
-- The result is the connection, with the number of attempts that failed before it.
unfoldable pub dial_from {ℓ} : {C : Type ℓ} → (ℕ → Option C) → ℕ → ℕ → Option (C × ℕ)
dial_from dial zero i = none
dial_from dial (suc left) i = let rest = dial_from dial left (suc i) in dialled (dial i) rest i

unfoldable pub dial_inject_pipe {ℓ} : {C : Type ℓ} → (ℕ → Option C) → Option (C × ℕ)
unfolding dial_from
dial_inject_pipe dial = dial_from dial dial_attempts 0

abbrev pub agent_role : AppConfig → String
agent_role cfg = if cfg.absolute then "agent-secure" else "agent-user"

-- How the agent goes into its loop: the log that it writes, the connection, the injector and whether
-- each injection is logged.
pub record AgentStart {ℓ} (C : Type ℓ) : Type ℓ where
  pub role : String
  pub conn : C
  pub inj : WinInjector
  pub verbose : Bool

abbrev pub agent_start {ℓ} : {C : Type ℓ} → AppConfig → Option (C × ℕ) → Option (AgentStart C)
agent_start cfg none = none
agent_start cfg (some (c, i)) = some record {
  role = agent_role cfg;
  conn = c;
  inj = if cfg.absolute then new_secure_injector else new_injector;
  verbose = cfg.inject_log;
}

-- `none`: the agent gave up.
unfoldable pub run_agent {ℓ} : {C : Type ℓ} → AppConfig → (ℕ → Option C) → Option (AgentStart C)
unfolding dial_inject_pipe
run_agent cfg dial = agent_start cfg (dial_inject_pipe dial)
