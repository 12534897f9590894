-- ===== src/Agent/Examples.antt =====
-- Instances and tests for the agent process.
use remote_mouse.Common.{ℕ, ◌<◌, Option, none, some, ◌≡◌, refl, ltb, if◌then◌else◌, true, false}
use remote_mouse.Common.Texts.{chars}
use remote_mouse.Config.{AppConfig}
use remote_mouse.WinInjector.{new_secure_injector}
use remote_mouse.CommandLine.{agent_command}
use remote_mouse.Flags.{main_config}
use remote_mouse.Run.{Action, run}
use remote_mouse.Agent.{dial_inject_pipe, run_agent}
use remote_mouse.Agent.Dialling.{spawned_agent_starts}

-- The service listens from the fourth attempt on.
abbrev late : ℕ → Option ℕ
late i = if ltb i 3 then none else some i

fourth : dial_inject_pipe late ≡ some (3, 3)
unfolding dial_inject_pipe
fourth = refl

spawned_agent_starts_example :
    (cfg : AppConfig) × (main_config
        (chars "desk")
        (agent_command (chars "C:\\Program Files\\rm.exe") (chars "\\\\.\\pipe\\p") true false)
      ≡ some cfg)
    × (cfg.pipe ≡ "\\\\.\\pipe\\p")
    × (run cfg ≡ Action.run_agent cfg)
    × ((k c : ℕ)
        → k < 20
        → late k ≡ some c
        → ((j : ℕ) → j < k → late j ≡ none)
        → run_agent cfg late
          ≡ some record {
            role = "agent-secure";
            conn = c;
            inj = new_secure_injector;
            verbose = false;
          })
    × (((j : ℕ) → j < 20 → late j ≡ none) → run_agent cfg late ≡ none)
spawned_agent_starts_example =
    spawned_agent_starts late (chars "C:\\Program Files\\rm.exe") (chars "\\\\.\\pipe\\p")
      (chars "desk") true false (refl, refl) (refl, refl, λ e. cc)
