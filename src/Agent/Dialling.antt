-- ===== src/Agent/Dialling.antt =====
-- server/agent_windows.go with server/spawn_windows.go: the agent finds the service's pipe, and takes
-- the injector of its desktop.
use Prim.Native.Char.{Char}
use remote_mouse.Common.{
  ℕ, zero, suc, ◌+◌, ◌≤◌, ◌<◌, Bool, true, Option, none, some, List, if◌then◌else◌, ◌≡◌, refl, sym,
  ap, ◌∙◌, arith, subst,
}
use remote_mouse.Common.Texts.{text}
use remote_mouse.CommandLine.{agent_command}
use remote_mouse.CommandLine.Words.{IsPath, IsWord}
use remote_mouse.Flags.{main_config, flag_defaults}
use remote_mouse.Flags.Started.{spawned_agent_config}
use remote_mouse.Run.{Action, run}
use remote_mouse.Config.{AppConfig}
use remote_mouse.WinInjector.{new_injector, new_secure_injector}
use remote_mouse.Agent.{dial_attempts, dial_from, run_agent}

module _ {ℓ} {C : Type ℓ} (dial : ℕ → Option C) where
  dial_from_first :
      (skip left i k : ℕ) (c : C)
      → k ≡ skip + i
      → dial k ≡ some c
      → ((j : ℕ) → i ≤ j → j < k → dial j ≡ none)
      → skip < left
      → dial_from dial left i ≡ some (c, k)
  unfolding dial_from
  dial_from_first skip zero i k c e h b lt = absurd (omega arith)
  dial_from_first zero (suc left) i k c e h b lt =
      let here : k ≡ i = omega arith in
      let connected : dial i ≡ some c = subst (λ (j : ℕ). dial j ≡ some c) here h in
      rw connected (ap (λ (j : ℕ). some (c, j)) (sym here))
  dial_from_first (suc skip) (suc left) i k c e h b lt = rw (b i (omega arith) (omega arith)) (
      dial_from_first skip left (suc i) k c (omega arith) h (λ j lo hi. b j (omega arith) hi)
        (omega arith))

  dial_from-none :
      (left i : ℕ) → ((j : ℕ) → i ≤ j → j < left + i → dial j ≡ none) → dial_from dial left i ≡ none
  unfolding dial_from
  dial_from-none zero i b = refl
  dial_from-none (suc left) i b =
      rw (b i (omega arith) (omega arith))
        (dial_from-none left (suc i) (λ j lo hi. b j (omega arith) (omega arith)))

-- The service spawns an agent by the program's path, which may stand in quotes, and a pipe whose name
-- has no quotes or blanks. The process runs as an agent. If one of its 20 dials succeeds, it goes on
-- with the connection of the first that does, with the injector of the secure desktop and that log
-- just if it is told to use absolute positions, and logs injections just if it is told to; if none
-- does, it gives up.
pub spawned_agent_starts {ℓ} :
    {C : Type ℓ} (dial : ℕ → Option C) (exe pipe host : List Char) (absolute inject_log : Bool)
    → IsPath exe
    → IsWord pipe
    → (cfg : AppConfig) × (main_config host (agent_command exe pipe absolute inject_log) ≡ some cfg)
      × (cfg.pipe ≡ text pipe)
      × (run cfg ≡ Action.run_agent cfg)
      × ((k : ℕ) (c : C)
          → k < 20
          → dial k ≡ some c
          → ((j : ℕ) → j < k → dial j ≡ none)
          → run_agent cfg dial
            ≡ some record {
              role = if absolute then "agent-secure" else "agent-user";
              conn = c;
              inj = if absolute then new_secure_injector else new_injector;
              verbose = inject_log;
            })
      × (((j : ℕ) → j < 20 → dial j ≡ none) → run_agent cfg dial ≡ none)
unfolding run_agent run flag_defaults
spawned_agent_starts dial exe pipe host absolute inject_log p w =
    let (cfg, parsed, eq, agent) = spawned_agent_config exe pipe absolute inject_log host p w in
    (
      record (flag_defaults host) {
        agent = true;
        pipe = text pipe;
        absolute = absolute;
        inject_log = inject_log;
      },
      parsed ∙ ap some eq,
      refl,
      refl,
      λ k c lt here before.
          rw
            (dial_from_first dial k dial_attempts 0 k c (omega arith) here (λ j lo hi. before j hi)
              lt)
            refl,
      λ never. rw (dial_from-none dial dial_attempts 0 (λ j lo hi. never j (omega arith))) refl,
    )
