-- ===== src/Desktop/Examples.antt =====
-- Instances for server/desktop_windows.go.
use remote_mouse.Common.{[], ◌∷◌, ◌≡◌, refl}
use remote_mouse.Desktop.{plan_agents}

plan-unlock : plan_agents ("Winlogon" ∷ "Default" ∷ []) ("Default" ∷ []) ≡ ("Winlogon" ∷ [], [])
unfolding plan_agents
plan-unlock = refl
