-- ===== src/Run/Flagged.antt =====
-- server/run_windows.go: the action of the process by its flags.
use remote_mouse.Common.{Bool, true, false, List, [], ◌∷◌, if◌then◌else◌, str_eq, map, ◌≡◌, refl}
use remote_mouse.Config.{AppConfig, mode}
use remote_mouse.StartType.{start_type_from_arg}
use remote_mouse.Run.{
  serve_standalone, serve_ui, run_service, run_agent, probe_desktop, uninstall_service,
  start_service, stop_service, install_service, apply_config, server_config, start_type_action,
  run_in, run,
}

-- The first flag that is set decides.
abbrev pub first_set {ℓ} : {A : Type ℓ} → List (Bool × A) → A → A
first_set [] other = other
first_set ((b, a) ∷ as') other = let rest = first_set as' other in if b then a else rest

first_set-map {ℓ κ} :
    {A : Type ℓ} {B : Type κ} (f : A → B) (xs : List (Bool × A)) (other : A)
    → f (first_set xs other) ≡ first_set (map (λ x. (x.0, f x.1)) xs) (f other)
first_set-map f [] other = refl
first_set-map f ((true, a) ∷ xs) other = refl
first_set-map f ((false, a) ∷ xs) other = first_set-map f xs other

-- The process does what the first of these flags asks for that is set: -install-service,
-- -uninstall-service, -start-service, -stop-service, -set-start-type, -apply-config, -service,
-- -agent, -probe-desktop, -standalone; with none of them it shows the panel.
pub run_first_flag :
    (c : AppConfig)
    → run c
      ≡ first_set
          ((c.install_service, install_service (server_config c))
            ∷ (c.uninstall_service, uninstall_service)
            ∷ (c.start_service, start_service)
            ∷ (c.stop_service, stop_service)
            ∷ (
              (if str_eq c.set_start_type "" then false else true),
              start_type_action c.set_start_type (start_type_from_arg c.set_start_type),
            )
            ∷ (c.apply_config, apply_config (server_config c))
            ∷ (c.service, run_service c)
            ∷ (c.agent, run_agent c)
            ∷ (c.probe_desktop, probe_desktop)
            ∷ (c.standalone, serve_standalone c)
            ∷ [])
          (serve_ui c)
unfolding run mode
run_first_flag c =
    first_set-map (run_in c)
      ((c.install_service, "install-service")
        ∷ (c.uninstall_service, "uninstall-service")
        ∷ (c.start_service, "start-service")
        ∷ (c.stop_service, "stop-service")
        ∷ ((if str_eq c.set_start_type "" then false else true), "set-start-type")
        ∷ (c.apply_config, "apply-config")
        ∷ (c.service, "service")
        ∷ (c.agent, "agent")
        ∷ (c.probe_desktop, "probe-desktop")
        ∷ (c.standalone, "standalone")
        ∷ [])
      "ui"
