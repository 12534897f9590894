-- ===== src/Run/Examples.antt =====
-- Instances of the dispatch on the run mode.
use remote_mouse.Common.{true, false, [], ◌∷◌, ◌≡◌, refl, if◌then◌else◌, str_eq}
use remote_mouse.Common.Texts.{chars}
use remote_mouse.Config.{AppConfig}
use remote_mouse.Flags.{flag_defaults}
use remote_mouse.StartType.{start_type_from_arg}
use remote_mouse.Run.{
  serve_standalone, serve_ui, run_service, run_agent, probe_desktop, uninstall_service,
  start_service, stop_service, install_service, apply_config, server_config, refuse_start_type,
  start_type_action, run,
}
use remote_mouse.Run.Flagged.{first_set, run_first_flag}

-- -set-start-type with an unknown word, and -service.
abbrev both : AppConfig
both = record (flag_defaults (chars "desk")) { set_start_type = "boot"; service = true }

refuses : run both ≡ refuse_start_type "boot"
unfolding run flag_defaults
refuses = refl

run_first_flag_example :
    run both
    ≡ first_set
        ((both.install_service, install_service (server_config both))
          ∷ (both.uninstall_service, uninstall_service)
          ∷ (both.start_service, start_service)
          ∷ (both.stop_service, stop_service)
          ∷ (
            (if str_eq both.set_start_type "" then false else true),
            start_type_action both.set_start_type (start_type_from_arg both.set_start_type),
          )
          ∷ (both.apply_config, apply_config (server_config both))
          ∷ (both.service, run_service both)
          ∷ (both.agent, run_agent both)
          ∷ (both.probe_desktop, probe_desktop)
          ∷ (both.standalone, serve_standalone both)
          ∷ [])
        (serve_ui both)
run_first_flag_example = run_first_flag both
