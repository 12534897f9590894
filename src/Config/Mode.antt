-- ===== src/Config/Mode.antt =====
-- server/main.go: the order of the run modes.
use remote_mouse.Common.{true, false, ◌≡◌, arith, eq_iff, ◌↔◌}
use remote_mouse.Config.{AppConfig, mode}

-- No installation, start, stop or configuration is asked for.
abbrev pub NoAdmin : AppConfig → Type 0
NoAdmin c =
    (c.install_service ≡ false)
    × (c.uninstall_service ≡ false)
    × (c.start_service ≡ false)
    × (c.stop_service ≡ false)
    × (c.set_start_type ≡ "")
    × (c.apply_config ≡ false)

-- The process runs as the service just if it is told to and no administrative flag is given: each
-- of those wins over -service, and -service over the other modes.
pub mode-service_iff : (c : AppConfig) → (mode c ≡ "service") ↔ ((c.service ≡ true) × NoAdmin c)
unfolding mode
mode-service_iff c = (
  λ h. ground (
    arith,
    eq_iff c.set_start_type "",
    eq_iff "install-service" "service",
    eq_iff "uninstall-service" "service",
    eq_iff "start-service" "service",
    eq_iff "stop-service" "service",
    eq_iff "set-start-type" "service",
    eq_iff "apply-config" "service",
    eq_iff "agent" "service",
    eq_iff "probe-desktop" "service",
    eq_iff "standalone" "service",
    eq_iff "ui" "service",
  ),
  λ h. ground (arith, eq_iff c.set_start_type ""),
)
