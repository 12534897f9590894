-- ===== src/Service/Setup.antt =====
-- server/service_windows.go: what installing and configuring the service leaves behind.
use remote_mouse.Common.{
  ℕ, ◌<◌, ◌^◌, true, false, Option, ◌≡◌, refl, arith, if◌then◌else◌, Bool-cases, inl, inr,
}
use remote_mouse.Common.Int.{pos}
use remote_mouse.Config.{ServerConfig, Values, WriteEnv, read_config, write_config}
use remote_mouse.Config.Store.{read-write_config}
use remote_mouse.Service.{
  Manager, reachable, restart_service, install_service, apply_config_elevated,
}

module _ {ℓ} {M : Type ℓ} (mgr : Manager M) where
  -- If the config can be written and its port is not negative and below 2^32, then applying it leaves
  -- it in the registry, whatever becomes of the restart; and the service is restarted just if it ran,
  -- with the result of the restart, and otherwise left as it was with no error.
  pub apply_config_persists :
      (e : WriteEnv) (cfg : ServerConfig) (late : ℕ → ℕ) (root : Option Values) (m : M) (port : ℕ)
      → cfg.port ≡ pos port
      → port < 2 ^ 32
      → (write_config e cfg root).1 ≡ true
      → let ((root', m'), ok) = apply_config_elevated mgr e cfg late (root, m) in
        (read_config root' ≡ (cfg, true))
        × ((m', ok) ≡ (if mgr.is_running m then restart_service mgr late m else (m, true)))
  unfolding apply_config_elevated
  apply_config_persists e cfg late root m port p small done =
      let kept = read-write_config e cfg root port p small done in
      elim (Bool-cases (mgr.is_running m)) [
        | inl r ↦ rw (done, r) (kept, refl)
        | inr r ↦ rw (done, r) (kept, refl)
      ]

  -- Installing a service that exists already is an error and asks nothing of the manager, but the
  -- config is in the registry all the same, if it could be written and its port is not negative and
  -- below 2^32: the installed service takes it up at its next start.
  pub install_over_installed_writes_config :
      (e : WriteEnv) (cfg : ServerConfig) (root : Option Values) (m : M) (port : ℕ)
      → cfg.port ≡ pos port
      → port < 2 ^ 32
      → (write_config e cfg root).1 ≡ true
      → reachable mgr m ≡ true
      → let ((root', m'), ok) = install_service mgr e cfg (root, m) in
        (ok ≡ false) × (m' ≡ m) × (read_config root' ≡ (cfg, true))
  unfolding install_service
  install_over_installed_writes_config e cfg root m port p small done there =
      let kept = read-write_config e cfg root port p small done in
      let c : mgr.connect m ≡ true = ground arith in
      let o : mgr.open_service m ≡ true = ground arith in rw (done, c, o) (refl, refl, kept)
