-- ===== src/Panel/Ticking.antt =====
-- server/ui_panel_windows.go: the callback of the registry and the ticker of the panel.
use remote_mouse.Common.{Bool, Option, none, some, List, [], if◌then◌else◌}
use remote_mouse.Common.Int.{ℤ}
use remote_mouse.Clients.{Client, ClientRegistry, snapshot}
use remote_mouse.DeviceTable.{count_text}
use remote_mouse.Serving.{Env, arbitrate}
use remote_mouse.ServiceStatus.{Answers, service_running, service_state, service_start_type}
use remote_mouse.Panel.{Panel, apply_panel_state}

abbrev pub snapshot_of : Option ClientRegistry → List Client
snapshot_of none = []
snapshot_of (some reg) = snapshot reg

abbrev pub or_empty : Option (List Client) → List Client
or_empty none = []
or_empty (some list) = list

-- What one tick learns: the answers to the three queries, and the list that the status pipe gives
-- where it can be read.
pub record Observed : Type 0 where
  pub running : Answers
  pub state : Answers
  pub start_type : Answers
  pub piped : Option (List Client)

module _ {ℓ} {S : Type ℓ} where
  -- The callback of the registry.
  unfoldable pub devices_changed : Panel S → Panel S
  devices_changed p =
      let devices = snapshot_of p.ctrl.reg in
      if p.ctrl.running
      then record p {
        widgets = record p.widgets { items = devices; dev_count = count_text devices };
      }
      else p

  unfoldable pub tick : S → Env → (ℤ → ℤ → Bool) → Observed → Panel S → Panel S
  unfolding service_running service_state service_start_type apply_panel_state arbitrate
  tick new_injector e notifies o p =
      let c = arbitrate new_injector (service_running o.running).0 e p.ctrl in
      let (stype, installed) = (service_start_type o.start_type).0 in
      let devices = if c.running then snapshot_of c.reg else or_empty o.piped in
      apply_panel_state notifies (service_state o.state).0 stype installed devices
        (record p { ctrl = c })
