-- ===== src/Panel/Opening.antt =====
-- server/ui_panel_windows.go: the panel as it opens, and the buttons that copy and show texts.
use Prim.Native.Char.{Char}
use remote_mouse.Common.{
  String, Bool, true, false, not, none, some, List, [], if◌then◌else◌, str_eq,
}
use remote_mouse.Common.Int.{negsuc}
use remote_mouse.Common.Texts.{chars}
use remote_mouse.Decimal.{itoa}
use remote_mouse.Config.{AppConfig}
use remote_mouse.Autostart.{RunKey, autostart_on}
use remote_mouse.Serving.{Controller}
use remote_mouse.Tray.{or_none_found, join_spaced}
use remote_mouse.Panel.{Panel, Widgets}

-- The widgets once they are built; before its model is set, no row of the combo box is chosen.
unfoldable pub built : AppConfig → String → List String → RunKey → Widgets
unfolding itoa autostart_on
built cfg primary secondary run_key =
    let sec = join_spaced secondary in
    record {
      primary_label = or_none_found primary;
      sec_label = sec;
      expand_enabled = not (str_eq sec "");
      status_label = "查询中…";
      combo_index = negsuc 0;
      combo_enabled = true;
      install_enabled = true;
      start_enabled = true;
      stop_enabled = true;
      uninstall_enabled = true;
      dev_count = "已连接设备 (0)";
      items = [];
      port_text = itoa cfg.port;
      pass_text = chars cfg.pass;
      name_text = chars cfg.name;
      password_mode = true;
      show_text = "显示";
      sec_visible = false;
      window_visible = true;
      login_checked = autostart_on run_key;
    }

module _ {ℓ} {S : Type ℓ} where
  unfoldable pub run_control_panel :
      AppConfig → Controller S → String → List String → RunKey → Panel S
  unfolding built
  run_control_panel cfg ctrl primary secondary run_key = record {
    widgets = built cfg primary secondary run_key;
    apply_guard = false;
    launched = [];
    warnings = [];
    ctrl = ctrl;
    run_key = run_key;
    clipboard = none;
  }

  -- A copy that fails is logged, and leaves the clipboard.
  unfoldable pub copy_clip : Bool → List Char → Panel S → Panel S
  copy_clip ok s p = if ok then record p { clipboard = some s } else p

  unfoldable pub copy_port : Bool → Panel S → Panel S
  unfolding copy_clip
  copy_port ok p = copy_clip ok p.widgets.port_text p

  unfoldable pub copy_name : Bool → Panel S → Panel S
  unfolding copy_clip
  copy_name ok p = copy_clip ok p.widgets.name_text p

  -- The recommended address itself, not its label.
  unfoldable pub copy_primary : Bool → String → Panel S → Panel S
  unfolding copy_clip
  copy_primary ok primary p = copy_clip ok (chars primary) p

  unfoldable pub expand_clicked : Panel S → Panel S
  expand_clicked p =
      if p.widgets.expand_enabled
      then record p { widgets = record p.widgets { sec_visible = not p.widgets.sec_visible } }
      else p
