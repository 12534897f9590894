-- ===== src/Panel.antt =====
-- server/ui_panel_windows.go: the control panel. A widget is what the code sets on it; walk, the
-- toolkit, is a parameter that tells whether setting a row of the combo box calls the handler of its
-- change. Each handler is one step on the GUI thread. `launched` holds the arguments of the elevated
-- children that were started, the last one first.
pub mod Buttons
pub mod Ticking
pub mod Opening
mod Refresh
mod Fields
mod Saving
mod Devices
mod Examples
use Prim.Native.Char.{Char}
use Prim.Native.String.{◌++◌ as append}
use remote_mouse.Common.{
  ℕ, suc, ◌+◌, ◌-◌, ◌/◌, ◌%◌, String, Bool, true, false, not, ◌&&◌, ◌||◌, Option, none, some, List,
  [], ◌∷◌, ◌++◌, if◌then◌else◌, str_eq, ltb, leb, length,
}
use remote_mouse.Common.Int.{ℤ, pos, negsuc, pos_part}
use remote_mouse.Common.Texts.{chars, text, is_nil, trim_space}
use remote_mouse.Decimal.{itoa, atoi}
use remote_mouse.Config.{ServerConfig}
use remote_mouse.Clients.{Client, ClientRegistry, snapshot}
use remote_mouse.StartType.{start_type_label, start_type_index, start_type_by_index, start_type_arg}
use remote_mouse.Autostart.{RunKey, autostart_on, set_autostart_named, set_autostart}
use remote_mouse.DeviceTable.{count_text}
use remote_mouse.Serving.{Env, Controller, apply, arbitrate}
use remote_mouse.ServiceStatus.{
  Answers, service_running, service_state, service_start_type, service_installed,
}

pub data Warning : Type 0 where
  bad_port empty_password : Warning

pub record Widgets : Type 0 where
  pub primary_label : String
  pub sec_label : String
  pub expand_enabled : Bool
  pub status_label : String
  pub combo_index : ℤ
  pub combo_enabled : Bool
  pub install_enabled : Bool
  pub start_enabled : Bool
  pub stop_enabled : Bool
  pub uninstall_enabled : Bool
  pub dev_count : String
  pub items : List Client
  pub port_text : List Char
  pub pass_text : List Char
  pub name_text : List Char
  pub password_mode : Bool
  pub show_text : String
  pub sec_visible : Bool
  pub window_visible : Bool
  pub login_checked : Bool

pub record Panel {ℓ} (S : Type ℓ) : Type ℓ where
  pub widgets : Widgets
  pub apply_guard : Bool
  pub launched : List (List (List Char))
  pub warnings : List Warning
  pub ctrl : Controller S
  pub run_key : RunKey
  pub clipboard : Option (List Char)

abbrev pub is_row : ℤ → Bool
is_row (pos i) = true
is_row (negsuc i) = false

abbrev pub status_text : String → ℕ → Bool → String
status_text state stype installed =
    if installed
    then append "● " (append state (append "（" (append (start_type_label stype) "）")))
    else "● 未安装"

module _ {ℓ} {S : Type ℓ} where
  unfoldable pub elevated_self : List (List Char) → Panel S → Panel S
  elevated_self args p = record p { launched = args ∷ p.launched }

  -- The handler of the combo box.
  unfoldable pub start_type_changed : Panel S → Panel S
  unfolding elevated_self
  start_type_changed p =
      let t = start_type_by_index p.widgets.combo_index in
      if p.apply_guard
      then p
      else elevated_self (chars "-set-start-type" ∷ chars (start_type_arg t) ∷ []) p

  -- startCombo.SetCurrentIndex; `notifies old new` tells whether the toolkit calls the handler.
  unfoldable pub set_current_index : (ℤ → ℤ → Bool) → ℤ → Panel S → Panel S
  unfolding start_type_changed
  set_current_index notifies i p =
      let p' : Panel S = record p { widgets = record p.widgets { combo_index = i } } in
      if notifies p.widgets.combo_index i then start_type_changed p' else p'

  -- The user chooses row `i`.
  unfoldable pub choose_start_type : ℤ → Panel S → Panel S
  unfolding start_type_changed
  choose_start_type i p =
      start_type_changed (record p { widgets = record p.widgets { combo_index = i } })

  unfoldable pub apply_panel_state :
      (ℤ → ℤ → Bool) → String → ℕ → Bool → List Client → Panel S → Panel S
  unfolding set_current_index
  apply_panel_state notifies state stype installed devices p =
      let i = start_type_index stype in
      let shown = installed && is_row i in
      let labelled : Panel S = record p {
        widgets = record p.widgets { status_label = status_text state stype installed };
        apply_guard = true;
      } in
      let chosen = set_current_index notifies i labelled in
      let q = if shown then chosen else labelled in
      record q {
        apply_guard = false;
        widgets = record q.widgets {
          combo_enabled = shown;
          install_enabled = not installed;
          start_enabled = installed && str_eq state "已停止";
          stop_enabled = installed && str_eq state "运行中";
          uninstall_enabled = installed;
          items = devices;
          dev_count = count_text devices;
        };
      }
