-- ===== src/Panel/Saving.antt =====
-- server/ui_panel_windows.go with server/main.go and server/service_windows.go: the values in the
-- fields of the panel on their way to the service.
use Prim.Native.Char.{Char}
use remote_mouse.Common.{
  ℕ, ◌≤◌, ◌<◌, true, false, Option, some, List, [], ◌∷◌, ◌++◌, if◌then◌else◌, str_eq, ◌≡◌, ◌⊎◌,
  refl, ap, ◌∙◌, arith, Bool-cases, inl, inr,
}
use remote_mouse.Common.Int.{pos}
use remote_mouse.Common.Texts.{chars, text, is_nil, trim_space}
use remote_mouse.Decimal.{itoa, atoi}
use remote_mouse.Config.{AppConfig, ServerConfig, Values, WriteEnv, mode, read_config, write_config}
use remote_mouse.CommandLine.{quote, blank, autostart_cmd, elevated_arg_line}
use remote_mouse.CommandLine.Words.{IsPath}
use remote_mouse.CommandLine.Children.{argv-elevated}
use remote_mouse.Flags.{main_config, parse_args, arguments, flag_defaults}
use remote_mouse.Flags.Started.{parse_pass, parse_port, autostart_config}
use remote_mouse.Run.{run, apply_config}
use remote_mouse.Service.{Manager, apply_config_elevated}
use remote_mouse.Service.Setup.{apply_config_persists}
use remote_mouse.Serving.{Env, apply}
use remote_mouse.ServiceStatus.{Answers, service_installed, with_stored}
use remote_mouse.Panel.{Panel, Warning}
use remote_mouse.Panel.Buttons.{save_valid, save_clicked, install_clicked, install_valid}
use remote_mouse.Panel.Fields.{HasFields, read_conn_invalid, read_conn_valid}

abbrev pub settings : List Char → ℕ → List Char → ServerConfig
settings pass n name = record { password = text pass; port = pos n; name = text name }

-- The arguments of the elevated child that stores the settings.
abbrev pub apply_args : List Char → ℕ → List Char → List (List Char)
apply_args pass n name =
    chars "-apply-config"
    ∷ chars "-pass"
    ∷ pass
    ∷ chars "-port"
    ∷ itoa (pos n)
    ∷ chars "-name"
    ∷ name
    ∷ []

parse_switch :
    (pass v port n flag name : List Char) (host : List Char)
    → parse_args
        (chars "-apply-config" ∷ pass ∷ v ∷ port ∷ n ∷ flag ∷ name ∷ [])
        (flag_defaults host)
      ≡ parse_args
          (pass ∷ v ∷ port ∷ n ∷ flag ∷ name ∷ [])
          (record (flag_defaults host) { apply_config = true })
unfolding parse_args flag_defaults
parse_switch pass v port n flag name host = refl

parse_apply :
    (pass : List Char) (n : ℕ) (name host : List Char)
    → n ≤ 65535
    → parse_args (apply_args pass n name) (flag_defaults host)
      ≡ some (record (flag_defaults host) {
        apply_config = true;
        pass = text pass;
        port = pos n;
        name = text name;
      })
parse_apply pass n name host h =
    let asked : AppConfig = record (flag_defaults host) { apply_config = true } in
    parse_switch (chars "-pass") pass (chars "-port") (itoa (pos n)) (chars "-name") name host
    ∙ parse_pass pass (chars "-port" ∷ itoa (pos n) ∷ chars "-name" ∷ name ∷ []) asked
    ∙ parse_port n (chars "-name" ∷ name ∷ []) (record asked { pass = text pass }) (omega arith)
    ∙ unfold parse_args in refl

with_stored_kept :
    (root : Option Values) (cfg : ServerConfig) (flags : AppConfig)
    → read_config root ≡ (cfg, true)
    → with_stored root flags ≡ record flags {
      pass = cfg.password;
      port = cfg.port;
      name = if str_eq cfg.name "" then flags.name else cfg.name;
    }
unfolding with_stored
with_stored_kept root cfg flags h = elim (Bool-cases (str_eq cfg.name "")) [
  | inl e ↦ rw (h, e) refl
  | inr e ↦ rw (h, e) refl
]

module _ {ℓ} {S : Type ℓ} where
  -- The service is installed, the fields hold a port from 1 to 65535 and a password, the program's
  -- path may stand in quotes and the registry can be written. Then "save and apply" starts one
  -- elevated child, by its path in quotes and its arguments, which stores exactly those settings, the
  -- name without blanks around it; and the service that reads what the child leaves in the registry
  -- uses that password and port, and that name unless it is empty.
  pub saved_settings_reach_service {κ} :
      {M : Type κ} (mgr : Manager M) (m : M) (late : ℕ → ℕ) (we : WriteEnv) (root : Option Values)
      (exe host : List Char) (a : Answers) (e : Env) (p : Panel S) (n : ℕ) (flags : AppConfig)
      → HasFields p n
      → (service_installed a).0 ≡ true
      → IsPath exe
      → (write_config we (settings p.widgets.pass_text n (trim_space p.widgets.name_text)) root).1
        ≡ true
      → let cfg = settings p.widgets.pass_text n (trim_space p.widgets.name_text) in
        (args : List (List Char)) × (c : AppConfig) × ((save_clicked exe a e p).launched
          ≡ args ∷ p.launched)
        × (main_config host (quote ∷ exe ++ quote ∷ blank ∷ elevated_arg_line args) ≡ some c)
        × (run c ≡ apply_config cfg)
        × (with_stored (apply_config_elevated mgr we cfg late (root, m)).0.0 flags ≡ record flags {
          pass = cfg.password;
          port = cfg.port;
          name = if str_eq cfg.name "" then flags.name else cfg.name;
        })
  unfolding save_clicked main_config run
  saved_settings_reach_service mgr m late we root exe host a e p n flags h there path written =
      let name = trim_space p.widgets.name_text in
      let cfg = settings p.widgets.pass_text n name in
      let kept = apply_config_persists mgr we cfg late root m n refl (omega arith) written in
      (
        apply_args p.widgets.pass_text n name,
        record (flag_defaults host) {
          apply_config = true;
          pass = text p.widgets.pass_text;
          port = pos n;
          name = text name;
        },
        rw (there, read_conn_valid p n h) refl,
        ap (λ (args : List (List Char)). parse_args (arguments args) (flag_defaults host))
              (argv-elevated exe (chars "-apply-config")
                (chars "-pass"
                  ∷ p.widgets.pass_text
                  ∷ chars "-port"
                  ∷ itoa (pos n)
                  ∷ chars "-name"
                  ∷ name
                  ∷ [])
                path)
            ∙ parse_apply p.widgets.pass_text n name host h.2,
        unfold flag_defaults in refl,
        with_stored_kept (apply_config_elevated mgr we cfg late (root, m)).0.0 cfg flags kept.0,
      )

  -- The service is not installed, the panel opens at login, and the fields hold a port from 1 to
  -- 65535 and a password. Then "save and apply" starts no elevated child and gives the settings to the
  -- controller, the name without blanks around it; and the command that is started at the next login
  -- opens the panel with that password and port, and with that name unless it is blank.
  pub saved_settings_reach_login :
      (exe host : List Char) (a : Answers) (e : Env) (p : Panel S) (n : ℕ) (old : List Char)
      → HasFields p n
      → (service_installed a).0 ≡ false
      → p.run_key ≡ some (some old)
      → let name = trim_space p.widgets.name_text in
        let q = save_clicked exe a e p in
        (cmd : List Char) × (c : AppConfig) × (q.launched ≡ p.launched)
        × (q.ctrl ≡ apply e (settings p.widgets.pass_text n name) p.ctrl)
        × (q.run_key ≡ some (some cmd))
        × (main_config host cmd ≡ some c)
        × (c.pass ≡ text p.widgets.pass_text)
        × (c.port ≡ pos n)
        × (c.name ≡ (if is_nil (trim_space name) then text (trim_space host) else text name))
        × (mode c ≡ "ui")
  unfolding save_clicked
  saved_settings_reach_login exe host a e p n old h missing on =
      let name = trim_space p.widgets.name_text in
      let (c, parsed, pass, port, named, shown) =
        autostart_config exe p.widgets.pass_text n name host (omega arith) in
      (
        autostart_cmd exe p.widgets.pass_text (pos n) name,
        c,
        rw (missing, read_conn_valid p n h, on) refl,
        rw (missing, read_conn_valid p n h, on) refl,
        rw (missing, read_conn_valid p n h, on) refl,
        parsed,
        pass,
        port,
        named,
        shown,
      )

  -- Where the field for the port holds no number from 1 to 65535, or the field for the password is
  -- empty, "save and apply" and "install" show one warning and change nothing else.
  pub invalid_fields_change_nothing :
      (exe : List Char) (a : Answers) (e : Env) (p : Panel S)
      → (((n : ℕ) → atoi (trim_space p.widgets.port_text) ≡ some (pos n) → (n < 1) ⊎ (65535 < n))
          ⊎ (p.widgets.pass_text ≡ []))
      → (w : Warning) × (save_clicked exe a e p ≡ record p { warnings = w ∷ p.warnings })
        × (install_clicked p ≡ record p { warnings = w ∷ p.warnings })
  unfolding save_clicked install_clicked
  invalid_fields_change_nothing exe a e p h =
      let (w, r) = read_conn_invalid p h in
      (w, ap (save_valid exe (service_installed a).0 e) r, ap install_valid r)
