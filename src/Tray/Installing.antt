-- ===== src/Tray/Installing.antt =====
-- server/ui_windows.go with server/main.go: the service that the tray's menu installs.
use Prim.Native.Char.{Char}
use remote_mouse.Common.{ℕ, ◌<◌, ◌^◌, List, [], ◌∷◌, ◌++◌, some, ◌≡◌, refl, ap, ◌∙◌, true}
use remote_mouse.Common.Int.{pos}
use remote_mouse.Common.Texts.{chars, text, trim_space}
use remote_mouse.Config.{AppConfig}
use remote_mouse.Decimal.{itoa}
use remote_mouse.CommandLine.{quote, blank, elevated_arg_line}
use remote_mouse.CommandLine.Words.{IsPath}
use remote_mouse.CommandLine.Children.{argv-elevated}
use remote_mouse.Flags.{main_config, parse_args, arguments, flag_defaults}
use remote_mouse.Flags.Started.{parse_pass, parse_port}
use remote_mouse.Run.{Action, run}
use remote_mouse.Tray.{TrayUi, install_triggered}

parse_switch :
    (flag v port n host : List Char)
    → parse_args (chars "-install-service" ∷ flag ∷ v ∷ port ∷ n ∷ []) (flag_defaults host)
      ≡ parse_args
          (flag ∷ v ∷ port ∷ n ∷ [])
          (record (flag_defaults host) { install_service = true })
unfolding parse_args flag_defaults
parse_switch flag v port n host = refl

parse_install :
    (pass : List Char) (n : ℕ) (host : List Char)
    → n < 2 ^ 63
    → parse_args
        (chars "-install-service" ∷ chars "-pass" ∷ pass ∷ chars "-port" ∷ itoa (pos n) ∷ [])
        (flag_defaults host)
      ≡ some
          (record (flag_defaults host) { install_service = true; pass = text pass; port = pos n })
parse_install pass n host h =
    let asked : AppConfig = record (flag_defaults host) { install_service = true } in
    parse_switch (chars "-pass") pass (chars "-port") (itoa (pos n)) host
    ∙ parse_pass pass (chars "-port" ∷ itoa (pos n) ∷ []) asked
    ∙ parse_port n [] (record asked { pass = text pass }) h
    ∙ unfold parse_args in refl

-- The process serves on a port from 0 to 2^63 - 1, and the program's path may stand in quotes. Then
-- the menu's entry that installs the service starts one elevated child, by its path in quotes and its
-- arguments, which installs the service with the password and the port of the process, but, whatever
-- name the process was given, with the host's name without blanks around it.
pub tray_installs_host_name :
    (u : TrayUi) (n : ℕ) (exe host : List Char)
    → u.port ≡ pos n
    → n < 2 ^ 63
    → IsPath exe
    → (args : List (List Char)) × (c : AppConfig) × ((install_triggered u).launched
        ≡ args ∷ u.launched)
      × (main_config host (quote ∷ exe ++ quote ∷ blank ∷ elevated_arg_line args) ≡ some c)
      × (run c
          ≡ Action.install_service
              (record { password = text u.pass; port = pos n; name = text (trim_space host) }))
unfolding install_triggered main_config run
tray_installs_host_name u n exe host port h path = (
  chars "-install-service" ∷ chars "-pass" ∷ u.pass ∷ chars "-port" ∷ itoa (pos n) ∷ [],
  record (flag_defaults host) { install_service = true; pass = text u.pass; port = pos n },
  rw port refl,
  ap (λ (args : List (List Char)). parse_args (arguments args) (flag_defaults host))
        (argv-elevated exe (chars "-install-service")
          (chars "-pass" ∷ u.pass ∷ chars "-port" ∷ itoa (pos n) ∷ []) path)
      ∙ parse_install u.pass n host h,
  unfold flag_defaults in refl,
)
