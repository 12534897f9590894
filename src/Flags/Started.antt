-- ===== src/Flags/Started.antt =====
-- The configuration with which the child processes of server/ start: the agent on a desktop, the
-- program at login and the elevated child of the panel.
use Prim.Native.Char.{Char}
use remote_mouse.Common.{
  ℕ, ◌<◌, ◌^◌, Bool, true, false, some, List, [], ◌∷◌, if◌then◌else◌, ◌≡◌, refl, ap, ◌∙◌,
  Bool-cases, inl, inr,
}
use remote_mouse.Common.Int.{pos}
use remote_mouse.Common.Texts.{chars, text, is_nil, trim_space}
use remote_mouse.Config.{AppConfig, mode}
use remote_mouse.Decimal.{itoa}
use remote_mouse.Decimal.Itoa.{parse_int-itoa}
use remote_mouse.CommandLine.{agent_command, autostart_cmd}
use remote_mouse.CommandLine.Words.{IsWord, IsPath}
use remote_mouse.CommandLine.Children.{
  agent_words, autostart_args, argv-agent_command, argv-autostart_cmd,
}
use remote_mouse.Flags.{parse_args, main_config, arguments, flag_defaults}

pub parse_pass :
    (v : List Char) (rest : List (List Char)) (c : AppConfig)
    → parse_args (chars "-pass" ∷ v ∷ rest) c ≡ parse_args rest (record c { pass = text v })
unfolding parse_args
parse_pass v rest c = refl

pub parse_port :
    (n : ℕ) (rest : List (List Char)) (c : AppConfig)
    → n < 2 ^ 63
    → parse_args (chars "-port" ∷ itoa (pos n) ∷ rest) c
      ≡ parse_args rest (record c { port = pos n })
unfolding parse_args
parse_port n rest c h = rw (parse_int-itoa n h) refl

parse_agent_defaults :
    (pipe : List Char) (absolute inject_log : Bool) (exe host : List Char)
    → parse_args (arguments (agent_words exe pipe absolute inject_log)) (flag_defaults host)
      ≡ some (record (flag_defaults host) {
        agent = true;
        pipe = text pipe;
        absolute = absolute;
        inject_log = inject_log;
      })
unfolding parse_args agent_words flag_defaults
parse_agent_defaults pipe true true exe host = refl
parse_agent_defaults pipe true false exe host = refl
parse_agent_defaults pipe false true exe host = refl
parse_agent_defaults pipe false false exe host = refl

-- The path of the program may stand in quotes, and the pipe's name has no quotes or blanks: then the
-- agent that the service spawns runs in the mode "agent" with that pipe, with absolute positions just
-- on the secure desktop and the injection log just if it is asked for, and otherwise with the
-- defaults.
pub spawned_agent_config :
    (exe pipe : List Char) (absolute inject_log : Bool) (host : List Char)
    → IsPath exe
    → IsWord pipe
    → (c : AppConfig) × (main_config host (agent_command exe pipe absolute inject_log) ≡ some c)
      × (c ≡ record (flag_defaults host) {
        agent = true;
        pipe = text pipe;
        absolute = absolute;
        inject_log = inject_log;
      })
      × (mode c ≡ "agent")
unfolding main_config mode flag_defaults
spawned_agent_config exe pipe absolute inject_log host p w = (
  record (flag_defaults host) {
    agent = true;
    pipe = text pipe;
    absolute = absolute;
    inject_log = inject_log;
  },
  ap (λ (args : List (List Char)). parse_args (arguments args) (flag_defaults host))
        (argv-agent_command exe pipe absolute inject_log p w)
      ∙ parse_agent_defaults pipe absolute inject_log exe host,
  refl,
  refl,
)

parse_autostart :
    (exe pass : List Char) (port : ℕ) (name : List Char) (c : AppConfig)
    → port < 2 ^ 63
    → parse_args (arguments (autostart_args exe pass (pos port) name)) c
      ≡ some (record c {
        pass = text pass;
        port = pos port;
        name = if is_nil (trim_space name) then c.name else text name;
      })
unfolding autostart_args
parse_autostart exe pass port name c h = elim (Bool-cases (is_nil (trim_space name))) [
  | inl blank_name ↦ rw blank_name (
      parse_pass pass (chars "-port" ∷ itoa (pos port) ∷ []) c
      ∙ parse_port port [] (record c { pass = text pass }) h
      ∙ unfold parse_args in refl)
  | inr named ↦ rw named (
      parse_pass pass (chars "-port" ∷ itoa (pos port) ∷ chars "-name" ∷ name ∷ []) c
      ∙ parse_port port (chars "-name" ∷ name ∷ []) (record c { pass = text pass }) h
      ∙ unfold parse_args in refl)
]

-- A program that the login entry starts, with a port from 0 to 2^63 - 1, runs the panel with the
-- entry's password and port, and with its name unless that is blank; the default name is the host's.
pub autostart_config :
    (exe pass : List Char) (port : ℕ) (name host : List Char)
    → port < 2 ^ 63
    → (c : AppConfig) × (main_config host (autostart_cmd exe pass (pos port) name) ≡ some c)
      × (c.pass ≡ text pass)
      × (c.port ≡ pos port)
      × (c.name ≡ (if is_nil (trim_space name) then text (trim_space host) else text name))
      × (mode c ≡ "ui")
unfolding main_config flag_defaults mode
autostart_config exe pass port name host h = (
  record (flag_defaults host) {
    pass = text pass;
    port = pos port;
    name = if is_nil (trim_space name) then text (trim_space host) else text name;
  },
  ap (λ (args : List (List Char)). parse_args (arguments args) (flag_defaults host))
        (argv-autostart_cmd exe pass (pos port) name)
      ∙ parse_autostart exe pass port name (flag_defaults host) h,
  refl,
  refl,
  refl,
  refl,
)
