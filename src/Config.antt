-- ===== src/Config.antt =====
-- server/config_windows.go and server/main.go: the connection config in the Windows registry, the
-- command line's config and the run mode that it selects. `sanitizeName` and flag parsing are left
-- out.
pub mod Store
pub mod Mode
mod Examples
use remote_mouse.Common.{
  ℕ, ◌-◌, ◌%◌, ◌^◌, String, Bool, true, false, Option, none, some, List, [], ◌∷◌, if◌then◌else◌,
  str_eq, ltb,
}
use remote_mouse.Common.Int.{ℤ, pos, negsuc, to_u32}

pub record ServerConfig : Type 0 where
  pub password : String
  pub port : ℤ
  pub name : String

pub record AppConfig : Type 0 where
  pub name : String
  pub pass : String
  pub port : ℤ
  pub notray : Bool
  pub service : Bool
  pub agent : Bool
  pub absolute : Bool
  pub pipe : String
  pub install_service : Bool
  pub uninstall_service : Bool
  pub probe_desktop : Bool
  pub standalone : Bool
  pub inject_log : Bool
  pub start_service : Bool
  pub stop_service : Bool
  pub set_start_type : String
  pub apply_config : Bool

unfoldable pub mode : AppConfig → String
mode c =
    if c.install_service
    then "install-service"
    else if c.uninstall_service
    then "uninstall-service"
    else if c.start_service
    then "start-service"
    else if c.stop_service
    then "stop-service"
    else if (if str_eq c.set_start_type "" then false else true)
    then "set-start-type"
    else if c.apply_config
    then "apply-config"
    else if c.service
    then "service"
    else if c.agent
    then "agent"
    else if c.probe_desktop
    then "probe-desktop"
    else if c.standalone
    then "standalone"
    else "ui"

-- The values under SOFTWARE\RemoteMouse. `port` is a DWORD or a QWORD.
pub record Values : Type 0 where
  pub password : Option String
  pub port : Option ℕ
  pub name : Option String

-- int(n) of a uint64.
unfoldable pub int_of : ℕ → ℤ
int_of n = if ltb n (2 ^ 63) then pos n else negsuc (2 ^ 64 - n - 1)

abbrev pub or_string : Option String → String → String
or_string none d = d
or_string (some s) d = s

abbrev pub or_port : Option ℕ → ℤ → ℤ
or_port none d = d
or_port (some n) d = int_of n

abbrev pub defaults : ServerConfig
defaults = record { password = "1234"; port = pos 27500; name = "" }

-- The key may not open; then the defaults are returned with an error.
unfoldable pub read_config : Option Values → ServerConfig × Bool
read_config none = (defaults, false)
read_config (some k) = (
  record {
    password = or_string k.password defaults.password;
    port = or_port k.port defaults.port;
    name = or_string k.name defaults.name;
  },
  true,
)

-- Which of the four registry calls succeed.
pub record WriteEnv : Type 0 where
  pub create : Bool
  pub set_password : Bool
  pub set_name : Bool
  pub set_port : Bool

abbrev pub no_values : Values
no_values = record { password = none; port = none; name = none }

abbrev pub opened : Option Values → Values
opened none = no_values
opened (some k) = k

-- A failed call returns at once, and what was written before stays.
unfoldable pub write_config : WriteEnv → ServerConfig → Option Values → Option Values × Bool
write_config e cfg root =
    let k0 : Values = opened root in
    let k1 : Values = record k0 { password = some cfg.password } in
    let k2 : Values = record k1 { name = some cfg.name } in
    let k3 : Values = record k2 { port = some (to_u32 cfg.port) } in
    if e.create
    then (if e.set_password
        then (if e.set_name
            then (if e.set_port then (some k3, true) else (some k2, false))
            else (some k1, false))
        else (some k0, false))
    else (root, false)
