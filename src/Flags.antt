-- ===== src/Flags.antt =====
-- server/main.go: the flags of the program and how package flag of Go's library reads them. A failure
-- ends the process, as does a request for help.
pub mod Started
mod Examples
use Prim.Native.Char.{Char}
use remote_mouse.Common.{
  String, Bool, true, false, not, ◌&&◌, ◌||◌, Option, none, some, List, [], ◌∷◌, if◌then◌else◌,
  str_eq,
}
use remote_mouse.Common.Int.{ℤ, pos}
use remote_mouse.Common.Texts.{is_char, is_nil, text, trim_space}
use remote_mouse.Config.{AppConfig}
use remote_mouse.Decimal.{parse_int}
use remote_mouse.CommandLine.{command_line_to_argv}

pub data Flag : Type 0 where
  string_var : (String → AppConfig → AppConfig) → Flag
  int_var : (ℤ → AppConfig → AppConfig) → Flag
  bool_var : (Bool → AppConfig → AppConfig) → Flag

unfoldable pub string_flag : String → Option Flag
string_flag n =
    if str_eq n "name"
    then some (string_var (λ v c. record c { name = v }))
    else if str_eq n "pass"
    then some (string_var (λ v c. record c { pass = v }))
    else if str_eq n "port"
    then some (int_var (λ v c. record c { port = v }))
    else if str_eq n "pipe"
    then some (string_var (λ v c. record c { pipe = v }))
    else if str_eq n "set-start-type"
    then some (string_var (λ v c. record c { set_start_type = v }))
    else none

unfoldable pub bool_flag : String → Option Flag
bool_flag n =
    if str_eq n "notray"
    then some (bool_var (λ v c. record c { notray = v }))
    else if str_eq n "service"
    then some (bool_var (λ v c. record c { service = v }))
    else if str_eq n "agent"
    then some (bool_var (λ v c. record c { agent = v }))
    else if str_eq n "absolute"
    then some (bool_var (λ v c. record c { absolute = v }))
    else if str_eq n "install-service"
    then some (bool_var (λ v c. record c { install_service = v }))
    else if str_eq n "uninstall-service"
    then some (bool_var (λ v c. record c { uninstall_service = v }))
    else if str_eq n "probe-desktop"
    then some (bool_var (λ v c. record c { probe_desktop = v }))
    else if str_eq n "standalone"
    then some (bool_var (λ v c. record c { standalone = v }))
    else if str_eq n "injectlog"
    then some (bool_var (λ v c. record c { inject_log = v }))
    else if str_eq n "start-service"
    then some (bool_var (λ v c. record c { start_service = v }))
    else if str_eq n "stop-service"
    then some (bool_var (λ v c. record c { stop_service = v }))
    else if str_eq n "apply-config"
    then some (bool_var (λ v c. record c { apply_config = v }))
    else none

abbrev pub or_else {ℓ} : {A : Type ℓ} → Option A → Option A → Option A
or_else none o = o
or_else (some a) o = some a

-- The flags that main declares.
unfoldable pub formal : String → Option Flag
unfolding string_flag bool_flag
formal n = or_else (string_flag n) (bool_flag n)

unfoldable pub sanitize_name : List Char → List Char
unfolding trim_space
sanitize_name n = trim_space n

-- The defaults; `host` is the host name.
unfoldable pub flag_defaults : List Char → AppConfig
unfolding sanitize_name
flag_defaults host = record {
  name = text (sanitize_name host);
  pass = "1234";
  port = pos 27500;
  notray = false;
  service = false;
  agent = false;
  absolute = false;
  pipe = "\\\\.\\pipe\\remotemouse-inject";
  install_service = false;
  uninstall_service = false;
  probe_desktop = false;
  standalone = false;
  inject_log = false;
  start_service = false;
  stop_service = false;
  set_start_type = "";
  apply_config = false;
}

-- strconv.ParseBool.
unfoldable pub parse_bool : String → Option Bool
parse_bool s =
    if str_eq s "1"
      || str_eq s "t"
      || str_eq s "T"
      || str_eq s "true"
      || str_eq s "TRUE"
      || str_eq s "True"
    then some true
    else if str_eq s "0"
        || str_eq s "f"
        || str_eq s "F"
        || str_eq s "false"
        || str_eq s "FALSE"
        || str_eq s "False"
    then some false
    else none

abbrev pub set_by {ℓ} :
    {A : Type ℓ} → (A → AppConfig → AppConfig) → Option A → AppConfig → Option AppConfig
set_by set none c = none
set_by set (some v) c = some (set v c)

-- The flag's Value.Set.
unfoldable pub set_value : Flag → List Char → AppConfig → Option AppConfig
unfolding parse_bool parse_int
set_value (string_var set) v c = some (set (text v) c)
set_value (int_var set) v c = set_by set (parse_int v) c
set_value (bool_var set) v c = set_by set (parse_bool (text v)) c

-- What one argument does: no flags are left, the parse fails, the flag is set, or the flag wants the
-- next argument for its value.
pub data Parsed : Type 0 where
  no_more failed : Parsed
  parsed : AppConfig → Parsed
  wants_value : Flag → Parsed

abbrev pub or_failed : Option AppConfig → Parsed
or_failed none = failed
or_failed (some c) = parsed c

-- The name before the first '=', and the value behind it.
abbrev pub cut_at_equals : List Char → List Char × Option (List Char)
cut_at_equals [] = ([], none)
cut_at_equals (c ∷ s) =
    let (name, value) = cut_at_equals s in if is_char 61 c then ([], some s) else (c ∷ name, value)

abbrev pub set_flag : Option Flag → Option (List Char) → AppConfig → Parsed
set_flag none value c = failed
set_flag (some (bool_var set)) none c = parsed (set true c)
set_flag (some (string_var set)) none c = wants_value (string_var set)
set_flag (some (int_var set)) none c = wants_value (int_var set)
set_flag (some f) (some v) c = or_failed (set_value f v c)

unfoldable pub parse_name : List Char → AppConfig → Parsed
unfolding formal set_value
parse_name [] c = failed
parse_name (a ∷ s) c =
    let (name, value) = cut_at_equals (a ∷ s) in
    if is_char 45 a || is_char 61 a then failed else set_flag (formal (text name)) value c

-- FlagSet.parseOne.
unfoldable pub parse_one : List Char → AppConfig → Parsed
unfolding parse_name
parse_one [] c = no_more
parse_one (a ∷ []) c = no_more
parse_one (a ∷ b ∷ s) c =
    if not (is_char 45 a)
    then no_more
    else if is_char 45 b
    then (if is_nil s then no_more else parse_name s c)
    else parse_name (b ∷ s) c

abbrev pub bind {ℓ κ} : {A : Type ℓ} {B : Type κ} → Option A → (A → Option B) → Option B
bind none f = none
bind (some a) f = f a

-- FlagSet.Parse; `none` stands for the end of the process.
unfoldable pub parse_args : List (List Char) → AppConfig → Option AppConfig
unfolding parse_one set_value
parse_args [] c = some c
parse_args (s ∷ []) c = elim (parse_one s c) [
  | no_more ↦ some c
  | failed ↦ none
  | parsed c' ↦ some c'
  | wants_value f ↦ none
]
parse_args (s ∷ v ∷ rest) c = elim (parse_one s c) [
  | no_more ↦ some c
  | failed ↦ none
  | parsed c' ↦ parse_args (v ∷ rest) c'
  | wants_value f ↦ bind (set_value f v c) (parse_args rest)
]

abbrev pub arguments : List (List Char) → List (List Char)
arguments [] = []
arguments (program ∷ args) = args

-- The configuration that main passes to run, by the command line.
unfoldable pub main_config : List Char → List Char → Option AppConfig
unfolding parse_args flag_defaults command_line_to_argv
main_config host line = parse_args (arguments (command_line_to_argv line)) (flag_defaults host)
