-- ===== src/Spawn.antt =====
-- server/spawn_windows.go: the privileges and tokens that the service needs, and the start of an
-- agent. The answers of Win32 are parameters; each call returns the handles that it opens and
-- closes, deferred closings last. File names are compared under case folding, which Proto's
-- same_name decides against an ASCII name such as winlogon.exe.
pub mod Tokens
mod Examples
use Prim.Native.Char.{Char}
use remote_mouse.Common.{
  ℕ, ◌==◌, String, Bool, true, false, not, ◌&&◌, Option, none, some, List, [], ◌∷◌, ◌++◌,
  if◌then◌else◌,
}
use remote_mouse.Common.Texts.{chars}
use remote_mouse.Proto.{same_name}
use remote_mouse.CommandLine.{agent_command}
use remote_mouse.Handles.{
  HandleEvent, opened, closed, token, duplicate, process, snapshot, environment, thread,
}

-- The answers while one privilege is enabled.
pub record PrivilegeEnv : Type 0 where
  pub opens : Bool
  pub finds : String → Bool
  pub adjusts : String → Bool

unfoldable pub enable_privilege : PrivilegeEnv → String → Bool × List HandleEvent
enable_privilege e name =
    if not e.opens
    then (false, [])
    else if not (e.finds name)
    then (false, opened token ∷ closed token ∷ [])
    else (e.adjusts name, opened token ∷ closed token ∷ [])

abbrev pub service_privileges : List String
service_privileges =
    "SeTcbPrivilege" ∷ "SeAssignPrimaryTokenPrivilege" ∷ "SeIncreaseQuotaPrivilege" ∷ []

-- An error is logged, and the loop goes on: the names that could not be enabled.
unfoldable pub enable_all : PrivilegeEnv → List String → List String × List HandleEvent
unfolding enable_privilege
enable_all e [] = ([], [])
enable_all e (name ∷ names) =
    let (ok, events) = enable_privilege e name in
    let (failed, more) = enable_all e names in
    (if ok then failed else name ∷ failed, events ++ more)

unfoldable pub enable_service_privileges : PrivilegeEnv → List String × List HandleEvent
unfolding enable_all
enable_service_privileges e = enable_all e service_privileges

-- A process of the snapshot; the session is missing where ProcessIdToSessionId fails.
pub record ProcessEntry : Type 0 where
  pub pid : ℕ
  pub exe_file : String
  pub session : Option ℕ

abbrev pub in_session : ℕ → Option ℕ → Bool
in_session session none = false
in_session session (some s) = s == session

unfoldable pub is_wanted : String → ℕ → ProcessEntry → Bool
is_wanted exe session pe = same_name pe.exe_file exe && in_session session pe.session

unfoldable pub first_wanted : String → ℕ → List ProcessEntry → Option ℕ
unfolding is_wanted same_name
first_wanted exe session [] = none
first_wanted exe session (pe ∷ pes) =
    let rest = first_wanted exe session pes in
    if is_wanted exe session pe then some pe.pid else rest

-- `none` for the snapshot is its error.
unfoldable pub find_process_in_session :
    String → ℕ → Option (List ProcessEntry) → Option ℕ × List HandleEvent
unfolding first_wanted
find_process_in_session exe session none = (none, [])
find_process_in_session exe session (some pes) =
    (first_wanted exe session pes, opened snapshot ∷ closed snapshot ∷ [])

-- The answers while a token is made.
pub record TokenEnv : Type 0 where
  pub query_user_token : ℕ → Bool
  pub snapshot : Option (List ProcessEntry)
  pub open_process : ℕ → Bool
  pub open_process_token : ℕ → Bool
  pub duplicates : Bool

unfoldable pub duplicate_primary : TokenEnv → Bool × List HandleEvent
duplicate_primary e = if e.duplicates then (true, opened duplicate ∷ []) else (false, [])

unfoldable pub user_token_for_session : TokenEnv → ℕ → Bool × List HandleEvent
unfolding duplicate_primary
user_token_for_session e session =
    let (ok, events) = duplicate_primary e in
    if e.query_user_token session
    then (ok, opened token ∷ events ++ closed token ∷ [])
    else (false, [])

abbrev pub winlogon_token : TokenEnv → Option ℕ × List HandleEvent → Bool × List HandleEvent
winlogon_token e (none, found) = (false, found)
winlogon_token e (some pid, found) =
    let (ok, events) = duplicate_primary e in
    if not (e.open_process pid)
    then (false, found)
    else if not (e.open_process_token pid)
    then (false, found ++ opened process ∷ closed process ∷ [])
    else (ok, found ++ opened process ∷ opened token ∷ events ++ closed token ∷ closed process ∷ [])

unfoldable pub winlogon_token_for_session : TokenEnv → ℕ → Bool × List HandleEvent
unfolding find_process_in_session duplicate_primary
winlogon_token_for_session e session =
    winlogon_token e (find_process_in_session "winlogon.exe" session e.snapshot)

-- What CreateProcessAsUser is given: the desktop and the command line.
pub record StartRequest : Type 0 where
  pub desktop : List Char
  pub command : List Char

abbrev pub start_request : List Char → List Char → List Char → Bool → Bool → StartRequest
start_request exe desktop pipe absolute inject_log = record {
  desktop = chars "WinSta0\\" ++ desktop;
  command = agent_command exe pipe absolute inject_log;
}

-- `has_env` tells whether the environment block can be made, `starts` whether the process starts. The
-- result says so, and what was asked for.
unfoldable pub spawn_agent_on_desktop :
    Bool
    → (StartRequest → Bool)
    → List Char
    → List Char
    → List Char
    → Bool
    → Bool
    → Bool × List StartRequest × List HandleEvent
unfolding agent_command
spawn_agent_on_desktop has_env starts exe desktop pipe absolute inject_log =
    let r = start_request exe desktop pipe absolute inject_log in
    if not has_env
    then (false, [], [])
    else if not (starts r)
    then (false, r ∷ [], opened environment ∷ closed environment ∷ [])
    else (
      true,
      r ∷ [],
      opened environment ∷ opened process ∷ opened thread ∷ closed thread ∷ closed environment ∷ [],
    )
