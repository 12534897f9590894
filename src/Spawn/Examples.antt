-- ===== src/Spawn/Examples.antt =====
-- Instances and tests for the tokens and the start of agents.
use remote_mouse.Common.{ℕ, Bool, true, false, some, [], ◌∷◌, ◌≡◌, refl, if◌then◌else◌}
use remote_mouse.Common.Texts.{chars, is_nil}
use remote_mouse.Handles.{left_open, duplicate, process}
use remote_mouse.Spawn.{
  ProcessEntry, TokenEnv, StartRequest, find_process_in_session, winlogon_token_for_session,
  user_token_for_session, spawn_agent_on_desktop, enable_service_privileges,
}
use remote_mouse.Spawn.Tokens.{spawn_leaves_no_handle}

abbrev logon : ℕ → ℕ → ProcessEntry
logon pid session = record { pid = pid; exe_file = "WinLogon.exe"; session = some session }

-- The token of winlogon's process cannot be opened.
abbrev locked_down : TokenEnv
locked_down = record {
  query_user_token = λ s. true;
  snapshot = some (logon 7 0 ∷ logon 9 2 ∷ logon 11 2 ∷ []);
  open_process = λ p. true;
  open_process_token = λ p. false;
  duplicates = true;
}

second_session : (find_process_in_session "winlogon.exe" 2 locked_down.snapshot).0 ≡ some 9
unfolding find_process_in_session
second_session = refl

two_privileges :
    (enable_service_privileges
      (record { opens = true; finds = λ n. true; adjusts = λ n. is_nil (chars n) })).0
    ≡ "SeTcbPrivilege" ∷ "SeAssignPrimaryTokenPrivilege" ∷ "SeIncreaseQuotaPrivilege" ∷ []
unfolding enable_service_privileges
two_privileges = refl

abbrev starts_any : StartRequest → Bool
starts_any r = true

spawn_leaves_no_handle_example :
    let (user, user_events) = user_token_for_session locked_down 2 in
    let (secure, secure_events) = winlogon_token_for_session locked_down 2 in
    let (spawned, asked, events) =
      spawn_agent_on_desktop true starts_any
        (chars "C:\\rm.exe")
        (chars "Winlogon")
        (chars "\\\\.\\pipe\\p")
        true
        false in
    (left_open user_events [] ≡ (if user then duplicate ∷ [] else []))
    × (left_open secure_events [] ≡ (if secure then duplicate ∷ [] else []))
    × (left_open events [] ≡ (if spawned then process ∷ [] else []))
spawn_leaves_no_handle_example =
    spawn_leaves_no_handle locked_down 2 true starts_any (chars "C:\\rm.exe") (chars "Winlogon")
      (chars "\\\\.\\pipe\\p") true false
