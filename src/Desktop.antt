-- ===== src/Desktop.antt =====
-- server/desktop_windows.go: which desktops need an agent, and the plan that gets there. A Go map
-- used as a set is a list of its keys, in some order. The calls into user32 and wtsapi32 are left
-- out, but for the answer of WTSQuerySessionInformation, which is an argument.
pub mod Plan
mod Examples
use remote_mouse.Common.{
  ℕ, ◌==◌, String, Bool, true, false, not, Option, none, some, List, [], ◌∷◌, if◌then◌else◌, str_eq,
  keep_if, any_of,
}
use remote_mouse.Common.Int.{ℤ, pos, eq_int}

abbrev pub wts_state_lock : ℤ
wts_state_lock = pos 0

abbrev pub wts_no_session : ℕ
wts_no_session = 0xFFFFFFFF

-- `query` is what the session's WTSINFOEX says, if the call succeeds.
unfoldable pub session_lock_state : (ℕ → Option ℤ) → ℕ → Option ℤ
session_lock_state query sess = if sess == wts_no_session then none else query sess

unfoldable pub desktop_for_flags : ℤ → String
desktop_for_flags flags = if eq_int flags wts_state_lock then "Winlogon" else "Default"

unfoldable pub desired_desktops : ℤ → List String
unfolding desktop_for_flags
desired_desktops flags =
    let primary = desktop_for_flags flags in
    if eq_int flags wts_state_lock then "Default" ∷ primary ∷ [] else primary ∷ []

-- set[d]
abbrev pub contains : List String → String → Bool
contains l d = any_of (λ e. str_eq e d) l

-- The desktops to stop, in the order of `alive`, and those to start, in the order of `want`.
unfoldable pub plan_agents : List String → List String → List String × List String
plan_agents alive want =
    (keep_if (λ d. not (contains want d)) alive, keep_if (λ d. not (contains alive d)) want)

pub data TokenStrategy : Type 0 where
  token_user token_winlogon : TokenStrategy

unfoldable pub token_strategy_for : String → TokenStrategy
token_strategy_for desktop = if str_eq desktop "Default" then token_user else token_winlogon
