-- ===== src/Spawn/Tokens.antt =====
-- server/spawn_windows.go: the process that a token is taken from, and the handles that stay open.
use Prim.Native.Char.{Char}
use remote_mouse.Common.{
  ℕ, String, Bool, true, false, Option, none, some, List, [], ◌∷◌, ◌++◌, if◌then◌else◌, ◌≡◌, ◌↔◌,
  refl, ap, ◌∙◌, arith, Bool-cases, inl, inr, Option-cases, any_of,
}
use remote_mouse.Handles.{left_open, duplicate, process}
use remote_mouse.Spawn.{
  ProcessEntry, is_wanted, first_wanted, find_process_in_session, TokenEnv, duplicate_primary,
  user_token_for_session, winlogon_token, winlogon_token_for_session, spawn_agent_on_desktop,
  start_request, StartRequest,
}

user-left_open :
    (e : TokenEnv) (session : ℕ)
    → let (ok, events) = user_token_for_session e session in
      left_open events [] ≡ (if ok then duplicate ∷ [] else [])
unfolding user_token_for_session duplicate_primary
user-left_open e session = elim (Bool-cases (e.query_user_token session)) [
  | inr f ↦ rw f refl
  | inl t ↦ elim (Bool-cases e.duplicates) [ inl d ↦ rw (t, d) refl | inr d ↦ rw (t, d) refl ]
]

winlogon_process-left_open :
    (e : TokenEnv) (pid : ℕ) (pes : List ProcessEntry) (exe : String) (session : ℕ)
    → first_wanted exe session pes ≡ some pid
    → let (ok, events) = winlogon_token e (find_process_in_session exe session (some pes)) in
      left_open events [] ≡ (if ok then duplicate ∷ [] else [])
unfolding find_process_in_session duplicate_primary
winlogon_process-left_open e pid pes exe session found = elim (Bool-cases (e.open_process pid)) [
  | inr f ↦ rw (found, f) refl
  | inl t ↦ elim (Bool-cases (e.open_process_token pid)) [
    | inr f ↦ rw (found, t, f) refl
    | inl u ↦ elim (Bool-cases e.duplicates) [
      | inl d ↦ rw (found, t, u, d) refl
      | inr d ↦ rw (found, t, u, d) refl
    ]
  ]
]

winlogon-left_open :
    (e : TokenEnv) (exe : String) (session : ℕ) (snap : Option (List ProcessEntry))
    → let (ok, events) = winlogon_token e (find_process_in_session exe session snap) in
      left_open events [] ≡ (if ok then duplicate ∷ [] else [])
unfolding find_process_in_session
winlogon-left_open e exe session none = refl
winlogon-left_open e exe session (some pes) = elim (Option-cases (first_wanted exe session pes)) [
  | inl missing ↦ rw missing refl
  | inr (pid, found) ↦ winlogon_process-left_open e pid pes exe session found
]

spawn-left_open :
    (has_env : Bool) (starts : StartRequest → Bool) (exe desktop pipe : List Char)
    (absolute inject_log : Bool)
    → let (ok, asked, events) =
        spawn_agent_on_desktop has_env starts exe desktop pipe absolute inject_log in
      left_open events [] ≡ (if ok then process ∷ [] else [])
unfolding spawn_agent_on_desktop
spawn-left_open false starts exe desktop pipe absolute inject_log = refl
spawn-left_open true starts exe desktop pipe absolute inject_log =
    elim (Bool-cases (starts (start_request exe desktop pipe absolute inject_log))) [
      | inl t ↦ rw t refl
      | inr f ↦ rw f refl
    ]

-- Whatever Win32 answers, the user's token, the token of winlogon.exe and the start of an agent leave
-- no handle open but the one that they return on success: the duplicated token, and the process.
pub spawn_leaves_no_handle :
    (e : TokenEnv) (session : ℕ) (has_env : Bool) (starts : StartRequest → Bool)
    (exe desktop pipe : List Char) (absolute inject_log : Bool)
    → let (user, user_events) = user_token_for_session e session in
      let (secure, secure_events) = winlogon_token_for_session e session in
      let (spawned, asked, events) =
        spawn_agent_on_desktop has_env starts exe desktop pipe absolute inject_log in
      (left_open user_events [] ≡ (if user then duplicate ∷ [] else []))
      × (left_open secure_events [] ≡ (if secure then duplicate ∷ [] else []))
      × (left_open events [] ≡ (if spawned then process ∷ [] else []))
unfolding winlogon_token_for_session
spawn_leaves_no_handle e session has_env starts exe desktop pipe absolute inject_log = (
  user-left_open e session,
  winlogon-left_open e "winlogon.exe" session e.snapshot,
  spawn-left_open has_env starts exe desktop pipe absolute inject_log,
)

missing :
    (exe : String) (session : ℕ) (pes : List ProcessEntry)
    → (first_wanted exe session pes ≡ none) ↔ (any_of (is_wanted exe session) pes ≡ false)
unfolding first_wanted
missing exe session [] = (λ h. refl, λ h. refl)
missing exe session (pe ∷ pes) = elim (Bool-cases (is_wanted exe session pe)) [
  | inl t ↦ rw t (λ h. cc, λ h. cc)
  | inr f ↦ rw f (missing exe session pes)
]

found :
    (exe : String) (session : ℕ) (before : List ProcessEntry) (pe : ProcessEntry)
    (behind : List ProcessEntry)
    → any_of (is_wanted exe session) before ≡ false
    → is_wanted exe session pe ≡ true
    → first_wanted exe session (before ++ pe ∷ behind) ≡ some pe.pid
unfolding first_wanted
found exe session [] pe behind clean here = rw here refl
found exe session (x ∷ before) pe behind clean here =
    let first : is_wanted exe session x ≡ false = ground arith in
    let rest : any_of (is_wanted exe session) before ≡ false = ground arith in
    rw first (found exe session before pe behind rest here)

-- A process is found just if the snapshot lists one with that name in that session, and the first of
-- those is the one whose id is returned.
pub first_wanted_exact :
    (exe : String) (session : ℕ) (pes : List ProcessEntry)
    → ((first_wanted exe session pes ≡ none) ↔ (any_of (is_wanted exe session) pes ≡ false))
      × ((before : List ProcessEntry) (pe : ProcessEntry) (behind : List ProcessEntry)
          → pes ≡ before ++ pe ∷ behind
          → any_of (is_wanted exe session) before ≡ false
          → is_wanted exe session pe ≡ true
          → first_wanted exe session pes ≡ some pe.pid)
unfolding first_wanted
first_wanted_exact exe session pes = (
  missing exe session pes,
  λ before pe behind e none_before here.
      ap (first_wanted exe session) e ∙ found exe session before pe behind none_before here,
)
