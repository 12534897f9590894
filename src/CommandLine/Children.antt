-- ===== src/CommandLine/Children.antt =====
-- What the child processes of server/ receive: the arguments of the command lines that
-- elevatedArgLine, autostartCmd and spawnAgentOnDesktop write.
use Prim.Native.Char.{Char}
use mathlib.Core.List.{append_assoc}
use remote_mouse.Common.{
  Bool, true, false, List, [], ◌∷◌, ◌++◌, map, if◌then◌else◌, ◌≡◌, refl, sym, ap, ◌∙◌, Bool-cases,
  inl, inr,
}
use remote_mouse.Common.Int.{ℤ}
use remote_mouse.Common.Texts.{chars, is_nil, trim_space}
use remote_mouse.Decimal.{itoa}
use remote_mouse.CommandLine.{
  quote, blank, escape_arg, command_line_to_argv, join_blank, elevated_arg_line, autostart_cmd,
  agent_command,
}
use remote_mouse.CommandLine.Join.{Reads, AllReads, argv-join_blank}
use remote_mouse.CommandLine.Words.{
  IsWord, IsPath, escape_arg-Reads, word-Reads, path-Reads, itoa-Reads,
}

AllReads-escape_arg : (args : List (List Char)) → AllReads (map escape_arg args) args
AllReads-escape_arg [] = tt
AllReads-escape_arg (a ∷ args) = (escape_arg-Reads a, AllReads-escape_arg args)

-- Whatever arguments are given to the elevated child, blanks, quotes, backslashes and empty ones
-- included, it receives exactly those.
pub argv-elevated_arg_line :
    (args : List (List Char)) → command_line_to_argv (elevated_arg_line args) ≡ args
unfolding elevated_arg_line
argv-elevated_arg_line args = argv-join_blank (map escape_arg args) args (AllReads-escape_arg args)

-- The elevated child, started by its path in quotes and the line of its arguments.
pub argv-elevated :
    (exe : List Char) (a : List Char) (args : List (List Char))
    → IsPath exe
    → command_line_to_argv (quote ∷ exe ++ quote ∷ blank ∷ elevated_arg_line (a ∷ args))
      ≡ exe ∷ a ∷ args
unfolding elevated_arg_line
argv-elevated exe a args p =
    ap (λ (t : List Char). command_line_to_argv (quote ∷ t))
      (sym (append_assoc exe (quote ∷ []) (blank ∷ join_blank (map escape_arg (a ∷ args)))))
    ∙ argv-join_blank ((quote ∷ exe ++ quote ∷ []) ∷ map escape_arg (a ∷ args)) (exe ∷ a ∷ args)
        (path-Reads exe p, AllReads-escape_arg (a ∷ args))

AllReads-append :
    (es fs : List (List Char)) → AllReads es es → AllReads fs fs → AllReads (es ++ fs) (es ++ fs)
AllReads-append [] fs r t = t
AllReads-append (e ∷ es) fs r t = (r.0, AllReads-append es fs r.1 t)

abbrev pub option_words : Bool → List Char → List (List Char)
option_words b s = if b then s ∷ [] else []

option-AllReads :
    (b : Bool) (s : List Char) → Reads s s → AllReads (option_words b s) (option_words b s)
option-AllReads true s r = (r, tt)
option-AllReads false s r = tt

-- The words of an agent's command line.
unfoldable pub agent_words : List Char → List Char → Bool → Bool → List (List Char)
agent_words exe pipe absolute inject_log =
    exe ∷ chars "-agent" ∷ chars "-pipe" ∷ pipe ∷ option_words absolute (chars "-absolute")
    ++ option_words inject_log (chars "-injectlog")

agent_command-words :
    (exe pipe : List Char) (absolute inject_log : Bool)
    → agent_command exe pipe absolute inject_log
      ≡ join_blank (agent_words (quote ∷ exe ++ quote ∷ []) pipe absolute inject_log)
unfolding agent_command agent_words
agent_command-words exe pipe true true = simp append_assoc
agent_command-words exe pipe true false = simp append_assoc
agent_command-words exe pipe false true = simp append_assoc
agent_command-words exe pipe false false = simp append_assoc

agent-AllReads :
    (exe pipe : List Char) (absolute inject_log : Bool)
    → IsPath exe
    → IsWord pipe
    → AllReads
        (agent_words (quote ∷ exe ++ quote ∷ []) pipe absolute inject_log)
        (agent_words exe pipe absolute inject_log)
unfolding agent_words
agent-AllReads exe pipe absolute inject_log p w =
    let agent = word-Reads (chars "-agent") (refl, refl, λ e. cc) in
    let pipe_flag = word-Reads (chars "-pipe") (refl, refl, λ e. cc) in
    let abs_flag = word-Reads (chars "-absolute") (refl, refl, λ e. cc) in
    let log_flag = word-Reads (chars "-injectlog") (refl, refl, λ e. cc) in
    let options =
      AllReads-append (option_words absolute (chars "-absolute"))
        (option_words inject_log (chars "-injectlog"))
        (option-AllReads absolute (chars "-absolute") abs_flag)
        (option-AllReads inject_log (chars "-injectlog") log_flag) in
    (path-Reads exe p, (agent, (pipe_flag, (word-Reads pipe w, options))))

-- An agent receives -agent, its pipe, and the flags that it is started with.
pub argv-agent_command :
    (exe pipe : List Char) (absolute inject_log : Bool)
    → IsPath exe
    → IsWord pipe
    → command_line_to_argv (agent_command exe pipe absolute inject_log)
      ≡ agent_words exe pipe absolute inject_log
argv-agent_command exe pipe absolute inject_log p w =
    ap command_line_to_argv (agent_command-words exe pipe absolute inject_log)
    ∙ argv-join_blank (agent_words (quote ∷ exe ++ quote ∷ []) pipe absolute inject_log)
        (agent_words exe pipe absolute inject_log) (agent-AllReads exe pipe absolute inject_log p w)

-- The arguments of the program that is started at login.
unfoldable pub autostart_args : List Char → List Char → ℤ → List Char → List (List Char)
autostart_args exe pass port name =
    exe
    ∷ chars "-pass"
    ∷ pass
    ∷ chars "-port"
    ∷ itoa port
    ∷ (if is_nil (trim_space name) then [] else chars "-name" ∷ name ∷ [])

autostart_cmd-words :
    (exe pass : List Char) (port : ℤ) (name : List Char)
    → autostart_cmd exe pass port name
      ≡ join_blank (
          escape_arg exe
          ∷ chars "-pass"
          ∷ escape_arg pass
          ∷ chars "-port"
          ∷ itoa port
          ∷ (if is_nil (trim_space name) then [] else chars "-name" ∷ escape_arg name ∷ []))
unfolding autostart_cmd
autostart_cmd-words exe pass port name = elim (Bool-cases (is_nil (trim_space name))) [
  | inl none_given ↦ rw none_given (simp append_assoc)
  | inr given ↦ rw given (simp append_assoc)
]

-- The entry that starts the program at login gives it the password, the port and, unless it is
-- blank, the name, whatever characters stand in them.
pub argv-autostart_cmd :
    (exe pass : List Char) (port : ℤ) (name : List Char)
    → command_line_to_argv (autostart_cmd exe pass port name) ≡ autostart_args exe pass port name
unfolding autostart_args
argv-autostart_cmd exe pass port name =
    let pass_flag = word-Reads (chars "-pass") (refl, refl, λ e. cc) in
    let port_flag = word-Reads (chars "-port") (refl, refl, λ e. cc) in
    let name_flag = word-Reads (chars "-name") (refl, refl, λ e. cc) in
    ap command_line_to_argv (autostart_cmd-words exe pass port name)
    ∙ elim (Bool-cases (is_nil (trim_space name))) [
      | inl none_given ↦ rw none_given (
          argv-join_blank
            (escape_arg exe ∷ chars "-pass" ∷ escape_arg pass ∷ chars "-port" ∷ itoa port ∷ [])
            (exe ∷ chars "-pass" ∷ pass ∷ chars "-port" ∷ itoa port ∷ [])
            (
              escape_arg-Reads exe,
              (pass_flag, (escape_arg-Reads pass, (port_flag, (itoa-Reads port, tt)))),
            ))
      | inr given ↦ rw given (
          argv-join_blank
            (escape_arg exe
              ∷ chars "-pass"
              ∷ escape_arg pass
              ∷ chars "-port"
              ∷ itoa port
              ∷ chars "-name"
              ∷ escape_arg name
              ∷ [])
            (exe ∷ chars "-pass" ∷ pass ∷ chars "-port" ∷ itoa port ∷ chars "-name" ∷ name ∷ [])
            (
              escape_arg-Reads exe,
              (
                pass_flag,
                (
                  escape_arg-Reads pass,
                  (port_flag, (itoa-Reads port, (name_flag, (escape_arg-Reads name, tt)))),
                ),
              ),
            ))
    ]
