-- ===== src/CommandLine.antt =====
-- The command lines that server/ writes for its child processes (server/ui_service_windows.go,
-- server/autostart_windows.go, server/spawn_windows.go), by syscall.EscapeArg, and how a Go program
-- on Windows splits its command line into arguments (commandLineToArgv of Go's package os).
pub mod Reader
pub mod Argv
pub mod Join
pub mod Words
pub mod Children
mod Examples
use Prim.Native.Char.{Char}
use remote_mouse.Common.{
  ℕ, zero, suc, ◌+◌, ◌/◌, ◌%◌, ◌==◌, Bool, true, false, not, ◌&&◌, ◌||◌, List, [], ◌∷◌, ◌++◌,
  if◌then◌else◌, length, any_of, map, String,
}
use remote_mouse.Common.Int.{ℤ}
use remote_mouse.Common.Texts.{is_char, chars, is_nil, trim_space}
use remote_mouse.Decimal.{itoa}

abbrev pub is_quote : Char → Bool
is_quote c = is_char 34 c

abbrev pub is_slash : Char → Bool
is_slash c = is_char 92 c

abbrev pub is_blank : Char → Bool
is_blank c = is_char 32 c || is_char 9 c

abbrev pub backslash : Char
backslash = "\\"

abbrev pub quote : Char
quote = "\""

abbrev pub blank : Char
blank = " "

abbrev pub backslashes : ℕ → List Char
backslashes zero = []
backslashes (suc n) = backslash ∷ backslashes n

-- The loop of syscall.EscapeArg; n backslashes are pending, and `spaced` tells that the argument
-- stands in quotes.
unfoldable pub escape_loop : Bool → ℕ → List Char → List Char
escape_loop spaced n [] = if spaced then backslashes n ++ quote ∷ [] else []
escape_loop spaced n (c ∷ s) =
    let slash = c ∷ escape_loop spaced (suc n) s in
    let quoted = backslashes n ++ backslash ∷ c ∷ escape_loop spaced 0 s in
    let plain = c ∷ escape_loop spaced 0 s in
    if is_slash c then slash else if is_quote c then quoted else plain

-- syscall.EscapeArg.
unfoldable pub escape_arg : List Char → List Char
escape_arg [] = quote ∷ quote ∷ []
escape_arg (c ∷ s) =
    let arg : List Char = c ∷ s in
    let spaced = any_of is_blank arg in
    let special = any_of (λ d. is_quote d || is_slash d) arg in
    if not special && not spaced
    then arg
    else if not special
    then quote ∷ arg ++ quote ∷ []
    else if spaced
    then quote ∷ escape_loop true 0 arg
    else escape_loop false 0 arg

abbrev pub push : List Char → List Char × List Char → List Char × List Char
push s (arg, rest) = (s ++ arg, rest)

abbrev pub begins_with_quote : List Char → Bool
begins_with_quote [] = false
begins_with_quote (c ∷ s) = is_quote c

-- readNextArg of package os: one argument and the text after it. `skip` tells that the next
-- character is taken already, `quoted` that the text stands in quotes, and n backslashes are
-- pending.
unfoldable pub read_next_arg : Bool → Bool → ℕ → List Char → List Char × List Char
read_next_arg skip quoted n [] = (backslashes n, [])
read_next_arg true quoted n (c ∷ s) = read_next_arg false quoted n s
read_next_arg false quoted n (c ∷ s) =
    let pending = read_next_arg false quoted (suc n) s in
    let literal = push (backslashes (n / 2) ++ c ∷ []) (read_next_arg false quoted 0 s) in
    let doubled = push (backslashes (n / 2) ++ c ∷ []) (read_next_arg true (not quoted) 0 s) in
    let switch = push (backslashes (n / 2)) (read_next_arg false (not quoted) 0 s) in
    let plain = push (backslashes n ++ c ∷ []) (read_next_arg false quoted 0 s) in
    if is_blank c && not quoted
    then (backslashes n, s)
    else if is_quote c
    then (if not (n % 2 == 0)
        then literal
        else if quoted && begins_with_quote s
        then doubled
        else switch)
    else if is_slash c
    then pending
    else plain

-- commandLineToArgv of package os, on fuel: each round consumes a character.
unfoldable pub argv_loop : ℕ → List Char → List (List Char)
argv_loop zero line = []
argv_loop (suc fuel) [] = []
argv_loop (suc fuel) (c ∷ s) =
    let (arg, rest) = read_next_arg false false 0 (c ∷ s) in
    let more = argv_loop fuel s in
    let args = arg ∷ argv_loop fuel rest in if is_blank c then more else args

unfoldable pub command_line_to_argv : List Char → List (List Char)
unfolding argv_loop read_next_arg
command_line_to_argv line = argv_loop (length line) line

-- strings.Join(parts, " ").
abbrev pub join_blank : List (List Char) → List Char
join_blank [] = []
join_blank (p ∷ []) = p
join_blank (p ∷ q ∷ ps) = p ++ blank ∷ join_blank (q ∷ ps)

unfoldable pub elevated_arg_line : List (List Char) → List Char
unfolding escape_arg escape_loop
elevated_arg_line args = join_blank (map escape_arg args)

-- exePath of the process, that os.Executable answers, is a parameter.
unfoldable pub autostart_cmd : List Char → List Char → ℤ → List Char → List Char
unfolding escape_arg escape_loop itoa trim_space
autostart_cmd exe pass port name =
    let cmd =
      escape_arg exe ++ chars " -pass " ++ escape_arg pass ++ chars " -port " ++ itoa port in
    if is_nil (trim_space name) then cmd else cmd ++ chars " -name " ++ escape_arg name

-- The command line of spawnAgentOnDesktop.
unfoldable pub agent_command : List Char → List Char → Bool → Bool → List Char
agent_command exe pipe absolute inject_log =
    let cmd = quote ∷ exe ++ chars "\" -agent -pipe " ++ pipe in
    let with_absolute = if absolute then cmd ++ chars " -absolute" else cmd in
    if inject_log then with_absolute ++ chars " -injectlog" else with_absolute
