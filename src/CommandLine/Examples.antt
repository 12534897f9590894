-- ===== src/CommandLine/Examples.antt =====
-- Runs of the command lines, and of the reader of arguments.
use Prim.Native.Char.{Char}
use remote_mouse.Common.{List, [], ◌∷◌, map, ◌≡◌, refl}
use remote_mouse.Common.Int.{pos}
use remote_mouse.Common.Texts.{chars, text}
use remote_mouse.CommandLine.{
  escape_arg, escape_loop, elevated_arg_line, command_line_to_argv, autostart_cmd,
}
use remote_mouse.Decimal.{digits, digit_char}
use remote_mouse.CommandLine.Children.{argv-elevated_arg_line}

abbrev living_room : List (List Char)
living_room =
    chars "-apply-config"
    ∷ chars "-name"
    ∷ chars "Living Room"
    ∷ chars "-pass"
    ∷ chars "p q"
    ∷ chars "-port"
    ∷ chars "27500"
    ∷ []

-- TestElevatedArgLine and TestElevatedArgLineEdgeCases.
line_of_living_room :
    text (elevated_arg_line living_room)
    ≡ "-apply-config -name \"Living Room\" -pass \"p q\" -port 27500"
unfolding elevated_arg_line
line_of_living_room = refl

edge_cases :
    text (elevated_arg_line (chars "-name" ∷ [] ∷ chars "-pass" ∷ chars "p\"q" ∷ []))
    ≡ "-name \"\" -pass p\\\"q"
unfolding elevated_arg_line
edge_cases = refl

backslashes_before_quote : text (escape_arg (chars "a\\\\\" b\\")) ≡ "\"a\\\\\\\\\\\" b\\\\\""
unfolding escape_arg escape_loop
backslashes_before_quote = refl

autostart_line :
    text (autostart_cmd (chars "C:\\rm.exe") (chars "p q") (pos 27500) (chars "Living Room"))
    ≡ "C:\\rm.exe -pass \"p q\" -port 27500 -name \"Living Room\""
unfolding autostart_cmd digits digit_char
autostart_line = refl

-- In quotes, a doubled quote stands for one and ends the quoted text.
doubled_quotes :
    map text (command_line_to_argv (chars "  a\"b c\"\"d\" \"\" e")) ≡ "ab c\"d \"" ∷ "e" ∷ []
unfolding command_line_to_argv
doubled_quotes = refl

argv-elevated_arg_line_example : command_line_to_argv (elevated_arg_line living_room) ≡ living_room
argv-elevated_arg_line_example = argv-elevated_arg_line living_room
