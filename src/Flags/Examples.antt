-- ===== src/Flags/Examples.antt =====
-- Runs of the flag parser.
use Prim.Native.Char.{Char}
use remote_mouse.Common.{true, none, some, List, ◌≡◌, refl}
use remote_mouse.Common.Int.{pos}
use remote_mouse.Common.Texts.{chars}
use remote_mouse.Decimal.{parse_digits, digit_value}
use remote_mouse.Flags.{main_config, flag_defaults}

abbrev host : List Char
host = chars " desk "

with_values :
    main_config host (chars "rm.exe -port=8080 --notray -agent=F rest -service")
    ≡ some (record (flag_defaults host) { port = pos 8080; notray = true })
unfolding main_config parse_digits digit_value
with_values = refl

missing_value : main_config host (chars "rm.exe -pass") ≡ none
unfolding main_config
missing_value = refl

unknown_flag : main_config host (chars "rm.exe -colour red") ≡ none
unfolding main_config
unknown_flag = refl
