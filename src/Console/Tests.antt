-- ===== src/Console/Tests.antt =====
-- The remote console at concrete inputs.
use univr_info_workshop.Common.{map}
use univr_info_workshop.Console.Net.Split.{AreRefused, get_command-AreRefused}
use univr_info_workshop.Console.Net.Session.{written, dialogue, get_command-on_the_wire}
use univr_info_workshop.Console.Net.Wire.{AreWhole, on_the_wire}
use univr_info_workshop.Common.{
  ℕ, zero, suc, Option, ◌≡◌, ◌↔◌, refl, true, ◌&&◌, none, some, List, [], ◌∷◌, ◌++◌, arith,
  if◌then◌else◌, length, codes, ok,
}
use univr_info_workshop.Error.{ErrorCode}
use univr_info_workshop.Console.{Bytes, newline, parse_command, run_command}
use univr_info_workshop.Console.CString.{is_delim, strtok, strcasecmp}
use univr_info_workshop.Console.Tokens.{Clear}
use univr_info_workshop.Console.Parse.{
  IsWord, AreArgs, join_args, command_line, parse_command-command_line,
}
use univr_info_workshop.Console.Output.{Writes}
use univr_info_workshop.Console.Run.{reply, run_command-Writes}
use univr_info_workshop.Console.Net.{Action, get_command, net_console_main, c_string, but_last}
use univr_info_workshop.Console.Net.Answers.{delivered, whole_command}
use univr_info_workshop.Console.Net.Sockets.{Stage, act_all, all_accepted, net_console_main-closes}

abbrev version : Bytes
version = codes "1.2.3"

abbrev led : Bytes
led = codes "LED"

abbrev two_args : List Bytes
two_args = codes "a=b" ∷ codes "ON" ∷ []

-- The version, asked for in small letters.
asks_version :
    reply version (parse_command (codes "sys_fw_ver" ++ newline))
    ≡ (ErrorCode.success, codes "sys_fw_ver:1.2.3*END" ++ newline)
unfolding reply parse_command strtok strcasecmp
asks_version = refl

-- A name that is not in the table.
asks_led :
    reply version (parse_command (codes "LED=a=b;ON" ++ newline))
    ≡ (ErrorCode.failure, codes "CMD_NOT_FOUND:FAIL*END" ++ newline)
unfolding reply parse_command strtok strcasecmp
asks_led = refl

led-IsWord : IsWord (codes "=") led × Clear newline led
unfolding is_delim
led-IsWord = (((λ e. cc), (refl, (refl, (refl, tt)))), (refl, (refl, (refl, tt))))

two_args-AreArgs : AreArgs two_args
unfolding is_delim
two_args-AreArgs = (
  ((λ e. cc), (refl, (refl, (refl, tt)))),
  (refl, (refl, (refl, tt))),
  (((λ e. cc), (refl, (refl, tt))), (refl, (refl, tt)), tt),
)

parse_command-command_line_example :
    parse_command (command_line led two_args ++ 13 ∷ codes "junk") ≡ some (led, two_args)
unfolding is_delim
parse_command-command_line_example =
    parse_command-command_line led two_args 13 (codes "junk") led-IsWord.0 led-IsWord.1
      two_args-AreArgs (omega arith) refl

whole_command_example :
    parse_command (c_string (but_last (command_line led two_args ++ newline)))
    ≡ some (led, two_args)
unfolding is_delim command_line join_args
whole_command_example =
    whole_command led two_args led-IsWord.0 led-IsWord.1 two_args-AreArgs (omega arith)
      (refl, (refl, (refl, (refl, (refl, (refl, (refl, (refl, (refl, (refl, tt))))))))))

run_command-Writes_example :
    Writes
      (run_command version (codes "HELP" ++ newline))
      (reply version (parse_command (codes "HELP" ++ newline)))
run_command-Writes_example = run_command-Writes version (codes "HELP" ++ newline) (omega arith)

abbrev reads : List Bytes
reads = (codes "HELP" ++ newline) ∷ (codes "SYS_FW_VER" ++ newline) ∷ [] ∷ codes "late" ∷ []

net_console_main-closes_example :
    (acts : List Action) × (net_console_main version true true true (some reads ∷ none ∷ [])
      ≡ ok acts)
    × (act_all Stage.begins acts
        ≡ some (
            if true
            then (if true && true && all_accepted (some reads ∷ none ∷ [])
                then Stage.listens
                else Stage.finished)
            else Stage.begins))
net_console_main-closes_example =
    net_console_main-closes version true true true (some reads ∷ none ∷ []) (omega arith)

-- The first block goes out, and a byte of every later one.
abbrev short_writes : ℕ → Option ℕ
short_writes zero = some 255
short_writes (suc n) = some 1

get_command-AreRefused_example :
    (answers : List (ErrorCode × List Bytes)) × (get_command version
        (map (λ c. c ∷ []) (codes "HELP" ++ newline))
      ≡ ok answers)
    × (length answers ≡ length (codes "HELP" ++ newline))
    × AreRefused answers
get_command-AreRefused_example =
    get_command-AreRefused version (codes "HELP" ++ newline) (omega arith)

get_command-on_the_wire_example :
    (answers : List (ErrorCode × List Bytes)) × (get_command version reads ≡ ok answers)
    × (on_the_wire short_writes (written answers) ≡ dialogue version (delivered reads)
        ↔ AreWhole short_writes (written answers))
get_command-on_the_wire_example = get_command-on_the_wire version reads short_writes (omega arith)
