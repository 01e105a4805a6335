-- ===== src/Console.antt =====
-- main/src/console/console.h, console.c and cmd_system.c: the commands of the remote console. A C
-- string is the list of its bytes, without the terminator; `version` is the VERSION of the build.
-- What a command writes is the list of the blocks that it hands to the write function.
mod CString
pub mod Tokens
pub mod Parse
pub mod Output
pub mod Run
pub mod OnOff
pub mod Net
mod Tests
unfoldable pub use CString.{strtok, strcasecmp, to_lower}
use univr_info_workshop.Common.{
  ℕ, zero, suc, ◌+◌, ◌-◌, Bool, true, false, ◌&&◌, Option, none, some, List, [], ◌∷◌, ◌++◌, ltb,
  ◌==◌, ◌!=◌, if◌then◌else◌, length, take, replicate, codes, Outcome, ok, fault, ◌>>=◌,
}
use univr_info_workshop.Error.{ErrorCode}

abbrev pub Bytes : Type 0
Bytes = List ℕ

abbrev pub cmd_args_max_length : ℕ
cmd_args_max_length = 10

abbrev pub cmd_response_max_length : ℕ
cmd_response_max_length = 50

-- The bytes of "\r\n".
abbrev pub newline : Bytes
newline = 13 ∷ 10 ∷ []

abbrev pub line_terminator : Bytes
line_terminator = codes "*END" ++ newline

-- The loop of `Console_ParseCommand` over the arguments, with the places left in `args`.
pub parse_args : ℕ → Bytes → List Bytes
parse_args zero rest = []
parse_args (suc n) rest = elim (strtok (codes ";") rest) [
  | none ↦ []
  | some (arg, rest') ↦ arg ∷ parse_args n rest'
]

-- `Console_ParseCommand`: the name and the arguments, `none` for -1. When the line holds only
-- newline characters, the second strtok_r goes on from the end of the text and finds no token.
pub parse_command : Bytes → Option (Bytes × List Bytes)
unfolding parse_args
parse_command cmd_line = elim (strtok newline cmd_line) [
  | none ↦ none
  | some (line, _) ↦ elim (strtok (codes "=") line) [
    | none ↦ none
    | some (name, rest) ↦ some (name, parse_args cmd_args_max_length rest)
  ]
]

abbrev pub printf_buffer : ℕ
printf_buffer = 256

-- What vsnprintf leaves in the buffer of a text that does not fit.
pub truncated : Bytes → Bytes
truncated text = take 255 text ++ 0 ∷ []

-- `Console_Printf` of a formatted text, after the blocks written so far. The buffer has 256 bytes,
-- the last of them for the terminator, but the length written is that of the whole text: a longer
-- text reads past the end of the buffer.
pub printf : List Bytes → (text : Bytes) → Outcome (List Bytes)
printf out text =
    if length text == 0
    then ok out
    else if ltb (length text) printf_buffer
    then ok (out ++ text ∷ [])
    else if length text == printf_buffer
    then ok (out ++ truncated text ∷ [])
    else fault

-- The loop of `Console_SerializeResponse`: `first` is the test `i == 0`.
pub print_args : Bool → List Bytes → List Bytes → Outcome (List Bytes)
print_args first out [] = ok out
print_args first out (arg ∷ args) = do
  out' ← printf out ((if first then b'_' else b';') ∷ arg)
  print_args false out' args

-- `Console_SerializeResponse`.
pub serialize_response :
    List Bytes → (cmd : Bytes) → (args : List Bytes) → (response : Bytes) → Outcome (List Bytes)
unfolding printf print_args
serialize_response out cmd args response = do
  out₁ ← printf out cmd
  out₂ ← print_args true out₁ args
  printf out₂ (b':' ∷ response ++ line_terminator)

-- The handlers that the table names.
pub data Handler : Type 0 where
  cmd_help cmd_fw_ver : Handler

-- `struct ConsoleCmd`.
pub record ConsoleCmd : Type 0 where
  pub name : Bytes
  pub expected_args : ℕ
  pub handler : Handler
  pub help : Bytes

-- `gCommands`.
abbrev pub commands : List ConsoleCmd
commands =
    record {
      name = codes "HELP";
      expected_args = 0;
      handler = Handler.cmd_help;
      help = codes "show this help message";
    }
    ∷ record {
      name = codes "SYS_FW_VER";
      expected_args = 0;
      handler = Handler.cmd_fw_ver;
      help = codes "get firmware version";
    }
    ∷ []

-- The text padded with spaces to 15 bytes, as `%-15s` prints it.
abbrev pub pad_15 : Bytes → Bytes
pad_15 s = s ++ replicate (15 - length s) b' '

-- The loop of `Console_CmdHelp`.
pub print_commands : List Bytes → List ConsoleCmd → Outcome (List Bytes)
unfolding printf
print_commands out [] = ok out
print_commands out (c ∷ cs) = do
  out' ← printf out (codes "* " ++ (pad_15 c.name ++ (codes " - " ++ (c.help ++ newline))))
  print_commands out' cs

-- `Console_CmdHelp`: the blocks written and the text that strcpy puts into the response buffer.
pub help_handler : List Bytes → Outcome (List Bytes × Bytes)
unfolding print_commands
help_handler out = do
  out₁ ← printf out (codes "Available commands:" ++ newline)
  out₂ ← print_commands out₁ commands
  ok (out₂, codes "SUCCESS")

-- `Console_CmdFwVer`: strcpy overruns the response buffer of 50 bytes from 50 bytes of text on.
pub fw_ver_handler : (version : Bytes) → List Bytes → Outcome (List Bytes × Bytes)
fw_ver_handler version out =
    if ltb (length version) cmd_response_max_length then ok (out, version) else fault

-- The call through the table, line 99.
pub run_handler : (version : Bytes) → Handler → List Bytes → Outcome (List Bytes × Bytes)
unfolding help_handler fw_ver_handler
run_handler version Handler.cmd_help out = help_handler out
run_handler version Handler.cmd_fw_ver out = fw_ver_handler version out

-- The loop of `Console_RunCommand` over the table, with what follows it.
pub dispatch :
    (version name : Bytes) (args : List Bytes) → List ConsoleCmd → Outcome (ErrorCode × List Bytes)
unfolding serialize_response run_handler
dispatch version name args [] = do
  out ← serialize_response [] (codes "CMD_NOT_FOUND") [] (codes "FAIL")
  ok (ErrorCode.failure, out)
dispatch version name args (c ∷ cs) =
    let rest = dispatch version name args cs in
    if strcasecmp c.name name
    then (if c.expected_args != length args
        then (do
          out ← serialize_response [] (codes "CMD_INVALID_ARGS") [] (codes "FAIL")
          ok (ErrorCode.failure, out))
        else (do
          (out, response) ← run_handler version c.handler []
          out' ← serialize_response out name args response
          ok (ErrorCode.success, out')))
    else rest

-- `Console_RunCommand`.
pub run_command : (version cmd_line : Bytes) → Outcome (ErrorCode × List Bytes)
unfolding parse_command dispatch
run_command version cmd_line = elim (parse_command cmd_line) [
  | none ↦ do
    out ← serialize_response [] (codes "PARSE_ERROR") [] (codes "FAIL")
    ok (ErrorCode.failure, out)
  | some (name, args) ↦ dispatch version name args commands
]
