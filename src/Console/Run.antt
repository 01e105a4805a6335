-- ===== src/Console/Run.antt =====
-- `Console_RunCommand`: the whole answer to a command line.
use univr_info_workshop.Common.{
  suc, ◌<◌, ◌≡◌, true, Option, none, some, List, [], ◌∷◌, ◌++◌, arith, ltb, ◌!=◌, if◌then◌else◌,
  Bool-cases, Option-cases, inl, inr, length, codes, Outcome, ok, ◌>>=◌,
}
use univr_info_workshop.Error.{ErrorCode}
use univr_info_workshop.Console.{
  Bytes, newline, strcasecmp, Handler, commands, parse_command, printf, print_commands,
  serialize_response, run_handler, dispatch, run_command, cmd_response_max_length,
}
use univr_info_workshop.Console.Tokens.{strcasecmp-length}
use univr_info_workshop.Console.Output.{IsBlock, joined, answer, Writes, serialize_response-Writes}

abbrev pub help_text : Bytes
help_text =
    codes "Available commands:"
    ++ newline
    ++ codes "* HELP            - show this help message"
    ++ newline
    ++ codes "* SYS_FW_VER      - get firmware version"
    ++ newline

-- The specification: the code and the text for a command that was read, or not.
unfoldable pub reply : (version : Bytes) → Option (Bytes × List Bytes) → ErrorCode × Bytes
unfolding answer
reply version none = (ErrorCode.failure, answer (codes "PARSE_ERROR") (codes "FAIL"))
reply version (some (name, args)) =
    if strcasecmp (codes "HELP") name
    then elim args [
      | [] ↦ (ErrorCode.success, help_text ++ answer name (codes "SUCCESS"))
      | _ ↦ (ErrorCode.failure, answer (codes "CMD_INVALID_ARGS") (codes "FAIL"))
    ]
    else if strcasecmp (codes "SYS_FW_VER") name
    then elim args [
      | [] ↦ (ErrorCode.success, answer name version)
      | _ ↦ (ErrorCode.failure, answer (codes "CMD_INVALID_ARGS") (codes "FAIL"))
    ]
    else (ErrorCode.failure, answer (codes "CMD_NOT_FOUND") (codes "FAIL"))

module _ (version name : Bytes) (short : length version < cmd_response_max_length) where
  command : Handler → Outcome (ErrorCode × List Bytes)
  command h = run_handler version h [] >>= λ r.
      serialize_response r.0 name [] r.1 >>= λ out. ok (ErrorCode.success, out)

  help_blocks : List Bytes
  help_blocks =
      (codes "Available commands:" ++ newline)
      ∷ (codes "* HELP            - show this help message" ++ newline)
      ∷ (codes "* SYS_FW_VER      - get firmware version" ++ newline)
      ∷ []

  run_handler-help :
      strcasecmp (codes "HELP") name ≡ true
      → Writes
          (command Handler.cmd_help)
          (ErrorCode.success, help_text ++ answer name (codes "SUCCESS"))
  unfolding command run_handler print_commands printf help_blocks joined
  run_handler-help same =
      let sized : 4 ≡ length name = strcasecmp-length (codes "HELP") name same in
      serialize_response-Writes help_blocks name (codes "SUCCESS") ErrorCode.success (omega arith)
        (omega arith) (omega arith)

  run_handler-version :
      strcasecmp (codes "SYS_FW_VER") name ≡ true
      → Writes (command Handler.cmd_fw_ver) (ErrorCode.success, answer name version)
  unfolding command run_handler answer joined
  run_handler-version same =
      let sized : 10 ≡ length name = strcasecmp-length (codes "SYS_FW_VER") name same in
      let fits : ltb (length version) cmd_response_max_length ≡ true = ground arith in
      rw fits
        (serialize_response-Writes [] name version ErrorCode.success tt (omega arith) (omega arith))

-- The answer to a line that is refused.
fails :
    (word : Bytes)
    → IsBlock word
    → Writes
        (serialize_response [] word [] (codes "FAIL") >>= λ out. ok (ErrorCode.failure, out))
        (ErrorCode.failure, answer word (codes "FAIL"))
unfolding joined
fails word h = serialize_response-Writes [] word (codes "FAIL") ErrorCode.failure tt h (omega arith)

dispatch-Writes :
    (version name : Bytes) (args : List Bytes)
    → length version < cmd_response_max_length
    → Writes (dispatch version name args commands) (reply version (some (name, args)))
unfolding dispatch reply command
dispatch-Writes version name [] short = elim (Bool-cases (strcasecmp (codes "HELP") name)) [
  | inl help ↦ rw help (run_handler-help version name short help)
  | inr other ↦ elim (Bool-cases (strcasecmp (codes "SYS_FW_VER") name)) [
    | inl asked ↦ rw (other, asked) (run_handler-version version name short asked)
    | inr unknown ↦ rw (other, unknown) (fails (codes "CMD_NOT_FOUND") (omega arith))
  ]
]
dispatch-Writes version name (arg ∷ args) short =
    let more : (0 != suc (length args)) ≡ true = ground arith in
    let refused = fails (codes "CMD_INVALID_ARGS") (omega arith) in
    elim (Bool-cases (strcasecmp (codes "HELP") name)) [
      | inl help ↦ rw (help, more) refused
      | inr other ↦ elim (Bool-cases (strcasecmp (codes "SYS_FW_VER") name)) [
        | inl asked ↦ rw (other, asked, more) refused
        | inr unknown ↦ rw (other, unknown) (fails (codes "CMD_NOT_FOUND") (omega arith))
      ]
    ]

-- Every command line gets one answer: for every text, whatever it holds, and every version of fewer
-- than 50 bytes, the call returns, reads and writes within its buffers, and writes in blocks of 1 to
-- 255 bytes exactly the text of the specification. A line without a name is a PARSE_ERROR. HELP and
-- SYS_FW_VER, in any case of letters and without arguments, succeed, with the client's own spelling
-- echoed; with arguments they are refused as CMD_INVALID_ARGS. Any other name is CMD_NOT_FOUND.
pub run_command-Writes :
    (version cmd_line : Bytes)
    → length version < cmd_response_max_length
    → Writes (run_command version cmd_line) (reply version (parse_command cmd_line))
unfolding run_command reply
run_command-Writes version cmd_line short = elim (Option-cases (parse_command cmd_line)) [
  | inl e ↦ rw (e, run_command) (fails (codes "PARSE_ERROR") (omega arith))
  | inr ((name, args), e) ↦ rw (e, run_command) (dispatch-Writes version name args short)
]
