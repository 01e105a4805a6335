-- ===== src/Console/Net/Split.antt =====
-- A command that arrives in several reads.
use univr_info_workshop.Common.{
  ℕ, suc, ◌<◌, ◌≡◌, refl, ap, ◌∙◌, none, List, [], ◌∷◌, map, length, codes, ok,
}
use univr_info_workshop.Error.{ErrorCode}
use univr_info_workshop.Console.{Bytes, parse_command, cmd_response_max_length}
use univr_info_workshop.Console.CString.{strtok}
use univr_info_workshop.Console.Output.{joined, answer}
use univr_info_workshop.Console.Run.{reply, run_command-Writes}
use univr_info_workshop.Console.Net.{c_string, but_last, get_command}

-- Each answer is the refusal of a line that holds no command.
abbrev pub AreRefused : List (ErrorCode × List Bytes) → Type 0
AreRefused [] = Unit
AreRefused ((e, blocks) ∷ answers) =
    (e ≡ ErrorCode.failure)
    × (joined blocks ≡ answer (codes "PARSE_ERROR") (codes "FAIL"))
    × AreRefused answers

-- The only byte of a read is written over by the terminator.
nothing_left : (c : ℕ) → parse_command (c_string (but_last (c ∷ []))) ≡ none
unfolding parse_command c_string but_last strtok
nothing_left c = refl

-- A client whose bytes arrive in reads of their own never has a command run, whatever it sends and with any
-- version of fewer than 50 bytes: each byte gets a PARSE_ERROR as its answer.
pub get_command-AreRefused :
    (version : Bytes) (s : Bytes)
    → length version < cmd_response_max_length
    → (answers : List (ErrorCode × List Bytes)) × (get_command version (map (λ c. c ∷ []) s)
        ≡ ok answers)
      × (length answers ≡ length s)
      × AreRefused answers
unfolding get_command reply
get_command-AreRefused version [] short = ([], refl, refl, tt)
get_command-AreRefused version (c ∷ s) short =
    let run = run_command-Writes version (c_string (but_last (c ∷ []))) short in
    let refused = ap (reply version) (nothing_left c) in
    let (answers, e, same, all) = get_command-AreRefused version s short in
    (
      ((reply version (parse_command (c_string (but_last (c ∷ []))))).0, run.blocks) ∷ answers,
      rw (run.returns, e),
      ap suc same,
      (ap (λ r. r.0) refused, run.text ∙ ap (λ r. r.1) refused, all),
    )
