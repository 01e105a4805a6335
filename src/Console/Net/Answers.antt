-- ===== src/Console/Net/Answers.antt =====
-- What a client of the remote console is answered.
use univr_info_workshop.Common.{
  ℕ, ◌≤◌, ◌<◌, ◌≡◌, refl, ap, sym, ◌∙◌, some, List, [], ◌∷◌, ◌++◌, append_assoc, arith, ◌==◌,
  if◌then◌else◌, Bool-cases, inl, inr, length, codes, ok,
}
use univr_info_workshop.Error.{ErrorCode}
use univr_info_workshop.Console.{
  Bytes, newline, parse_command, cmd_response_max_length, cmd_args_max_length,
}
use univr_info_workshop.Console.CString.{is_delim}
use univr_info_workshop.Console.Tokens.{Clear, Clear-append}
use univr_info_workshop.Console.Parse.{IsWord, AreArgs, command_line, parse_command-command_line}
use univr_info_workshop.Console.Output.{joined, AreBlocks}
use univr_info_workshop.Console.Run.{reply, run_command-Writes}
use univr_info_workshop.Console.Net.{c_string, but_last, get_command}

-- The reads before the first empty one.
pub delivered : List Bytes → List Bytes
delivered [] = []
delivered (chunk ∷ chunks) = if length chunk == 0 then [] else chunk ∷ delivered chunks

-- The answers are those of the reads, one for each: the code, and the text in blocks.
abbrev pub AreAnswers : (version : Bytes) → List Bytes → List (ErrorCode × List Bytes) → Type 0
AreAnswers version [] [] = Unit
AreAnswers version [] (answer ∷ answers) = ⊥
AreAnswers version (chunk ∷ chunks) [] = ⊥
AreAnswers version (chunk ∷ chunks) ((e, blocks) ∷ answers) =
    let spec = reply version (parse_command (c_string (but_last chunk))) in
    (e ≡ spec.0) × (joined blocks ≡ spec.1) × AreBlocks blocks × AreAnswers version chunks answers

-- A client is served to the end, whatever it sends: each read before the first empty one gets the
-- answer of the specification, in order, and the call returns.
pub get_command-AreAnswers :
    (version : Bytes) (chunks : List Bytes)
    → length version < cmd_response_max_length
    → (answers : List (ErrorCode × List Bytes)) × (get_command version chunks ≡ ok answers)
      × AreAnswers version (delivered chunks) answers
unfolding get_command delivered
get_command-AreAnswers version [] short = ([], refl, tt)
get_command-AreAnswers version (chunk ∷ chunks) short = elim (Bool-cases (length chunk == 0)) [
  | inl over ↦ rw over ([], refl, tt)
  | inr more ↦
      let run = run_command-Writes version (c_string (but_last chunk)) short in
      let (answers, e, all) = get_command-AreAnswers version chunks short in
      let spec = reply version (parse_command (c_string (but_last chunk))) in
      rw more
        ((spec.0, run.blocks) ∷ answers, rw (run.returns, e), (refl, run.text, run.bounded, all))
]

but_last-snoc : (s : Bytes) (c : ℕ) → but_last (s ++ c ∷ []) ≡ s
unfolding but_last
but_last-snoc [] c = refl
but_last-snoc (d ∷ []) c = refl
but_last-snoc (d ∷ e ∷ s) c = ap (λ t. d ∷ t) (but_last-snoc (e ∷ s) c)

c_string-all : (s : Bytes) → Clear (0 ∷ []) s → c_string s ≡ s
unfolding c_string is_delim
c_string-all [] h = refl
c_string-all (c ∷ s) h = ground (arith, c_string-all s h.1)

-- A whole command that arrives in one read, ended by CR LF, is run as it was meant: the name and
-- the arguments are those that the client sent.
pub whole_command :
    (name : Bytes) (args : List Bytes)
    → IsWord (codes "=") name
    → Clear newline name
    → AreArgs args
    → length args ≤ cmd_args_max_length
    → Clear (0 ∷ []) (command_line name args)
    → parse_command (c_string (but_last (command_line name args ++ newline))) ≡ some (name, args)
unfolding is_delim
whole_command name args w n a h z =
    let line = command_line name args in
    let text : Bytes = line ++ 13 ∷ [] in
    let cut : but_last (line ++ newline) ≡ text =
      ap but_last (sym (append_assoc line (13 ∷ []) (10 ∷ []))) ∙ but_last-snoc text 10 in
    let whole = c_string-all text (Clear-append (0 ∷ []) line (13 ∷ []) z (refl, tt)) in
    ap (λ t. parse_command (c_string t)) cut
    ∙ ap parse_command whole
    ∙ parse_command-command_line name args 13 [] w n a h refl
