-- ===== src/Console/Net/Session.antt =====
-- A whole session of a client of the remote console: the reads, the answers, and what reaches the client.
use univr_info_workshop.Common.{
  ℕ, ◌<◌, ◌≡◌, ◌↔◌, ◌∙◌, refl, ap, sym, Option, List, [], ◌∷◌, ◌++◌, length, ok,
}
use univr_info_workshop.Error.{ErrorCode}
use univr_info_workshop.Console.{Bytes, parse_command, cmd_response_max_length}
use univr_info_workshop.Console.Output.{joined, joined-append}
use univr_info_workshop.Console.Run.{reply}
use univr_info_workshop.Console.Net.{c_string, but_last, get_command}
use univr_info_workshop.Console.Net.Answers.{delivered, AreAnswers, get_command-AreAnswers}
use univr_info_workshop.Console.Net.Wire.{
  AreWhole, on_the_wire, on_the_wire-whole, on_the_wire-short,
}

-- The blocks that are written in the session, one call of write for each.
pub written : List (ErrorCode × List Bytes) → List Bytes
written [] = []
written ((e, blocks) ∷ answers) = blocks ++ written answers

-- What a client should get for its reads.
pub dialogue : (version : Bytes) → List Bytes → Bytes
dialogue version [] = []
dialogue version (chunk ∷ chunks) =
    (reply version (parse_command (c_string (but_last chunk)))).1 ++ dialogue version chunks

written-dialogue :
    (version : Bytes) (chunks : List Bytes) (answers : List (ErrorCode × List Bytes))
    → AreAnswers version chunks answers
    → joined (written answers) ≡ dialogue version chunks
unfolding written dialogue joined
written-dialogue version [] [] all = refl
written-dialogue version [] (answer ∷ answers) all = elim all [ ]
written-dialogue version (chunk ∷ chunks) [] all = elim all [ ]
written-dialogue version (chunk ∷ chunks) ((e, blocks) ∷ answers) (code, text, bounded, all) =
    joined-append blocks (written answers)
    ∙ ap (λ t. t ++ joined (written answers)) text
    ∙ ap (λ t. (reply version (parse_command (c_string (but_last chunk)))).1 ++ t)
        (written-dialogue version chunks answers all)

-- A session as its client sees it: whatever the reads are, with a version of fewer than 50 bytes, the session
-- comes to its end, and the client has received exactly the answers of the specification to the reads before the
-- first empty one, in order, if and only if every write of the session took its whole block.
pub get_command-on_the_wire :
    (version : Bytes) (chunks : List Bytes) (results : ℕ → Option ℕ)
    → length version < cmd_response_max_length
    → (answers : List (ErrorCode × List Bytes)) × (get_command version chunks ≡ ok answers)
      × (on_the_wire results (written answers) ≡ dialogue version (delivered chunks)
          ↔ AreWhole results (written answers))
get_command-on_the_wire version chunks results short =
    let (answers, came, all) = get_command-AreAnswers version chunks short in
    let text = written-dialogue version (delivered chunks) answers all in
    (
      answers,
      came,
      (
        λ e. (on_the_wire-short results (written answers)).1 (ap length (e ∙ sym text)),
        λ h. on_the_wire-whole results (written answers) h ∙ text,
      ),
    )
