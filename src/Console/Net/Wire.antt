-- ===== src/Console/Net/Wire.antt =====
-- `Console_WriteFd` of main/src/console/net_console.c: what reaches the client of the answer to a command.
-- The results of the system's write are an argument, one for each call.
use univr_info_workshop.Common.{
  ℕ, suc, ◌≤◌, ◌<◌, ◌≡◌, ◌↔◌, refl, ap, sym, ◌∙◌, zero, Option, none, some, List, [], ◌∷◌, ◌++◌,
  take, length, length-append, ok, arith,
}
use univr_info_workshop.Console.{Bytes, run_command, parse_command, cmd_response_max_length}
use univr_info_workshop.Console.Output.{joined}
use univr_info_workshop.Console.Run.{reply, run_command-Writes}

-- The bytes that a write takes: a number, or none of them if it fails.
abbrev pub accepted : Option ℕ → ℕ
accepted none = 0
accepted (some n) = n

-- `Console_WriteFd` passes the result of write on; the first bytes of the string have gone out.
pub write_fd : (written : Option ℕ) (string : Bytes) → Bytes × Option ℕ
write_fd written string = (take (accepted written) string, written)

-- What goes out for the blocks of an answer: `Console_Printf` does not look at the result of a write, and
-- goes on with its next block.
pub on_the_wire : (results : ℕ → Option ℕ) → List Bytes → Bytes
unfolding write_fd
on_the_wire results [] = []
on_the_wire results (b ∷ bs) = (write_fd (results 0) b).0 ++ on_the_wire (λ i. results (suc i)) bs

-- Every write takes its whole block.
abbrev pub AreWhole : (results : ℕ → Option ℕ) → List Bytes → Type 0
AreWhole results [] = Unit
AreWhole results (b ∷ bs) = (length b ≤ accepted (results 0)) × AreWhole (λ i. results (suc i)) bs

take-all : (n : ℕ) (s : Bytes) → length s ≤ n → take n s ≡ s
take-all zero [] h = refl
take-all (suc n) [] h = refl
take-all zero (c ∷ s) h = absurd (omega (arith, h))
take-all (suc n) (c ∷ s) h = ap (λ t. c ∷ t) (take-all n s (omega (arith, h)))

length-take :
    (n : ℕ) (s : Bytes)
    → (length (take n s) ≤ length s) × (length (take n s) ≡ length s → length s ≤ n)
length-take zero [] = (omega arith, λ e. omega arith)
length-take zero (c ∷ s) = (omega arith, λ e. omega (arith, e))
length-take (suc n) [] = (omega arith, λ e. omega arith)
length-take (suc n) (c ∷ s) =
    let (fits, whole) = length-take n s in
    (omega (arith, fits), λ e. omega (arith, whole (omega (arith, e))))

pub on_the_wire-whole :
    (results : ℕ → Option ℕ) (bs : List Bytes)
    → AreWhole results bs
    → on_the_wire results bs ≡ joined bs
unfolding on_the_wire joined
on_the_wire-whole results [] h = refl
on_the_wire-whole results (b ∷ bs) (h, hs) =
    rw (take-all _ b h, on_the_wire-whole (λ i. results (suc i)) bs hs) refl

-- A write that falls short is not made up for by another.
pub on_the_wire-short :
    (results : ℕ → Option ℕ) (bs : List Bytes)
    → (length (on_the_wire results bs) ≤ length (joined bs))
      × (length (on_the_wire results bs) ≡ length (joined bs) → AreWhole results bs)
unfolding on_the_wire joined
on_the_wire-short results [] = (omega arith, λ e. tt)
on_the_wire-short results (b ∷ bs) =
    let (fits, whole) = length-take (accepted (results 0)) b in
    let (rest, all) = on_the_wire-short (λ i. results (suc i)) bs in
    let out =
      length-append (take (accepted (results 0)) b) (on_the_wire (λ i. results (suc i)) bs) in
    let text = length-append b (joined bs) in
    (
      omega (arith, fits, rest, out, text),
      λ e. (
        whole (omega (arith, fits, rest, out, text, e)),
        all (omega (arith, fits, rest, out, text, e)),
      ),
    )

-- A client gets the answer to its command whole if every write takes its whole block, and never otherwise: the
-- blocks that a short or failed write leaves out are lost, and the command's result is the same.
pub run_command-on_the_wire :
    (version text : Bytes) (results : ℕ → Option ℕ)
    → length version < cmd_response_max_length
    → let spec = reply version (parse_command text) in
      (blocks : List Bytes) × (run_command version text ≡ ok (spec.0, blocks))
      × (on_the_wire results blocks ≡ spec.1 ↔ AreWhole results blocks)
run_command-on_the_wire version text results short =
    let run = run_command-Writes version text short in
    (
      run.blocks,
      run.returns,
      (
        λ e. (on_the_wire-short results run.blocks).1 (ap length (e ∙ sym run.text)),
        λ h. on_the_wire-whole results run.blocks h ∙ run.text,
      ),
    )
