-- ===== src/Console/Parse.antt =====
-- Reading a command line back.
use univr_info_workshop.Common.{
  ℕ, zero, suc, ◌≤◌, ◌≡◌, ◌≢◌, refl, ap, subst, ◌∙◌, Option-cases, inl, inr, true, none, some, List,
  [], ◌∷◌, ◌++◌, arith, length, codes,
}
use univr_info_workshop.Console.{
  Bytes, newline, strtok, parse_args, parse_command, cmd_args_max_length,
}
use univr_info_workshop.Console.CString.{is_delim}
use univr_info_workshop.Console.Tokens.{
  Clear, Clear-append, strtok-append, strtok-all, strtok-nil, strtok-Clear,
}

-- The arguments with a separator before each but the first.
unfoldable pub join_args : List Bytes → Bytes
join_args [] = []
join_args (arg ∷ []) = arg
join_args (arg ∷ arg' ∷ args) = arg ++ b';' ∷ join_args (arg' ∷ args)

-- What a client sends before the end of the line: the name, and the arguments behind an equals sign.
unfoldable pub command_line : Bytes → List Bytes → Bytes
unfolding join_args
command_line name args = name ++ b'=' ∷ join_args args

-- A word that can be sent: not empty, and without the bytes `ds`.
abbrev pub IsWord : Bytes → Bytes → Type 0
IsWord ds s = (s ≢ []) × Clear ds s

-- Each argument can be sent: it has no separator and no end of line in it.
abbrev pub AreArgs : List Bytes → Type 0
AreArgs [] = Unit
AreArgs (arg ∷ args) = IsWord (codes ";") arg × Clear newline arg × AreArgs args

abbrev pub AreWords : List Bytes → Type 0
AreWords [] = Unit
AreWords (arg ∷ args) = IsWord (codes ";") arg × AreWords args

parse_args-join_args :
    (n : ℕ) (args : List Bytes)
    → length args ≤ n
    → AreArgs args
    → parse_args n (join_args args) ≡ args
unfolding parse_args join_args is_delim
parse_args-join_args zero [] h a = refl
parse_args-join_args (suc n) [] h a = rw (strtok-nil (codes ";"), parse_args)
parse_args-join_args zero (arg ∷ args) h a = absurd (omega arith)
parse_args-join_args (suc n) (arg ∷ []) h ((ne, c), _, _) =
    rw (strtok-all (codes ";") arg ne c, parse_args)
      (ap (λ l. arg ∷ l) (parse_args-join_args n [] (omega arith) tt))
parse_args-join_args (suc n) (arg ∷ arg' ∷ args) h ((ne, c), _, a) =
    rw (strtok-append (codes ";") arg b';' (join_args (arg' ∷ args)) ne c refl, parse_args)
      (ap (λ l. arg ∷ l) (parse_args-join_args n (arg' ∷ args) (omega arith) a))

join_args-Clear : (args : List Bytes) → AreArgs args → Clear newline (join_args args)
unfolding join_args is_delim
join_args-Clear [] a = tt
join_args-Clear (arg ∷ []) (_, c, _) = c
join_args-Clear (arg ∷ arg' ∷ args) (_, c, a) =
    Clear-append newline arg (b';' ∷ join_args (arg' ∷ args)) c
      (refl, join_args-Clear (arg' ∷ args) a)

parse_command_lem :
    (cmd_line : Bytes) {line name rest rest' : Bytes}
    → strtok newline cmd_line ≡ some (line, rest)
    → strtok (codes "=") line ≡ some (name, rest')
    → parse_command cmd_line ≡ some (name, parse_args cmd_args_max_length rest')
unfolding parse_command
parse_command_lem cmd_line e f = rw (e, f, parse_command)

append-ne_nil : (s t : Bytes) → s ≢ [] → s ++ t ≢ []
append-ne_nil [] t h e = h refl
append-ne_nil (c ∷ s) t h e = cc

-- A line from a client is read back as it was meant: the name and all the arguments, at most ten of
-- them, whatever stands behind the first byte of the end of the line.
pub parse_command-command_line :
    (name : Bytes) (args : List Bytes) (end_byte : ℕ) (junk : Bytes)
    → IsWord (codes "=") name
    → Clear newline name
    → AreArgs args
    → length args ≤ cmd_args_max_length
    → is_delim newline end_byte ≡ true
    → parse_command (command_line name args ++ end_byte ∷ junk) ≡ some (name, args)
unfolding command_line is_delim
parse_command-command_line name args end_byte junk (ne, c) n a h e =
    let clear =
      Clear-append newline name (b'=' ∷ join_args args) n (refl, join_args-Clear args a) in
    let line = name ++ b'=' ∷ join_args args in
    let read =
      strtok-append newline line end_byte junk (append-ne_nil name (b'=' ∷ join_args args) ne) clear
        e in
    let named = strtok-append (codes "=") name b'=' (join_args args) ne c refl in
    parse_command_lem (line ++ end_byte ∷ junk) read named
    ∙ ap (λ l. some (name, l)) (parse_args-join_args cmd_args_max_length args h a)

parse_args-AreWords :
    (n : ℕ) (rest : Bytes) → AreWords (parse_args n rest) × (length (parse_args n rest) ≤ n)
unfolding parse_args
parse_args-AreWords zero rest = (tt, omega arith)
parse_args-AreWords (suc n) rest = elim (Option-cases (strtok (codes ";") rest)) [
  | inl e ↦ rw (e, parse_args) (tt, omega arith)
  | inr ((arg, rest'), e) ↦
      let (clear, ne) = strtok-Clear (codes ";") rest e in
      let (words, few) = parse_args-AreWords n rest' in
      rw (e, parse_args) (((ne, clear), words), omega (arith, few))
]

-- Whatever the line, at most ten arguments are read, the name is a word without equals signs, and
-- each argument is a word without separators.
pub parse_command-words :
    (cmd_line : Bytes) {name : Bytes} {args : List Bytes}
    → parse_command cmd_line ≡ some (name, args)
    → IsWord (codes "=") name × AreWords args × (length args ≤ cmd_args_max_length)
unfolding parse_command
parse_command-words cmd_line {name} {args} e = elim (Option-cases (strtok newline cmd_line)) [
  | inl p ↦ let q : parse_command cmd_line ≡ none = rw (p, parse_command) in absurd (cc)
  | inr ((line, r), p) ↦ elim (Option-cases (strtok (codes "=") line)) [
    | inl p' ↦ let q : parse_command cmd_line ≡ none = rw (p, p', parse_command) in absurd (cc)
    | inr ((name', rest), p') ↦
        let q = parse_command_lem cmd_line p p' in
        let named : name' ≡ name = cc in
        let read : parse_args cmd_args_max_length rest ≡ args = cc in
        let (clear, ne) = strtok-Clear (codes "=") line p' in
        let (words, few) = parse_args-AreWords cmd_args_max_length rest in
        (
          subst (IsWord (codes "=")) named (ne, clear),
          subst AreWords read words,
          subst (λ l. length l ≤ cmd_args_max_length) read few,
        )
  ]
]
