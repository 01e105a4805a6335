-- ===== src/Console/Output.antt =====
-- The blocks that the console writes: `Console_Printf` and `Console_SerializeResponse`.
use univr_info_workshop.Common.{
  ◌<◌, ◌≡◌, ◌↔◌, refl, sym, ap, ◌∙◌, List, [], ◌∷◌, ◌++◌, append_assoc, append-nil, arith, length,
  length-append, Outcome, ok, fault, ◌>>=◌,
}
use univr_info_workshop.Error.{ErrorCode}
use univr_info_workshop.Console.{Bytes, printf, serialize_response, print_args, line_terminator}

-- A block of a single write: not empty, and no longer than the text in the buffer.
abbrev pub IsBlock : Bytes → Type 0
IsBlock b = (0 < length b) × (length b < 256)

abbrev pub AreBlocks : List Bytes → Type 0
AreBlocks [] = Unit
AreBlocks (b ∷ bs) = IsBlock b × AreBlocks bs

-- All that is written, in one piece.
unfoldable pub joined : List Bytes → Bytes
joined [] = []
joined (b ∷ bs) = b ++ joined bs

pub printf-block :
    (out : List Bytes) (text : Bytes) → IsBlock text → printf out text ≡ ok (out ++ text ∷ [])
unfolding printf
printf-block out text h = ground arith

-- `Console_Printf` reads past the end of its buffer exactly when the formatted text is longer than
-- the 256 bytes of the buffer.
pub printf-fault :
    (out : List Bytes) (text : Bytes) → (printf out text ≡ fault) ↔ (256 < length text)
unfolding printf
printf-fault out text = (ground arith, ground arith)

-- The echo of a command without arguments, and its response.
pub serialize_response-blocks :
    (out : List Bytes) (cmd response : Bytes)
    → IsBlock cmd
    → length response < 249
    → serialize_response out cmd [] response
      ≡ ok ((out ++ cmd ∷ []) ++ (b':' ∷ response ++ line_terminator) ∷ [])
unfolding serialize_response print_args
serialize_response-blocks out cmd response h k = rw (
  printf-block out cmd h,
  printf-block (out ++ cmd ∷ []) (b':' ∷ response ++ line_terminator)
      (omega (arith, length-append response line_terminator)),
)

pub joined-append : (bs cs : List Bytes) → joined (bs ++ cs) ≡ joined bs ++ joined cs
unfolding joined
joined-append [] cs = refl
joined-append (b ∷ bs) cs =
    ap (λ t. b ++ t) (joined-append bs cs) ∙ sym (append_assoc b (joined bs) (joined cs))

AreBlocks-append : (bs cs : List Bytes) → AreBlocks bs → AreBlocks cs → AreBlocks (bs ++ cs)
AreBlocks-append [] cs hb hc = hc
AreBlocks-append (b ∷ bs) cs (h, hb) hc = (h, AreBlocks-append bs cs hb hc)

-- A line of the protocol: a word, a colon, a text and the end mark.
unfoldable pub answer : Bytes → Bytes → Bytes
answer word text = word ++ (b':' ∷ text ++ line_terminator)

-- A run that returns the code and writes the text, in blocks that the buffer can hold.
pub record Writes (run : Outcome (ErrorCode × List Bytes)) (spec : ErrorCode × Bytes) : Type 0 where
  pub blocks : List Bytes
  pub returns : run ≡ ok (spec.0, blocks)
  pub text : joined blocks ≡ spec.1
  pub bounded : AreBlocks blocks

-- A response behind the blocks that are written already.
pub serialize_response-Writes :
    (out : List Bytes) (word response : Bytes) (e : ErrorCode)
    → AreBlocks out
    → IsBlock word
    → length response < 249
    → Writes
        (serialize_response out word [] response >>= λ o. ok (e, o))
        (e, joined out ++ answer word response)
unfolding answer joined
serialize_response-Writes out word response e h k short = record {
  blocks = out ++ last;
  returns = rw (
    serialize_response-blocks out word response k short,
    append_assoc out (word ∷ []) ((b':' ∷ response ++ line_terminator) ∷ []),
  );
  text = joined-append out last ∙ ap (λ t. joined out ++ t) last_text;
  bounded =
      AreBlocks-append out last h
        (k, ((omega arith, omega (arith, length-append response line_terminator)), tt));
}
  where
    last : List Bytes
    last = word ∷ (b':' ∷ response ++ line_terminator) ∷ []

    last_text : joined last ≡ word ++ (b':' ∷ response ++ line_terminator)
    last_text = ap (λ t. word ++ t) (append-nil (b':' ∷ response ++ line_terminator))
