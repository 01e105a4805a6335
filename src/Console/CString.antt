-- ===== src/Console/CString.antt =====
-- The functions of string.h and strings.h that console.c calls, on lists of bytes.
use univr_info_workshop.Common.{
  ℕ, ◌+◌, Bool, true, false, ◌&&◌, Option, none, some, List, [], ◌∷◌, leb, ◌==◌, if◌then◌else◌,
}

-- Whether `c` is one of the delimiters.
unfoldable pub is_delim : List ℕ → ℕ → Bool
is_delim [] c = false
is_delim (d ∷ ds) c = if d == c then true else is_delim ds c

-- The text from its first byte that is no delimiter on.
unfoldable pub skip_delims : List ℕ → List ℕ → List ℕ
skip_delims ds [] = []
skip_delims ds (c ∷ s) = if is_delim ds c then skip_delims ds s else c ∷ s

-- The bytes before the first delimiter, and those behind it.
unfoldable pub split_at_delim : List ℕ → List ℕ → List ℕ × List ℕ
split_at_delim ds [] = ([], [])
split_at_delim ds (c ∷ s) =
    let (token, rest) = split_at_delim ds s in if is_delim ds c then ([], s) else (c ∷ token, rest)

abbrev pub token_of : List ℕ × List ℕ → Option (List ℕ × List ℕ)
token_of ([], rest) = none
token_of (c ∷ token, rest) = some (c ∷ token, rest)

-- strtok_r: the next token of the text and where the next call goes on; `none` for NULL.
unfoldable pub strtok : List ℕ → List ℕ → Option (List ℕ × List ℕ)
unfolding is_delim skip_delims split_at_delim
strtok ds s = token_of (split_at_delim ds (skip_delims ds s))

-- tolower in the C locale.
unfoldable pub to_lower : ℕ → ℕ
to_lower c = if leb b'A' c && leb c b'Z' then c + 32 else c

-- Whether strcasecmp returns 0.
unfoldable pub strcasecmp : List ℕ → List ℕ → Bool
unfolding to_lower
strcasecmp [] [] = true
strcasecmp [] (d ∷ t) = false
strcasecmp (c ∷ s) [] = false
strcasecmp (c ∷ s) (d ∷ t) = to_lower c == to_lower d && strcasecmp s t
