-- ===== src/Console/Tokens.antt =====
-- What strtok_r and strcasecmp do with a text.
use univr_info_workshop.Common.{
  ℕ, ◌≡◌, ◌≢◌, refl, subst, true, false, none, some, List, [], ◌∷◌, ◌++◌, arith, Bool-cases, inl,
  inr, length,
}
use univr_info_workshop.Console.CString.{
  is_delim, skip_delims, split_at_delim, token_of, strtok, strcasecmp,
}

-- No byte of the text is a delimiter.
abbrev pub Clear : List ℕ → List ℕ → Type 0
Clear ds [] = Unit
Clear ds (c ∷ s) = (is_delim ds c ≡ false) × Clear ds s

pub Clear-append : (ds s t : List ℕ) → Clear ds s → Clear ds t → Clear ds (s ++ t)
Clear-append ds [] t hs ht = ht
Clear-append ds (c ∷ s) t hs ht = (hs.0, Clear-append ds s t hs.1 ht)

-- A clear text runs up to the delimiter behind it, or to the end.
split_at_delim-append :
    (ds s : List ℕ) (d : ℕ) (t : List ℕ)
    → Clear ds s
    → is_delim ds d ≡ true
    → split_at_delim ds (s ++ d ∷ t) ≡ (s, t)
unfolding split_at_delim
split_at_delim-append ds [] d t hs hd = rw hd
split_at_delim-append ds (c ∷ s) d t hs hd = rw (hs.0, split_at_delim-append ds s d t hs.1 hd)

split_at_delim-all : (ds s : List ℕ) → Clear ds s → split_at_delim ds s ≡ (s, [])
unfolding split_at_delim
split_at_delim-all ds [] hs = refl
split_at_delim-all ds (c ∷ s) hs = rw (hs.0, split_at_delim-all ds s hs.1)

pub strtok-append :
    (ds s : List ℕ) (d : ℕ) (t : List ℕ)
    → s ≢ []
    → Clear ds s
    → is_delim ds d ≡ true
    → strtok ds (s ++ d ∷ t) ≡ some (s, t)
unfolding strtok
strtok-append ds [] d t ne hs hd = absurd (ne refl)
strtok-append ds (c ∷ s) d t ne hs hd = rw (hs.0, split_at_delim-append ds (c ∷ s) d t hs hd)

pub strtok-all : (ds s : List ℕ) → s ≢ [] → Clear ds s → strtok ds s ≡ some (s, [])
unfolding strtok
strtok-all ds [] ne hs = absurd (ne refl)
strtok-all ds (c ∷ s) ne hs = rw (hs.0, split_at_delim-all ds (c ∷ s) hs)

pub strtok-nil : (ds : List ℕ) → strtok ds [] ≡ none
unfolding strtok skip_delims split_at_delim
strtok-nil ds = refl

split_at_delim-Clear : (ds s : List ℕ) → Clear ds (split_at_delim ds s).0
unfolding split_at_delim
split_at_delim-Clear ds [] = tt
split_at_delim-Clear ds (c ∷ s) = elim (Bool-cases (is_delim ds c)) [
  | inl e ↦ rw e tt
  | inr e ↦ rw e (e, split_at_delim-Clear ds s)
]

token_of-Clear :
    (ds : List ℕ) (p : List ℕ × List ℕ) {token rest : List ℕ}
    → Clear ds p.0
    → token_of p ≡ some (token, rest)
    → Clear ds token × (token ≢ [])
token_of-Clear ds ([], r) h e = ground arith
token_of-Clear ds (c ∷ s, r) {token} h e =
    let p : (c ∷ s) ≡ token = cc in (subst (Clear ds) p h, λ q. cc)

-- A token is not empty and holds no delimiter.
pub strtok-Clear :
    (ds s : List ℕ) {token rest : List ℕ}
    → strtok ds s ≡ some (token, rest)
    → Clear ds token × (token ≢ [])
unfolding strtok
strtok-Clear ds s e =
    token_of-Clear ds (split_at_delim ds (skip_delims ds s))
      (split_at_delim-Clear ds (skip_delims ds s)) e

-- Texts that strcasecmp takes for equal have the same length.
pub strcasecmp-length : (s t : List ℕ) → strcasecmp s t ≡ true → length s ≡ length t
unfolding strcasecmp
strcasecmp-length [] [] h = refl
strcasecmp-length [] (d ∷ t) h = ground arith
strcasecmp-length (c ∷ s) [] h = ground arith
strcasecmp-length (c ∷ s) (d ∷ t) h = ground (arith, strcasecmp-length s t)
