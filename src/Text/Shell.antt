-- ===== src/Text/Shell.antt =====
-- `appendShellString` of compat.c, an argument of a shell command.
use repmgr.Base.{
  ℕ, ◌≡◌, refl, sym, ap, ◌∙◌, inl, inr, Bool, true, false, ◌||◌, Option, none, some, List, [], ◌∷◌,
  ◌++◌, ◌==◌, ==_iff, if◌then◌else◌, arith, Bool-cases,
}
use mathlib.Core.Path.{subst}
use mathlib.Core.List.{append_assoc, append-nil}
use mathlib.Core.Bool.{true≢false}

abbrev pub is_newline : ℕ → Bool
is_newline c = c == b'\n' || c == b'\r'

-- What the loop appends for one byte.
unfoldable pub shell_quote : ℕ → List ℕ
shell_quote c =
    if c == b'\''
    then b'\'' ∷ b'"' ∷ b'\'' ∷ b'"' ∷ b'\'' ∷ []
    else if c == b'&'
    then b'\\' ∷ b'&' ∷ []
    else c ∷ []

-- The loop; `none` when the program exits.
unfoldable pub shell_quote_all : List ℕ → List ℕ → Option (List ℕ)
unfolding shell_quote
shell_quote_all buf [] = some buf
shell_quote_all buf (c ∷ str) =
    let rest = shell_quote_all (buf ++ shell_quote c) str in if is_newline c then none else rest

abbrev pub close_quote : Option (List ℕ) → Option (List ℕ)
close_quote none = none
close_quote (some buf) = some (buf ++ b'\'' ∷ [])

unfoldable pub append_shell_string : List ℕ → List ℕ → Option (List ℕ)
unfolding shell_quote_all
append_shell_string buf str = close_quote (shell_quote_all (buf ++ b'\'' ∷ []) str)

-- A POSIX shell's reading of a word that consists of quoted parts: between single quotes every
-- byte stands for itself, between double quotes every byte but a backslash, a dollar sign and a
-- backquote, which this reading refuses.
pub data Quoting : Type 0 where
  bare single double : Quoting

abbrev push : ℕ → Option (List ℕ) → Option (List ℕ)
push c none = none
push c (some word) = some (c ∷ word)

abbrev pub read_word : Quoting → List ℕ → Option (List ℕ)
read_word bare [] = some []
read_word single [] = none
read_word double [] = none
read_word bare (c ∷ text) =
    let quoted = read_word single text in
    let doubly = read_word double text in
    if c == b'\'' then quoted else if c == b'"' then doubly else none
read_word single (c ∷ text) =
    let after = read_word bare text in
    let later = read_word single text in if c == b'\'' then after else push c later
read_word double (c ∷ text) =
    let after = read_word bare text in
    let later = read_word double text in
    if c == b'"' then after else if c == b'\\' || c == b'$' || c == b'`' then none else push c later

-- The text with a backslash before every ampersand.
abbrev pub with_ampersands : List ℕ → List ℕ
with_ampersands [] = []
with_ampersands (c ∷ str) =
    let rest = with_ampersands str in if c == b'&' then b'\\' ∷ b'&' ∷ rest else c ∷ rest

abbrev pub has_newline : List ℕ → Bool
has_newline [] = false
has_newline (c ∷ str) = is_newline c || has_newline str

abbrev quoted : List ℕ → List ℕ
unfolding shell_quote
quoted [] = []
quoted (c ∷ str) = shell_quote c ++ quoted str

shell_quote_all-eq :
    (buf str : List ℕ)
    → has_newline str ≡ false
    → shell_quote_all buf str ≡ some (buf ++ quoted str)
unfolding shell_quote_all
shell_quote_all-eq buf [] h = ap some (sym (append-nil buf))
shell_quote_all-eq buf (c ∷ str) h = elim (Bool-cases (is_newline c)) [
  | inl newline ↦ absurd (true≢false (sym (rw newline refl) ∙ h))
  | inr other ↦ rw other (
      shell_quote_all-eq (buf ++ shell_quote c) str (sym (rw other refl) ∙ h)
      ∙ ap some (append_assoc buf (shell_quote c) (quoted str)))
]

shell_quote_all-none : (buf str : List ℕ) → has_newline str ≡ true → shell_quote_all buf str ≡ none
unfolding shell_quote_all
shell_quote_all-none buf [] h = ground arith
shell_quote_all-none buf (c ∷ str) h =
    ground (arith, shell_quote_all-none (buf ++ shell_quote c) str)

read_word-shell_quote :
    (c : ℕ) (text : List ℕ)
    → read_word single (shell_quote c ++ text) ≡ (
        if c == b'&'
        then push b'\\' (push b'&' (read_word single text))
        else push c (read_word single text))
unfolding shell_quote
read_word-shell_quote c text = elim (Bool-cases (c == b'\'')) [
  | inl quote ↦
      subst
        (λ x. read_word single (shell_quote x ++ text) ≡ (
          if x == b'&'
          then push b'\\' (push b'&' (read_word single text))
          else push x (read_word single text)))
        (sym ((==_iff c b'\'').0 quote)) refl
  | inr other ↦ elim (Bool-cases (c == b'&')) [
    | inl ampersand ↦ rw (other, ampersand) refl
    | inr plain ↦ rw (other, plain) (rw other refl)
  ]
]

push-if :
    (c : ℕ) (word : List ℕ)
    → (if c == b'&' then push b'\\' (push b'&' (some word)) else push c (some word))
      ≡ some (if c == b'&' then b'\\' ∷ b'&' ∷ word else c ∷ word)
push-if c word = ground arith

read_word-quoted :
    (str : List ℕ) → read_word single (quoted str ++ b'\'' ∷ []) ≡ some (with_ampersands str)
unfolding quoted
read_word-quoted [] = refl
read_word-quoted (c ∷ str) = rw (append_assoc (shell_quote c) (quoted str) (b'\'' ∷ [])) (
    read_word-shell_quote c (quoted str ++ b'\'' ∷ [])
    ∙ rw (read_word-quoted str) (push-if c (with_ampersands str)))

-- A string without a newline or a carriage return is appended as one word of the shell, and the
-- word is the string itself but for a backslash that the shell sees before every ampersand; with
-- one of them, the program exits.
pub append_shell_string-read_word :
    (buf str : List ℕ)
    → (written : List ℕ) × (append_shell_string buf str
        ≡ (if has_newline str then none else some (buf ++ written)))
      × (read_word bare written ≡ some (with_ampersands str))
unfolding append_shell_string
append_shell_string-read_word buf str = elim (Bool-cases (has_newline str)) [
  | inl newline ↦ (
    b'\'' ∷ quoted str ++ b'\'' ∷ [],
    rw (newline, shell_quote_all-none (buf ++ b'\'' ∷ []) str newline) refl,
    read_word-quoted str,
  )
  | inr fine ↦ (
    b'\'' ∷ quoted str ++ b'\'' ∷ [],
    rw (fine, shell_quote_all-eq (buf ++ b'\'' ∷ []) str fine)
        (ap some (
          append_assoc (buf ++ b'\'' ∷ []) (quoted str) (b'\'' ∷ [])
          ∙ append_assoc buf (b'\'' ∷ []) (quoted str ++ b'\'' ∷ []))),
    read_word-quoted str,
  )
]
