-- ===== src/Text/ConnString.antt =====
-- `appendConnStrVal` of compat.c, the value of a parameter in a libpq connection string.
use repmgr.Base.{
  ℕ, ◌≡◌, refl, sym, ap, ◌∙◌, inl, inr, Bool, true, false, not, ◌&&◌, ◌||◌, Option, none, some,
  List, [], ◌∷◌, ◌++◌, leb, ◌==◌, if◌then◌else◌, arith, Bool-cases,
}
use mathlib.Core.List.{append_assoc}
use mathlib.Core.Bool.{true≢false}

abbrev pub is_plain : ℕ → Bool
is_plain c =
    (leb b'a' c && leb c b'z')
    || (leb b'A' c && leb c b'Z')
    || (leb b'0' c && leb c b'9')
    || c == b'_'
    || c == b'.'

-- The loop that finds out whether quotes are needed, with the variable `needquotes`.
unfoldable pub needs_quotes : Bool → List ℕ → Bool
needs_quotes needquotes [] = needquotes
needs_quotes needquotes (c ∷ str) =
    let rest = needs_quotes false str in if not (is_plain c) then true else rest

unfoldable pub escape_value : List ℕ → List ℕ
escape_value [] = []
escape_value (c ∷ str) =
    let rest = escape_value str in if c == b'\'' || c == b'\\' then b'\\' ∷ c ∷ rest else c ∷ rest

unfoldable pub append_conn_str_val : List ℕ → List ℕ → List ℕ
unfolding needs_quotes escape_value
append_conn_str_val buf str =
    if needs_quotes true str then buf ++ b'\'' ∷ escape_value str ++ b'\'' ∷ [] else buf ++ str

-- What libpq's documentation says about a value: within single quotes a backslash stands before
-- a quote or a backslash that belongs to the value; without quotes the value ends at white space.
abbrev push : ℕ → Option (List ℕ × List ℕ) → Option (List ℕ × List ℕ)
push c none = none
push c (some (value, rest)) = some (c ∷ value, rest)

abbrev pub read_quoted : List ℕ → Option (List ℕ × List ℕ)
read_quoted [] = none
read_quoted (c ∷ []) = if c == b'\'' then some ([], []) else none
read_quoted (c ∷ d ∷ text) =
    let escaped = read_quoted text in
    let later = read_quoted (d ∷ text) in
    if c == b'\'' then some ([], d ∷ text) else if c == b'\\' then push d escaped else push c later

abbrev pub is_space : ℕ → Bool
is_space c = c == b' ' || (leb 9 c && leb c 13)

abbrev pub read_plain : List ℕ → Option (List ℕ × List ℕ)
read_plain [] = some ([], [])
read_plain (c ∷ []) =
    if is_space c then some ([], c ∷ []) else if c == b'\\' then none else some (c ∷ [], [])
read_plain (c ∷ d ∷ text) =
    let escaped = read_plain text in
    let later = read_plain (d ∷ text) in
    if is_space c
    then some ([], c ∷ d ∷ text)
    else if c == b'\\'
    then push d escaped
    else push c later

abbrev pub read_value : List ℕ → Option (List ℕ × List ℕ)
read_value [] = some ([], [])
read_value (c ∷ text) = if c == b'\'' then read_quoted text else read_plain (c ∷ text)

-- Nothing follows, or white space does.
abbrev pub ends_value : List ℕ → Bool
ends_value [] = true
ends_value (c ∷ text) = is_space c

read_quoted-ordinary :
    (c : ℕ) (text : List ℕ)
    → (c == b'\'' || c == b'\\') ≡ false
    → read_quoted (c ∷ text) ≡ push c (read_quoted text)
read_quoted-ordinary c [] h = ground arith
read_quoted-ordinary c (d ∷ text) h = ground arith

read_quoted-escape_value :
    (str rest : List ℕ) → read_quoted (escape_value str ++ b'\'' ∷ rest) ≡ some (str, rest)
unfolding escape_value
read_quoted-escape_value [] [] = refl
read_quoted-escape_value [] (r ∷ rest) = refl
read_quoted-escape_value (c ∷ str) rest = elim (Bool-cases (c == b'\'' || c == b'\\')) [
  | inl special ↦ rw special (ap (push c) (read_quoted-escape_value str rest))
  | inr ordinary ↦ rw ordinary (
      read_quoted-ordinary c (escape_value str ++ b'\'' ∷ rest) ordinary
      ∙ ap (push c) (read_quoted-escape_value str rest))
]

plain-ordinary :
    (c : ℕ)
    → is_plain c ≡ true
    → (is_space c ≡ false) × ((c == b'\\') ≡ false) × ((c == b'\'') ≡ false)
plain-ordinary c h = ground arith

read_plain-ordinary :
    (c : ℕ) (text : List ℕ) → is_plain c ≡ true → read_plain (c ∷ text) ≡ push c (read_plain text)
read_plain-ordinary c [] h =
    let (space, backslash, quote) = plain-ordinary c h in rw (space, backslash) refl
read_plain-ordinary c (d ∷ text) h =
    let (space, backslash, quote) = plain-ordinary c h in rw (space, backslash) refl

read_plain-end : (rest : List ℕ) → ends_value rest ≡ true → read_plain rest ≡ some ([], rest)
read_plain-end [] h = refl
read_plain-end (c ∷ []) h = rw h refl
read_plain-end (c ∷ d ∷ rest) h = rw h refl

needs_quotes-plain :
    (flag : Bool) (c : ℕ) (str : List ℕ)
    → needs_quotes flag (c ∷ str) ≡ false
    → (is_plain c ≡ true) × (needs_quotes false str ≡ false)
unfolding needs_quotes
needs_quotes-plain flag c str h = elim (Bool-cases (is_plain c)) [
  | inl plain ↦ (plain, sym (rw plain refl) ∙ h)
  | inr other ↦ absurd (true≢false (sym (rw other refl) ∙ h))
]

read_plain-plain :
    (str rest : List ℕ)
    → needs_quotes false str ≡ false
    → ends_value rest ≡ true
    → read_plain (str ++ rest) ≡ some (str, rest)
read_plain-plain [] rest h e = read_plain-end rest e
read_plain-plain (c ∷ str) rest h e =
    let (plain, h') = needs_quotes-plain false c str h in
    read_plain-ordinary c (str ++ rest) plain ∙ ap (push c) (read_plain-plain str rest h' e)

read_value-plain :
    (str rest : List ℕ)
    → needs_quotes true str ≡ false
    → ends_value rest ≡ true
    → read_value (str ++ rest) ≡ some (str, rest)
unfolding needs_quotes
read_value-plain [] rest h e = absurd (true≢false h)
read_value-plain (c ∷ str) rest h e =
    let (plain, h') = needs_quotes-plain true c str h in
    let (space, backslash, quote) = plain-ordinary c plain in
    rw quote
      (read_plain-ordinary c (str ++ rest) plain ∙ ap (push c) (read_plain-plain str rest h' e))

-- The text that appendConnStrVal writes after a buffer, read as a value of a connection string,
-- gives back the string, whatever its bytes are, and leaves what follows, if that is nothing or
-- begins with white space.
pub append_conn_str_val-read_value :
    (buf str rest : List ℕ)
    → ends_value rest ≡ true
    → (written : List ℕ) × (append_conn_str_val buf str ≡ buf ++ written)
      × (read_value (written ++ rest) ≡ some (str, rest))
unfolding append_conn_str_val
append_conn_str_val-read_value buf str rest e = elim (Bool-cases (needs_quotes true str)) [
  | inl quotes ↦ (
    b'\'' ∷ escape_value str ++ b'\'' ∷ [],
    rw quotes (append_assoc buf (b'\'' ∷ escape_value str) (b'\'' ∷ [])),
    rw (append_assoc (escape_value str) (b'\'' ∷ []) rest) (read_quoted-escape_value str rest),
  )
  | inr plain ↦ (str, rw plain refl, read_value-plain str rest plain e)
]
