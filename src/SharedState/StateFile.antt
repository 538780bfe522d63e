-- ===== src/SharedState/StateFile.antt =====
-- The file that keeps the pause flag of repmgrd across restarts: `fgets` and `sscanf` with "%i:%i"
-- as `set_local_node_id` reads it, and what `repmgrd_pause` writes.
use Prim.Native.Nat.{min}
use repmgr.Base.{
  ℕ, zero, suc, ◌+◌, ◌-◌, ◌*◌, ◌^◌, ℤ, pos, negsuc, wrap_int32, Bool, true, false, ◌||◌, ◌&&◌,
  Option, none, some, List, [], ◌∷◌, ◌++◌, leb, ◌==◌, if◌then◌else◌, is_digit, show_int,
  read_digits,
}
use repmgr.Nodes.{unknown_node_id}

abbrev pub is_space : ℕ → Bool
is_space c = c == b' ' || (leb 9 c && leb c 13)

unfoldable pub skip_spaces : List ℕ → List ℕ
skip_spaces [] = []
skip_spaces (c ∷ cs) = let rest = skip_spaces cs in if is_space c then rest else c ∷ cs

-- The value of a digit in bases up to 16, or 16.
abbrev digit_value : ℕ → ℕ
digit_value c =
    if is_digit c
    then c - 48
    else if leb b'a' c && leb c b'f'
    then c - 87
    else if leb b'A' c && leb c b'F'
    then c - 55
    else 16

unfoldable pub read_base : ℕ → ℕ → List ℕ → ℕ × List ℕ
read_base base acc [] = (acc, [])
read_base base acc (c ∷ cs) =
    let rest = read_base base (acc * base + digit_value c) cs in
    if leb base (digit_value c) then (acc, c ∷ cs) else rest

unfoldable pub scan_hex : List ℕ → Option (ℕ × List ℕ)
scan_hex [] = none
scan_hex (c ∷ cs) = if leb 16 (digit_value c) then none else some (read_base 16 0 (c ∷ cs))

unfoldable pub scan_after_zero : List ℕ → Option (ℕ × List ℕ)
scan_after_zero [] = some (0, [])
scan_after_zero (c ∷ cs) =
    if c == b'x' || c == b'X' then scan_hex cs else some (read_base 8 0 (c ∷ cs))

-- An unsigned number whose base its prefix tells.
unfoldable pub scan_magnitude : List ℕ → Option (ℕ × List ℕ)
scan_magnitude [] = none
scan_magnitude (c ∷ cs) =
    if c == b'0'
    then scan_after_zero cs
    else if is_digit c
    then some (read_digits 0 (c ∷ cs))
    else none

-- Out of range of `long` the number is clamped, and then cut to an `int`.
abbrev pub to_int : Bool → ℕ → ℤ
to_int negative n =
    if negative
    then elim (min n (2 ^ 63)) [ zero ↦ pos 0 | suc m ↦ wrap_int32 (negsuc m) ]
    else wrap_int32 (pos (min n (2 ^ 63 - 1)))

abbrev pub signed : Bool → Option (ℕ × List ℕ) → Option (ℤ × List ℕ)
signed negative none = none
signed negative (some (n, rest)) = some (to_int negative n, rest)

unfoldable pub scan_signed : List ℕ → Option (ℤ × List ℕ)
scan_signed [] = none
scan_signed (c ∷ cs) =
    if c == b'-'
    then signed true (scan_magnitude cs)
    else if c == b'+'
    then signed false (scan_magnitude cs)
    else signed false (scan_magnitude (c ∷ cs))

-- "%i".
unfoldable pub scan_int : List ℕ → Option (ℤ × List ℕ)
scan_int s = scan_signed (skip_spaces s)

-- A conversion that fails leaves the variable's value.
abbrev second_number : ℤ → Option (ℤ × List ℕ) → ℤ × ℤ
second_number first none = (first, negsuc 0)
second_number first (some (n, rest)) = (first, n)

abbrev after_colon : ℤ → List ℕ → ℤ × ℤ
after_colon first [] = (first, negsuc 0)
after_colon first (c ∷ cs) =
    if c == b':' then second_number first (scan_int cs) else (first, negsuc 0)

abbrev first_number : Option (ℤ × List ℕ) → ℤ × ℤ
first_number none = (unknown_node_id, negsuc 0)
first_number (some (n, rest)) = after_colon n rest

-- The C string that `fgets` leaves in a buffer of `limit + 1` bytes.
unfoldable pub fgets : ℕ → List ℕ → List ℕ
fgets zero s = []
fgets (suc limit) [] = []
fgets (suc limit) (c ∷ cs) =
    let rest = fgets limit cs in if c == 0 then [] else if c == b'\n' then c ∷ [] else c ∷ rest

-- REPMGRD_STATE_FILE_BUF_SIZE
abbrev pub state_file_buf_size : ℕ
state_file_buf_size = 128

-- `stored_node_id` and `paused` after the file is read.
unfoldable pub scan_state_file : Option (List ℕ) → ℤ × ℤ
scan_state_file none = (unknown_node_id, negsuc 0)
scan_state_file (some content) = first_number (scan_int (fgets (state_file_buf_size - 1) content))

-- The text with its NUL, which is written too.
unfoldable pub print_state_file : ℤ → Bool → List ℕ
print_state_file id pause = show_int id ++ (b':' ∷ (if pause then b'1' else b'0') ∷ 0 ∷ [])
