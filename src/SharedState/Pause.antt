-- ===== src/SharedState/Pause.antt =====
-- The pause flag of repmgrd survives a restart of the server, by way of the state file.
use mathlib.Core.List.{append_assoc}
use repmgr.Base.{
  ℕ, zero, suc, ◌^◌, ◌≤◌, ◌<◌, ◌≡◌, refl, sym, ap, ◌∙◌, pos, Bool, true, false, some, List, [], ◌∷◌,
  ◌++◌, length, if◌then◌else◌, All, All-append, All-map, Digit, Numeral, show_nat-Numeral,
  length-show_nat-le, show_nat, show_int, read_digits, read_digits-show_nat, length-append, arith,
}
use repmgr.SharedState.StateFile.{
  skip_spaces, scan_after_zero, read_base, scan_magnitude, scan_signed, scan_int, signed, to_int,
  fgets, scan_state_file, print_state_file,
}
use repmgr.SharedState.{
  SharedState, int32, boolean, repmgr_shmem_startup, store_local_node_id, set_local_node_id,
  get_local_node_id, repmgrd_pause, repmgrd_is_paused,
}

skip_spaces-eq : (c : ℕ) (cs : List ℕ) → 32 < c → skip_spaces (c ∷ cs) ≡ c ∷ cs
unfolding skip_spaces
skip_spaces-eq c cs h = ground arith

scan_magnitude-eq :
    (c : ℕ) (cs : List ℕ)
    → 48 < c
    → c < 58
    → scan_magnitude (c ∷ cs) ≡ some (read_digits 0 (c ∷ cs))
unfolding scan_magnitude
scan_magnitude-eq c cs lo hi = ground arith

scan_signed-eq :
    (c : ℕ) (cs : List ℕ)
    → 48 < c
    → c < 58
    → scan_signed (c ∷ cs) ≡ signed false (scan_magnitude (c ∷ cs))
unfolding scan_signed
scan_signed-eq c cs lo hi = ground arith

to_int-eq : (n : ℕ) → n < 2 ^ 31 → to_int false n ≡ pos n
to_int-eq n h = ground arith

-- `%i` reads back a positive number that `%i` has printed.
scan_int-Numeral :
    (n : ℕ) (rest text : List ℕ)
    → n < 2 ^ 31
    → Numeral text
    → read_digits 0 (text ++ b':' ∷ rest) ≡ (n, b':' ∷ rest)
    → scan_int (text ++ b':' ∷ rest) ≡ some (pos n, b':' ∷ rest)
unfolding scan_int
scan_int-Numeral n rest [] bound h e = absurd h
scan_int-Numeral n rest (c ∷ cs) bound (lo, hi, ds) e =
    rw (skip_spaces-eq c (cs ++ b':' ∷ rest) (omega arith)) (
      rw (scan_signed-eq c (cs ++ b':' ∷ rest) lo hi) (
        rw (scan_magnitude-eq c (cs ++ b':' ∷ rest) lo hi)
          (rw e (ap (λ m. some (m, b':' ∷ rest)) (to_int-eq n bound)))))

read_digits-colon : (n : ℕ) (rest : List ℕ) → read_digits n (b':' ∷ rest) ≡ (n, b':' ∷ rest)
unfolding read_digits
read_digits-colon n rest = refl

scan_int-show_nat :
    (n : ℕ) (rest : List ℕ)
    → 0 < n
    → n < 2 ^ 31
    → scan_int (show_nat n ++ b':' ∷ rest) ≡ some (pos n, b':' ∷ rest)
scan_int-show_nat n rest p bound =
    scan_int-Numeral n rest (show_nat n) bound (show_nat-Numeral n p)
      (read_digits-show_nat n (b':' ∷ rest) ∙ read_digits-colon n rest)

abbrev Visible : ℕ → Type 0
Visible c = 31 < c

-- A line of visible characters that ends in a NUL is read whole.
fgets-append :
    (limit : ℕ) (text rest : List ℕ)
    → length text ≤ limit
    → All Visible text
    → fgets limit (text ++ 0 ∷ rest) ≡ text
unfolding fgets
fgets-append zero [] rest h v = refl
fgets-append (suc limit) [] rest h v = refl
fgets-append zero (c ∷ cs) rest h v = absurd (omega arith)
fgets-append (suc limit) (c ∷ cs) rest h v = ground (arith, fgets-append limit cs rest, v.0)

Numeral-Visible : (text : List ℕ) → Numeral text → All Visible text
Numeral-Visible [] h = absurd h
Numeral-Visible (c ∷ cs) (lo, hi, ds) =
    (omega arith, All-map Digit Visible cs (λ d h. omega arith) ds)

abbrev flag : Bool → ℕ
flag pause = if pause then b'1' else b'0'

fgets-print_state_file :
    (n : ℕ) (pause : Bool)
    → 0 < n
    → n < 2 ^ 31
    → fgets 127 (print_state_file (pos n) pause) ≡ show_nat n ++ b':' ∷ flag pause ∷ []
unfolding print_state_file show_int
fgets-print_state_file n pause p bound =
    ap (fgets 127) (sym (append_assoc (show_nat n) (b':' ∷ flag pause ∷ []) (0 ∷ [])))
    ∙ fgets-append 127 (show_nat n ++ b':' ∷ flag pause ∷ []) []
        (omega (
          arith,
          length-append (show_nat n) (b':' ∷ flag pause ∷ []),
          length-show_nat-le 10 n (omega arith),
        ))
        (All-append Visible (show_nat n) (b':' ∷ flag pause ∷ [])
          (Numeral-Visible (show_nat n) (show_nat-Numeral n p)) (omega arith, (ground arith, tt)))

-- The flag is read back by evaluation.
scan_int-flag :
    (pause : Bool) → scan_int (flag pause ∷ []) ≡ some (pos (if pause then 1 else 0), [])
unfolding scan_int skip_spaces scan_signed scan_magnitude scan_after_zero read_base read_digits
scan_int-flag true = refl
scan_int-flag false = refl

scan_state_file-print_state_file :
    (n : ℕ) (pause : Bool)
    → 0 < n
    → n < 2 ^ 31
    → scan_state_file (some (print_state_file (pos n) pause))
      ≡ (pos n, pos (if pause then 1 else 0))
unfolding scan_state_file
scan_state_file-print_state_file n pause p bound =
    rw (fgets-print_state_file n pause p bound)
      (rw (scan_int-show_nat n (flag pause ∷ []) p bound) (rw (scan_int-flag pause)))

-- A server that is paused or unpaused on a node with a positive 32-bit ID, and whose shared memory
-- is initialised anew after a restart, has the same pause flag once `set_local_node_id` has read the
-- state file that `repmgrd_pause` wrote.
pub pause_survives_restart :
    (n : ℕ) (pause : Bool) (s : SharedState)
    → 0 < n
    → n < 2 ^ 31
    → s.local_node_id ≡ pos n
    → let file = (repmgrd_pause (some pause) (some s)).2 in
      let restarted = (set_local_node_id (some (pos n)) file (some repmgr_shmem_startup)).0 in
      (get_local_node_id restarted ≡ int32 (pos n)) × (repmgrd_is_paused restarted ≡ boolean pause)
unfolding repmgrd_pause set_local_node_id store_local_node_id repmgr_shmem_startup get_local_node_id
    repmgrd_is_paused
pause_survives_restart n pause s p bound e =
    rw e (rw (scan_state_file-print_state_file n pause p bound) (ground arith, ground arith))
