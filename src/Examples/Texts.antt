-- ===== src/Examples/Texts.antt =====
-- The quoting of texts and the reading of numbers at concrete inputs.
use repmgr.Base.{
  ℕ, ◌-◌, ◌^◌, ◌≡◌, refl, pos, negsuc, wrap_int32, true, false, not, ◌&&◌, none, some, List, [],
  ◌++◌, codes, if◌then◌else◌,
}
use repmgr.Text.ConnString.{append_conn_str_val, read_value, append_conn_str_val-read_value}
use repmgr.Text.Shell.{
  append_shell_string, bare, read_word, with_ampersands, has_newline, append_shell_string-read_word,
}
use repmgr.Text.Number.{Strtol, repmgr_atoi, fits_int32, accepts, repmgr_atoi-error}

conn_runs : append_conn_str_val (codes "host=") (codes "it's a\\b") ≡ codes "host='it\\'s a\\\\b'"
unfolding append_conn_str_val
conn_runs = refl

append_conn_str_val-read_value_example :
    (written : List ℕ) × (append_conn_str_val (codes "host=") (codes "it's")
      ≡ codes "host=" ++ written)
    × (read_value (written ++ codes " port=1") ≡ some (codes "it's", codes " port=1"))
append_conn_str_val-read_value_example =
    append_conn_str_val-read_value (codes "host=") (codes "it's") (codes " port=1") refl

shell_runs : append_shell_string [] (codes "a&'b") ≡ some (codes "'a\\&'\"'\"'b'")
unfolding append_shell_string
shell_runs = refl

append_shell_string-read_word_example :
    (written : List ℕ) × (append_shell_string (codes "ssh ") (codes "a&b")
      ≡ (if has_newline (codes "a&b") then none else some (codes "ssh " ++ written)))
    × (read_word bare written ≡ some (with_ampersands (codes "a&b")))
append_shell_string-read_word_example = append_shell_string-read_word (codes "ssh ") (codes "a&b")

-- A text that is too small for an int.
abbrev too_small : List ℕ → Strtol
too_small text = record { longval = negsuc (2 ^ 31); consumed = true; errno = false }

atoi_runs :
    repmgr_atoi too_small (codes "-2147483649") (pos 1)
    ≡ record { value = pos (2 ^ 31 - 1); error = false }
unfolding repmgr_atoi
atoi_runs = refl

repmgr_atoi-error_example :
    ((repmgr_atoi too_small (codes "-2147483649") (pos 1)).error
      ≡ not (true && not false && accepts (negsuc (2 ^ 31)) (pos 1)))
    × ((repmgr_atoi too_small (codes "-2147483649") (pos 1)).value
        ≡ (if fits_int32 (negsuc (2 ^ 31)) then negsuc (2 ^ 31) else wrap_int32 (negsuc (2 ^ 31))))
repmgr_atoi-error_example = repmgr_atoi-error too_small b'-' (codes "2147483649") (pos 1)
