-- ===== src/Client/Promote/Checks.antt =====
-- The sequence of checks before a promotion, for any answers to them.
use repmgr.Base.{
  ◌≡◌, refl, ℕ, Bool, true, false, not, ◌&&◌, Option, none, some, [], ◌∷◌, ◌==◌, if◌then◌else◌,
  arith,
}
use repmgr.Client.Promote.Run.{Promotion, success, exits, err_bad_config, unless_exit}

abbrev pub has_actions : Promotion → Bool
has_actions p = elim p.actions [ [] ↦ false | action ∷ rest ↦ true ]

-- The program ends with the exit code for success.
abbrev pub is_success : Option ℕ → Bool
is_success none = false
is_success (some code) = code == success

abbrev pub is_none : Option ℕ → Bool
is_none none = true
is_none (some code) = false

-- The checks of a real run and of a dry run, for any answers to them.
pub starts :
    (f : Promotion → Bool) (a b c : Bool) (p : Promotion)
    → f (exits err_bad_config []) ≡ false
    → f (
        if not a
        then exits err_bad_config []
        else if not b && true
        then exits err_bad_config []
        else if not c && true
        then exits err_bad_config []
        else p)
      ≡ ((a && b && c) && f p)
starts f false b c p e = e
starts f true false c p e = e
starts f true true false p e = e
starts f true true true p e = refl

pub rehearses :
    (f : Promotion → Bool) (a b c : Bool)
    → f (exits err_bad_config []) ≡ false
    → f (exits success []) ≡ false
    → f (
        if not a
        then exits err_bad_config []
        else if not (not b) && not (not c)
        then exits success []
        else exits err_bad_config [])
      ≡ false
rehearses f false b c failed passed = failed
rehearses f true false c failed passed = failed
rehearses f true true false failed passed = failed
rehearses f true true true failed passed = passed

pub predicts :
    (a b c : Bool)
    → is_success
        (if not a
          then exits err_bad_config []
          else if not (not b) && not (not c)
          then exits success []
          else exits err_bad_config []).exit_code
      ≡ (a && b && c)
predicts a b c = ground arith

pub unless_exit-has_actions :
    (o : Option ℕ) (p : Promotion) → has_actions (unless_exit o p) ≡ (is_none o && has_actions p)
unless_exit-has_actions none p = refl
unless_exit-has_actions (some code) p = refl

pub unless_exit-is_success :
    (o : Option ℕ) (p : Promotion)
    → is_success o ≡ false
    → is_success (unless_exit o p).exit_code ≡ (is_none o && is_success p.exit_code)
unless_exit-is_success none p h = refl
unless_exit-is_success (some code) p h = h

pub and_true : (a b : Bool) → (a && (b && true)) ≡ (a && b)
and_true a b = ground arith
