-- ===== src/Text/Number.antt =====
-- `repmgr_atoi` of configfile.c, the integer value of a setting or an option.
use repmgr.Base.{
  ℕ, ◌-◌, ◌^◌, ◌≡◌, refl, sym, ◌⊎◌, inl, inr, ℤ, pos, negsuc, ltb_ℤ, leb_ℤ, wrap_int32, Bool, true,
  false, not, ◌&&◌, ◌||◌, List, [], ◌∷◌, if◌then◌else◌, arith, Bool-cases,
}

-- What `strtol` returns: the long, whether it has consumed anything, and whether it has set errno.
pub record Strtol : Type 0 where
  pub longval : ℤ
  pub consumed : Bool
  pub errno : Bool

pub record Atoi : Type 0 where
  pub value : ℤ
  pub error : Bool

unfoldable pub repmgr_atoi : (List ℕ → Strtol) → List ℕ → ℤ → Atoi
repmgr_atoi strtol [] minval = record { value = pos 0; error = false }
repmgr_atoi strtol (c ∷ text) minval =
    let parsed : Strtol = strtol (c ∷ text) in
    let narrow = wrap_int32 parsed.longval in
    record {
      value = narrow;
      error =
          if not parsed.consumed || parsed.errno
          then true
          else if ltb_ℤ narrow parsed.longval
          then true
          else ltb_ℤ narrow minval;
    }

abbrev pub int32_min : ℤ
int32_min = negsuc (2 ^ 31 - 1)

abbrev pub int32_max : ℤ
int32_max = pos (2 ^ 31 - 1)

abbrev pub fits_int32 : ℤ → Bool
fits_int32 a = leb_ℤ int32_min a && leb_ℤ a int32_max

wrap_int32-fits : (a : ℤ) → fits_int32 a ≡ true → wrap_int32 a ≡ a
wrap_int32-fits (pos n) h = ground arith
wrap_int32-fits (negsuc n) h = ground arith

wrap_int32-large : (a : ℤ) → ltb_ℤ int32_max a ≡ true → ltb_ℤ (wrap_int32 a) a ≡ true
wrap_int32-large (pos n) h = ground arith
wrap_int32-large (negsuc n) h = ground arith

wrap_int32-small : (a : ℤ) → ltb_ℤ a int32_min ≡ true → ltb_ℤ (wrap_int32 a) a ≡ false
wrap_int32-small (pos n) h = ground arith
wrap_int32-small (negsuc n) h = ground arith

leb_ℤ-not : (a b : ℤ) → leb_ℤ a b ≡ not (ltb_ℤ b a)
leb_ℤ-not a b = ground arith

range : (a : ℤ) → (ltb_ℤ a int32_min ≡ true) ⊎ (fits_int32 a ≡ true) ⊎ (ltb_ℤ int32_max a ≡ true)
range a = ground arith

small-not_fits : (a : ℤ) → ltb_ℤ a int32_min ≡ true → fits_int32 a ≡ false
small-not_fits a h = ground arith

large-not_fits :
    (a : ℤ) → ltb_ℤ int32_max a ≡ true → (fits_int32 a ≡ false) × (ltb_ℤ a int32_min ≡ false)
large-not_fits a h = ground arith

fits-not_small : (a : ℤ) → fits_int32 a ≡ true → (ltb_ℤ a int32_min ≡ false) × (ltb_ℤ a a ≡ false)
fits-not_small a h = ground arith

-- The two ways in which a number passes the checks.
abbrev pub accepts : ℤ → ℤ → Bool
accepts longval minval =
    (fits_int32 longval && leb_ℤ minval longval)
    || (ltb_ℤ longval int32_min && leb_ℤ minval (wrap_int32 longval))

not-not : (b : Bool) → not (not b) ≡ b
not-not true = refl
not-not false = refl

not-not_or : (b : Bool) → not (not b || false) ≡ b
not-not_or true = refl
not-not_or false = refl

accepts-eq :
    (a minval : ℤ)
    → (if ltb_ℤ (wrap_int32 a) a then true else ltb_ℤ (wrap_int32 a) minval)
      ≡ not (accepts a minval)
accepts-eq a minval = elim (range a) [
  | inl small ↦
      rw (small, small-not_fits a small, wrap_int32-small a small, leb_ℤ-not minval (wrap_int32 a))
        (sym (not-not (ltb_ℤ (wrap_int32 a) minval)))
  | inr (inl fits) ↦
      let (not_small, not_less) = fits-not_small a fits in
      rw (wrap_int32-fits a fits, not_less, fits, not_small, leb_ℤ-not minval a)
        (sym (not-not_or (ltb_ℤ a minval)))
  | inr (inr large) ↦
      let (not_fits, not_small) = large-not_fits a large in
      rw (wrap_int32-large a large, not_fits, not_small) refl
]

wrap_int32-eq : (a : ℤ) → wrap_int32 a ≡ (if fits_int32 a then a else wrap_int32 a)
wrap_int32-eq a = elim (Bool-cases (fits_int32 a)) [
  | inl fits ↦ rw fits (wrap_int32-fits a fits)
  | inr other ↦ rw other refl
]

error-cases :
    (consumed errno narrow accepted : Bool)
    → narrow ≡ not accepted
    → (if not consumed || errno then true else narrow) ≡ not (consumed && not errno && accepted)
error-cases consumed errno narrow accepted h = ground arith

-- repmgr_atoi accepts a text that is not empty exactly when strtol reads it without an error as a
-- 32 bit integer that is not below the minimum, or as a long below the 32 bit integers whose low
-- 32 bits are not below the minimum; a 32 bit integer is returned as it is, another long by its
-- low 32 bits.
pub repmgr_atoi-error :
    (strtol : List ℕ → Strtol) (c : ℕ) (text : List ℕ) (minval : ℤ)
    → ((repmgr_atoi strtol (c ∷ text) minval).error
        ≡ not (
            (strtol (c ∷ text)).consumed
            && not (strtol (c ∷ text)).errno
            && accepts (strtol (c ∷ text)).longval minval))
      × ((repmgr_atoi strtol (c ∷ text) minval).value ≡ (
          if fits_int32 (strtol (c ∷ text)).longval
          then (strtol (c ∷ text)).longval
          else wrap_int32 (strtol (c ∷ text)).longval))
unfolding repmgr_atoi
repmgr_atoi-error strtol c text minval =
    let parsed = strtol (c ∷ text) in
    (
      error-cases parsed.consumed parsed.errno _ _ (accepts-eq parsed.longval minval),
      wrap_int32-eq parsed.longval,
    )
