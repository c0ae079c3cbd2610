-- ===== src/Hwaes/Checks.antt =====
-- Which requests pass the checks of hwaes/main.c.
use trusty_app_sample.Common.{
  Bool, Bool-cases, Option, ap, arith, false, inl, inr, none, not, refl, some, sym, true, ℕ, ◌∙◌,
  ◌≡◌, ◌≢◌,
}
use trusty_app_sample.Hwaes.{
  Args, Checked, Cipher, Mode, Status, cbc, cbc_checks, cbc_cipher, check_args, check_mode, gcm,
  gcm_checks, gcm_cipher, generic, hwaes_check_arg, invalid_args, io, is_no_error, is_present,
  no_error, not_implemented, other_mode, passed, refused,
}

-- Additional data and tags as the mode and the direction want them.
pub TagsFit : Args → Mode → Type 0
TagsFit args cbc =
    (is_present args.aad ≡ false)
    × (is_present args.tag_in ≡ false)
    × (is_present args.tag_out ≡ false)
TagsFit args gcm =
    (is_present args.tag_in ≡ not args.encrypt) × (is_present args.tag_out ≡ args.encrypt)
TagsFit args (other_mode m) = ⊥

-- A request that the service can serve.
pub record IsWellFormed (args : Args) : Type 0 where
  pub padding : args.no_padding ≡ true
  pub key : is_present args.key ≡ true
  pub text_in : is_present args.text_in ≡ true
  pub text_out : is_present args.text_out ≡ true
  pub size : args.text_in.len ≡ args.text_out.len
  pub tags : TagsFit args args.mode

pub record IsChecked (args : Args) : Type 0 where
  pub padding : args.no_padding ≡ true
  pub key : is_present args.key ≡ true
  pub text_in : is_present args.text_in ≡ true
  pub text_out : is_present args.text_out ≡ true
  pub size : args.text_in.len ≡ args.text_out.len

pub is_no_error_refl : (rc : Status) → is_no_error rc ≡ true → rc ≡ no_error
unfolding is_no_error
is_no_error_refl no_error h = refl
is_no_error_refl generic h = cc
is_no_error_refl invalid_args h = cc
is_no_error_refl io h = cc
is_no_error_refl not_implemented h = cc

pub is_no_error-false : (rc : Status) → is_no_error rc ≡ false → rc ≢ no_error
unfolding is_no_error
is_no_error-false no_error h = cc
is_no_error-false generic h = λ e. cc
is_no_error-false invalid_args h = λ e. cc
is_no_error-false io h = λ e. cc
is_no_error-false not_implemented h = λ e. cc

pub check_args-IsChecked : (args : Args) → check_args args ≡ no_error → IsChecked args
unfolding check_args is_present hwaes_check_arg is_no_error
check_args-IsChecked args h = record {
  padding = ground (arith, h);
  key = ground (arith, h);
  text_in = ground (arith, h);
  text_out = ground (arith, h);
  size = ground (arith, h);
}

-- An error, or a check that the tags fit.
abbrev pub Fits : Args → Mode → Checked Cipher → Type 0
Fits args mode (refused rc) = rc ≢ no_error
Fits args mode (passed c) = TagsFit args mode

cbc_checks-Fits : (args : Args) (o : Option Cipher) → Fits args cbc (cbc_checks args o)
unfolding cbc_checks TagsFit
cbc_checks-Fits args none = λ e. cc
cbc_checks-Fits args (some c) = elim (Bool-cases (is_present args.aad)) [
  | inl a ↦ rw a (λ e. cc)
  | inr a ↦ elim (Bool-cases (is_present args.tag_in)) [
    | inl i ↦ rw (a, i) (λ e. cc)
    | inr i ↦ elim (Bool-cases (is_present args.tag_out)) [
      | inl o ↦ rw (a, i, o) (λ e. cc)
      | inr o ↦ rw (a, i, o) (a, i, o)
    ]
  ]
]

gcm_checks-Fits :
    (args : Args) (encrypt : Bool) (o : Option Cipher)
    → args.encrypt ≡ encrypt
    → Fits args gcm (gcm_checks args encrypt o)
unfolding gcm_checks TagsFit
gcm_checks-Fits args encrypt none d = λ e. cc
gcm_checks-Fits args true (some c) d = elim (Bool-cases (is_present args.tag_in)) [
  | inl i ↦ rw i (λ e. cc)
  | inr i ↦ elim (Bool-cases (is_present args.tag_out)) [
    | inr o ↦ rw (i, o) (λ e. cc)
    | inl o ↦ rw (i, o) (i ∙ ap not (sym d), o ∙ sym d)
  ]
]
gcm_checks-Fits args false (some c) d = elim (Bool-cases (is_present args.tag_in)) [
  | inr i ↦ rw i (λ e. cc)
  | inl i ↦ elim (Bool-cases (is_present args.tag_out)) [
    | inl o ↦ rw (i, o) (λ e. cc)
    | inr o ↦ rw (i, o) (i ∙ ap not (sym d), o ∙ sym d)
  ]
]

pub check_mode-Fits : (args : Args) (n : ℕ) (mode : Mode) → Fits args mode (check_mode args n mode)
unfolding check_mode
check_mode-Fits args n cbc = cbc_checks-Fits args (cbc_cipher n)
check_mode-Fits args n gcm = gcm_checks-Fits args args.encrypt (gcm_cipher n) refl
check_mode-Fits args n (other_mode m) = λ e. cc

pub well_formed : (args : Args) → IsChecked args → TagsFit args args.mode → IsWellFormed args
well_formed args c t = record {
  padding = c.padding;
  key = c.key;
  text_in = c.text_in;
  text_out = c.text_out;
  size = c.size;
  tags = t;
}
