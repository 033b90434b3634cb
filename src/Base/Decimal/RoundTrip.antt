-- ===== src/Base/Decimal/RoundTrip.antt =====
-- std::stoull reads back what std::to_string prints.
use Prim.Native.Nat.{ℕ, zero, suc, ◌+◌, ◌*◌, ◌/◌, ◌%◌, ◌^◌, ◌<◌}
use mathlib.Core.Path.{◌≡◌, refl, ◌∙◌}
use mathlib.Core.Bool.{true, false}
use mathlib.Core.Logic.{◌≢◌}
use mathlib.Core.List.{[], ◌∷◌}
use native.Mathlib.Omega.{arith}
use mini_ocs_nos.Base.Text.{Text}
use mini_ocs_nos.Base.Outcome.{returns}
use mini_ocs_nos.Base.Decimal.{
  digits, to_string, scan_digits, starts_with_digit, all_digits, skip_spaces, split_sign,
  stoull_signed, stoull,
}

abbrev power_of_ten : ℕ → ℕ
power_of_ten zero = 1
power_of_ten (suc n) = 10 * power_of_ten n

scan_last : (n : ℕ) (out : Text) → scan_digits ((48 + n % 10) ∷ out) (n / 10) ≡ scan_digits out n
unfolding scan_digits
scan_last n out = ground arith

scan_digits-digits :
    (fuel n : ℕ) (out : Text)
    → n < 10 * power_of_ten fuel
    → scan_digits (digits (suc fuel) n out) 0 ≡ scan_digits out n
unfolding digits
scan_digits-digits zero n out h = ground (arith, scan_last n out)
scan_digits-digits (suc fuel) n out h =
    ground
      (arith, scan_last n out, scan_digits-digits fuel (n / 10) ((48 + n % 10) ∷ out) (omega arith))

starts-digits : (fuel n : ℕ) (out : Text) → starts_with_digit (digits (suc fuel) n out) ≡ true
unfolding digits
starts-digits zero n out = ground arith
starts-digits (suc fuel) n out = ground (arith, starts-digits fuel (n / 10) ((48 + n % 10) ∷ out))

plain : (s : Text) → starts_with_digit s ≡ true → split_sign (skip_spaces s) ≡ (false, s)
unfolding skip_spaces split_sign
plain [] h = cc
plain (c ∷ s) h = ground arith

read_plain :
    (s : Text) (n : ℕ)
    → starts_with_digit s ≡ true
    → scan_digits s 0 ≡ n
    → n < 2 ^ 64
    → stoull s ≡ returns n
unfolding stoull stoull_signed
read_plain s n h e fits = rw (plain s h) (ground arith)

scan_nil : (n : ℕ) → scan_digits [] n ≡ n
unfolding scan_digits
scan_nil n = refl

-- Every uint64_t is read back from its decimal print.
pub stoull-to_string : (n : ℕ) → n < 2 ^ 64 → stoull (to_string n) ≡ returns n
unfolding to_string
stoull-to_string n h =
    read_plain (digits 20 n []) n (starts-digits 19 n [])
      (scan_digits-digits 19 n [] (omega arith) ∙ scan_nil n) h

pub scan-to_string : (n : ℕ) → n < 2 ^ 64 → scan_digits (to_string n) 0 ≡ n
unfolding to_string
scan-to_string n h = scan_digits-digits 19 n [] (omega arith) ∙ scan_nil n

pub starts_with_digit-to_string : (n : ℕ) → starts_with_digit (to_string n) ≡ true
unfolding to_string
starts_with_digit-to_string n = starts-digits 19 n []

all_digits-digits :
    (fuel n : ℕ) (out : Text) → all_digits out ≡ true → all_digits (digits fuel n out) ≡ true
unfolding digits all_digits
all_digits-digits zero n out h = h
all_digits-digits (suc fuel) n out h =
    ground (arith, all_digits-digits fuel (n / 10) ((48 + n % 10) ∷ out))

pub all_digits-to_string : (n : ℕ) → all_digits (to_string n) ≡ true
unfolding to_string
all_digits-to_string n =
    all_digits-digits 20 n [] (let e : all_digits [] ≡ true = unfold all_digits in refl in e)

nonempty : (s : Text) → starts_with_digit s ≡ true → s ≢ []
nonempty [] h e = cc
nonempty (c ∷ s) h e = cc

pub to_string-ne-nil : (n : ℕ) → to_string n ≢ []
to_string-ne-nil n = nonempty (to_string n) (starts_with_digit-to_string n)
