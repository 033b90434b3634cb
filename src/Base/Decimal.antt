-- ===== src/Base/Decimal.antt =====
-- std::to_string of an unsigned number below 10^20, and std::stoull: white space, a sign and the
-- longest run of digits are read, what follows is ignored, and a negative number wraps around.
pub mod RoundTrip
use Prim.Native.Nat.{ℕ, zero, suc, ◌+◌, ◌-◌, ◌*◌, ◌/◌, ◌%◌, ◌^◌}
use mathlib.Core.Path.{◌≡◌, refl}
use mathlib.Core.Bool.{Bool, true, false, ◌&&◌, ◌||◌}
use mathlib.Core.List.{List, [], ◌∷◌}
use mini_ocs_nos.Base.Tests.{ltb, leb, ◌==◌, if◌then◌else◌}
use mini_ocs_nos.Base.Text.{Text, codes}
use mini_ocs_nos.Base.Outcome.{Outcome, returns, throws, Exception}

-- The digits of `n` in front of `out`, for at most `fuel` digits.
unfoldable pub digits : ℕ → ℕ → Text → Text
digits zero n out = out
digits (suc fuel) n out =
    let rest = digits fuel (n / 10) ((48 + n % 10) ∷ out) in
    if n / 10 == 0 then (48 + n % 10) ∷ out else rest

-- A uint64_t has at most 20 digits.
unfoldable pub to_string : ℕ → Text
unfolding digits
to_string n = digits 20 n []

abbrev pub is_digit : ℕ → Bool
is_digit c = leb 48 c && leb c 57

unfoldable pub all_digits : Text → Bool
all_digits [] = true
all_digits (c ∷ s) = is_digit c && all_digits s

abbrev is_space : ℕ → Bool
is_space c = c == 32 || (leb 9 c && leb c 13)

unfoldable pub skip_spaces : Text → Text
skip_spaces [] = []
skip_spaces (c ∷ s) = let rest = skip_spaces s in if is_space c then rest else c ∷ s

-- The value of the digits in front, behind `n`.
unfoldable pub scan_digits : Text → ℕ → ℕ
scan_digits [] n = n
scan_digits (c ∷ s) n =
    let rest = scan_digits s (n * 10 + (c - 48)) in if is_digit c then rest else n

-- The sign, true for a minus, and what follows it.
unfoldable pub split_sign : Text → Bool × Text
split_sign [] = (false, [])
split_sign (c ∷ s) = if c == 45 then (true, s) else if c == 43 then (false, s) else (false, c ∷ s)

abbrev pub starts_with_digit : Text → Bool
starts_with_digit [] = false
starts_with_digit (c ∷ s) = is_digit c

unfoldable pub stoull_signed : Bool × Text → Outcome ℕ
stoull_signed (minus, s) =
    let n = scan_digits s 0 in
    if starts_with_digit s
    then (if ltb n (2 ^ 64)
        then returns (if minus then (2 ^ 64 - n) % 2 ^ 64 else n)
        else throws Exception.out_of_range)
    else throws Exception.invalid_argument

unfoldable pub stoull : Text → Outcome ℕ
unfolding stoull_signed skip_spaces split_sign scan_digits
stoull s = stoull_signed (split_sign (skip_spaces s))

stoull_test : stoull (codes " 42x") ≡ returns 42
unfolding stoull codes
stoull_test = refl

stoull_overflow : stoull (codes "18446744073709551616") ≡ throws Exception.out_of_range
unfolding stoull codes
stoull_overflow = refl

to_string_test : to_string 1203 ≡ codes "1203"
unfolding to_string codes
to_string_test = refl
