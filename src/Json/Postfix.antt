-- ===== src/Json/Postfix.antt =====
-- A JSON library on which the instances run: values are written as postfix programs for a stack.
use mini_ocs_nos.Base.{
  ℕ, ◌≡◌, refl, ap, sym, ◌∙◌, Bool, true, false, Option, none, some, List, [], ◌∷◌, ◌++◌, arith,
  ite, ◌==◌, if◌then◌else◌,
}
use mathlib.Core.List.{append_assoc, append-nil}
use mini_ocs_nos.Base.Text.{Text, text_discrete}
use mini_ocs_nos.Base.TextMap.{find}
use mini_ocs_nos.Base.Outcome.{Outcome, returns, throws, Exception}
use mini_ocs_nos.DeviceTypes.{ℤ, pos, negsuc}
use mini_ocs_nos.Json.{JsonLibrary, IsDocumented}

-- Arrays and objects are built from the end.
pub data Value : Type 0 where
  null : Value
  number : ℕ → Value
  negative : ℕ → Value
  boolean : Bool → Value
  text : Text → Value
  cons : Value → Value → Value
  field : Text → Value → Value → Value

-- A program is a list of numbers: an instruction and its argument.
unfoldable pub write_text : Text → Text
write_text [] = 3 ∷ 0 ∷ []
write_text (c ∷ s) = write_text s ++ (4 ∷ c ∷ [])

unfoldable pub write : Value → Text
unfolding write_text
write Value.null = 0 ∷ 0 ∷ []
write (Value.number n) = 1 ∷ n ∷ []
write (Value.negative n) = 2 ∷ n ∷ []
write (Value.text s) = write_text s
write (Value.boolean false) = 5 ∷ 0 ∷ []
write (Value.boolean true) = 5 ∷ 1 ∷ []
write (Value.cons v w) = write v ++ (write w ++ (6 ∷ 0 ∷ []))
write (Value.field k v w) = write v ++ (write w ++ (write_text k ++ (7 ∷ 0 ∷ [])))

abbrev Stack : Type 0
Stack = List Value

unfoldable push_char : ℕ → Stack → Option Stack
push_char n (Value.text t ∷ s) = some (Value.text (n ∷ t) ∷ s)
push_char n _ = none

unfoldable push_cons : Stack → Option Stack
push_cons (w ∷ v ∷ s) = some (Value.cons v w ∷ s)
push_cons _ = none

unfoldable push_field : Stack → Option Stack
push_field (Value.text k ∷ w ∷ v ∷ s) = some (Value.field k v w ∷ s)
push_field _ = none

unfoldable instruction : ℕ → ℕ → Stack → Option Stack
unfolding push_char push_cons push_field
instruction i n s =
    if i == 0
    then some (Value.null ∷ s)
    else if i == 1
    then some (Value.number n ∷ s)
    else if i == 2
    then some (Value.negative n ∷ s)
    else if i == 3
    then some (Value.text [] ∷ s)
    else if i == 4
    then push_char n s
    else if i == 5
    then some (Value.boolean (n == 1) ∷ s)
    else if i == 6
    then push_cons s
    else if i == 7
    then push_field s
    else none

unfoldable pub execute : Text → Stack → Option Stack
unfolding instruction
execute [] s = some s
execute (i ∷ []) s = none
execute (i ∷ n ∷ p) s = elim (instruction i n s) [ none ↦ none | some s' ↦ execute p s' ]

-- The programs end where they should: what follows runs on the value.
execute-write_text :
    (t p : Text) (s : Stack) → execute (write_text t ++ p) s ≡ execute p (Value.text t ∷ s)
unfolding execute write_text
execute-write_text [] p s = refl
execute-write_text (c ∷ t) p s =
    ap (λ q. execute q s) (append_assoc (write_text t) (4 ∷ c ∷ []) p)
    ∙ execute-write_text t (4 ∷ c ∷ p) s

execute-write : (v : Value) (p : Text) (s : Stack) → execute (write v ++ p) s ≡ execute p (v ∷ s)
unfolding execute write
execute-write Value.null p s = refl
execute-write (Value.number n) p s = refl
execute-write (Value.negative n) p s = refl
execute-write (Value.boolean false) p s = refl
execute-write (Value.boolean true) p s = refl
execute-write (Value.text t) p s = execute-write_text t p s
execute-write (Value.cons v w) p s =
    ap (λ q. execute q s) (append_assoc (write v) (write w ++ (6 ∷ 0 ∷ [])) p)
    ∙ execute-write v ((write w ++ (6 ∷ 0 ∷ [])) ++ p) s
    ∙ ap (λ q. execute q (v ∷ s)) (append_assoc (write w) (6 ∷ 0 ∷ []) p)
    ∙ execute-write w (6 ∷ 0 ∷ p) (v ∷ s)
execute-write (Value.field k v w) p s =
    let tail = write_text k ++ (7 ∷ 0 ∷ []) in
    ap (λ q. execute q s) (append_assoc (write v) (write w ++ tail) p)
    ∙ execute-write v ((write w ++ tail) ++ p) s
    ∙ ap (λ q. execute q (v ∷ s)) (append_assoc (write w) tail p)
    ∙ execute-write w (tail ++ p) (v ∷ s)
    ∙ ap (λ q. execute q (w ∷ v ∷ s)) (append_assoc (write_text k) (7 ∷ 0 ∷ []) p)
    ∙ execute-write_text k (7 ∷ 0 ∷ p) (w ∷ v ∷ s)

unfoldable top : Option Stack → Outcome Value
top (some (v ∷ s)) = returns v
top _ = throws Exception.runtime_error

-- What is not of the kind that is asked for.
abbrev type_error {ℓ} : {A : Type ℓ} → Outcome A
type_error = throws Exception.runtime_error

unfoldable member : Value → Text → Option Value
member (Value.field j v w) k = let rest = member w k in ite (text_discrete j k) (some v) rest
member _ k = none

unfoldable make_object : List (Text × Value) → Value
make_object [] = Value.null
make_object ((k, v) ∷ fields) = Value.field k v (make_object fields)

unfoldable make_array : List Value → Value
make_array [] = Value.null
make_array (v ∷ vs) = Value.cons v (make_array vs)

unfoldable items : Value → List Value
items (Value.cons v w) = v ∷ items w
items (Value.field k v w) = v ∷ items w
items _ = []

unfoldable integer : ℤ → Value
integer (pos n) = Value.number n
integer (negsuc n) = Value.negative n

unfoldable as_integer : Value → Outcome ℤ
as_integer (Value.number n) = returns (pos n)
as_integer (Value.negative n) = returns (negsuc n)
as_integer _ = type_error

unfoldable as_number : Value → Outcome ℕ
as_number (Value.number n) = returns n
as_number _ = type_error

unfoldable as_boolean : Value → Outcome Bool
as_boolean (Value.boolean b) = returns b
as_boolean _ = type_error

unfoldable as_text : Value → Outcome Text
as_text (Value.text t) = returns t
as_text _ = type_error

unfoldable is_number : Value → Bool
is_number (Value.number n) = true
is_number _ = false

unfoldable is_integer : Value → Bool
is_integer (Value.number n) = true
is_integer (Value.negative n) = true
is_integer _ = false

abbrev found : Option Value → Outcome Value
found none = throws Exception.out_of_range
found (some v) = returns v

abbrev text_or : Text → Option Value → Outcome Text
text_or default none = returns default
text_or default (some v) = as_text v

unfoldable pub postfix : JsonLibrary
unfolding execute write top member make_object make_array items integer as_integer as_number
    as_boolean as_text is_number is_integer
postfix = record {
  Value = Value;
  parse = λ t. top (execute t []);
  dump = λ v. returns (write v);
  object = make_object;
  array = make_array;
  from_text = Value.text;
  from_bool = Value.boolean;
  from_uint64 = Value.number;
  from_int64 = integer;
  from_double = integer;
  at = λ v k. found (member v k);
  value_text = λ v k default. text_or default (member v k);
  elements = items;
  is_number_unsigned = is_number;
  is_number_integer = is_integer;
  get_uint64 = as_number;
  get_int64 = as_integer;
  get_double = as_integer;
  get_bool = as_boolean;
  get_text = as_text;
}

member-make_object :
    (fields : List (Text × Value)) (k : Text) → member (make_object fields) k ≡ find k fields
unfolding member make_object find
member-make_object [] k = refl
member-make_object ((j, v) ∷ fields) k = rw (member-make_object fields k) refl

items-make_array : (vs : List Value) → items (make_array vs) ≡ vs
unfolding items make_array
items-make_array [] = refl
items-make_array (v ∷ vs) = ap (λ ws. v ∷ ws) (items-make_array vs)

as_integer-integer : (z : ℤ) → as_integer (integer z) ≡ returns z
unfolding as_integer integer
as_integer-integer (pos n) = refl
as_integer-integer (negsuc n) = refl

pub postfix-IsDocumented : IsDocumented postfix
unfolding postfix
postfix-IsDocumented = record {
  parse-dump = λ v text h.
      let e : write v ≡ text = ground arith in
      ap (λ q. top (execute q [])) (sym e ∙ sym (append-nil (write v)))
      ∙ ap top (execute-write v [] []);
  at-object = λ fields k v h. ap found (member-make_object fields k ∙ h);
  value_text-object =
      λ fields k default text h. ap (text_or default) (member-make_object fields k ∙ h);
  elements-array = items-make_array;
  get_text-from_text = λ text. refl;
  get_bool-from_bool = λ b. refl;
  get_uint64-from_uint64 = λ n. refl;
  is_number_unsigned-from_uint64 = λ n. refl;
  get_int64-from_int64 = as_integer-integer;
  get_double-from_double = as_integer-integer;
}
