-- ===== src/Json.antt =====
-- The JSON library that cpp/src/device_command.cpp and cpp/src/orchestrator_service.cpp use
-- (nlohmann::json), as a parameter: its values, how they are made and read, and what its
-- documentation says of them.
pub mod Postfix
use mini_ocs_nos.Base.{ℕ, ◌≡◌, Bool, true, some, List}
use mini_ocs_nos.Base.Text.{Text}
use mini_ocs_nos.Base.TextMap.{find}
use mini_ocs_nos.Base.Outcome.{Outcome, returns}
use mini_ocs_nos.DeviceTypes.{ℤ}

-- A double is kept in tenths, as in DeviceTypes. `elements` has what a range-based for runs over. A non-negative integer is read back from its
-- text as an unsigned one, and `from_int64` stands for the value that is read back.
pub record JsonLibrary : Type 1 where
  pub Value : Type 0
  pub parse : Text → Outcome Value
  pub dump : Value → Outcome Text
  pub object : List (Text × Value) → Value
  pub array : List Value → Value
  pub from_text : Text → Value
  pub from_bool : Bool → Value
  pub from_uint64 : ℕ → Value
  pub from_int64 : ℤ → Value
  pub from_double : ℤ → Value
  pub at : Value → Text → Outcome Value
  pub value_text : Value → Text → Text → Outcome Text
  pub elements : Value → List Value
  pub is_number_unsigned : Value → Bool
  pub is_number_integer : Value → Bool
  pub get_uint64 : Value → Outcome ℕ
  pub get_int64 : Value → Outcome ℤ
  pub get_double : Value → Outcome ℤ
  pub get_bool : Value → Outcome Bool
  pub get_text : Value → Outcome Text

pub record IsDocumented (J : JsonLibrary) : Type 0 where
  pub parse-dump : (v : J.Value) (text : Text) → J.dump v ≡ returns text → J.parse text ≡ returns v
  pub at-object :
      (fields : List (Text × J.Value)) (k : Text) (v : J.Value)
      → find k fields ≡ some v
      → J.at (J.object fields) k ≡ returns v
  pub value_text-object :
      (fields : List (Text × J.Value)) (k default text : Text)
      → find k fields ≡ some (J.from_text text)
      → J.value_text (J.object fields) k default ≡ returns text
  pub elements-array : (vs : List J.Value) → J.elements (J.array vs) ≡ vs
  pub get_text-from_text : (text : Text) → J.get_text (J.from_text text) ≡ returns text
  pub get_bool-from_bool : (b : Bool) → J.get_bool (J.from_bool b) ≡ returns b
  pub get_uint64-from_uint64 : (n : ℕ) → J.get_uint64 (J.from_uint64 n) ≡ returns n
  pub is_number_unsigned-from_uint64 : (n : ℕ) → J.is_number_unsigned (J.from_uint64 n) ≡ true
  pub get_int64-from_int64 : (z : ℤ) → J.get_int64 (J.from_int64 z) ≡ returns z
  pub get_double-from_double : (z : ℤ) → J.get_double (J.from_double z) ≡ returns z
