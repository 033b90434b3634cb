-- ===== src/RedisKeys/Connections.antt =====
-- The keys under which cpp/include/ocs/redis_keys.hpp keeps a connection do not clash.
use mathlib.Core.List.{append_assoc}
use mini_ocs_nos.Base.{
  ℕ, ◌≡◌, refl, sym, ap, ◌∙◌, Bool, true, not, ◌&&◌, [], ◌∷◌, ◌++◌, ◌==◌, if◌then◌else◌, length,
  arith,
}
use mini_ocs_nos.Base.Text.{Text, codes}
use mini_ocs_nos.RedisKeys.Tables.{
  connection_config_key, connection_app_key, connection_device_key, connection_state_key,
  connection_counters_key,
}
use mini_ocs_nos.RedisKeys.Syncd.{syncd_connection_version_key}

-- The tables that have a row for each connection.
pub data ConnectionTable : Type 0 where
  config app device state counters version : ConnectionTable

abbrev pub connection_key : ConnectionTable → Text → Text → Text
connection_key config d i = connection_config_key d i
connection_key app d i = connection_app_key d i
connection_key device d i = connection_device_key d i
connection_key state d i = connection_state_key d i
connection_key counters d i = connection_counters_key d i
connection_key version d i = syncd_connection_version_key d i

-- The text has no '|', which is 124.
unfoldable pub no_bar : Text → Bool
no_bar [] = true
no_bar (c ∷ cs) = not (c == 124) && no_bar cs

split_bar :
    (a b x y : Text)
    → no_bar a ≡ true
    → no_bar b ≡ true
    → a ++ (124 ∷ x) ≡ b ++ (124 ∷ y)
    → (a ≡ b) × (x ≡ y)
unfolding no_bar
split_bar [] [] x y h k e = (refl, ground arith)
split_bar [] (c ∷ cs) x y h k e = ground arith
split_bar (c ∷ cs) [] x y h k e = ground arith
split_bar (c ∷ cs) (e ∷ es) x y h k p = ground (arith, split_bar cs es x y)

table_name : ConnectionTable → Text
table_name config = codes "OCS_CONNECTION"
table_name app = codes "OCS_CONNECTION_APP"
table_name device = codes "OCS_CONNECTION_DEVICE"
table_name state = codes "OCS_CONNECTION_STATE"
table_name counters = codes "OCS_CONNECTION_COUNTERS"
table_name version = codes "OCS_SYNCD_CONNECTION_VERSION"

-- The names differ in their lengths.
table_of_length : ℕ → ConnectionTable
table_of_length n =
    if n == 14
    then config
    else if n == 18
    then app
    else if n == 21
    then device
    else if n == 20
    then state
    else if n == 23
    then counters
    else version

table_name-inverse : (t : ConnectionTable) → table_of_length (length (table_name t)) ≡ t
unfolding table_name table_of_length codes
table_name-inverse config = refl
table_name-inverse app = refl
table_name-inverse device = refl
table_name-inverse state = refl
table_name-inverse counters = refl
table_name-inverse version = refl

no_bar-table_name : (t : ConnectionTable) → no_bar (table_name t) ≡ true
unfolding table_name codes no_bar
no_bar-table_name config = refl
no_bar-table_name app = refl
no_bar-table_name device = refl
no_bar-table_name state = refl
no_bar-table_name counters = refl
no_bar-table_name version = refl

parts :
    (name d i : Text)
    → (name ++ codes "|") ++ d ++ codes "|" ++ i ≡ name ++ (124 ∷ (d ++ (124 ∷ i)))
unfolding codes
parts name d i =
    append_assoc (name ++ codes "|" ++ d) (codes "|") i
    ∙ append_assoc (name ++ codes "|") d (124 ∷ i)
    ∙ append_assoc name (codes "|") (d ++ (124 ∷ i))

connection_key-parts :
    (t : ConnectionTable) (d i : Text)
    → connection_key t d i ≡ table_name t ++ (124 ∷ (d ++ (124 ∷ i)))
unfolding table_name codes
connection_key-parts config d i = parts (table_name config) d i
connection_key-parts app d i = parts (table_name app) d i
connection_key-parts device d i = parts (table_name device) d i
connection_key-parts state d i = parts (table_name state) d i
connection_key-parts counters d i = parts (table_name counters) d i
connection_key-parts version d i = parts (table_name version) d i

-- Among the keys of the six tables with a row for each connection, and for devices whose names
-- have no '|', equal keys are of the same table, the same device and the same connection.
pub connection_key-injective :
    (t u : ConnectionTable) (d e i j : Text)
    → no_bar d ≡ true
    → no_bar e ≡ true
    → connection_key t d i ≡ connection_key u e j
    → (t ≡ u) × (d ≡ e) × (i ≡ j)
connection_key-injective t u d e i j h k p =
    let (names, rest) =
      split_bar (table_name t) (table_name u) (d ++ (124 ∷ i)) (e ++ (124 ∷ j))
        (no_bar-table_name t) (no_bar-table_name u)
        (sym (connection_key-parts t d i) ∙ p ∙ connection_key-parts u e j) in
    let same = ap (λ (x : Text). table_of_length (length x)) names in
    let (devices, ids) = split_bar d e i j h k rest in
    (sym (table_name-inverse t) ∙ same ∙ table_name-inverse u, devices, ids)
