-- ===== src/RedisKeys/Examples.antt =====
-- An instance for the keys of cpp/include/ocs/redis_keys.hpp.
use mini_ocs_nos.Base.{◌≡◌, refl, [], ◌∷◌}
use mini_ocs_nos.Base.Text.{Text}
use mini_ocs_nos.RedisKeys.Connections.{ConnectionTable, no_bar, connection_key-injective}

abbrev one : Text
one = 49 ∷ []

abbrev ocs : Text
ocs = 111 ∷ 99 ∷ 115 ∷ []

connection_key-injective_example :
    (ConnectionTable.app ≡ ConnectionTable.app) × (ocs ≡ ocs) × (one ≡ one)
unfolding no_bar
connection_key-injective_example =
    connection_key-injective ConnectionTable.app ConnectionTable.app ocs ocs one one refl refl refl
