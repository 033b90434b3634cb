-- ===== src/UdsJson/RoundTrip.antt =====
-- What cpp/src/uds_json.cpp encodes of the result of an apply is decoded again.
use mini_ocs_nos.Base.{ℕ, ◌<◌, ◌≡◌, refl, ap, ◌%◌, ◌^◌, some, List, [], ◌∷◌, arith, All}
use mini_ocs_nos.Base.Text.{Text, codes, text_discrete}
use mini_ocs_nos.Base.TextMap.{find}
use mini_ocs_nos.Base.Outcome.{returns}
use mini_ocs_nos.Errors
use mini_ocs_nos.Errors.{Error, error_code_from_string}
use mini_ocs_nos.Errors.Names.{error_code_from_string-to_string}
use mini_ocs_nos.DeviceTypes.{AppliedConnection, ApplyResult}
use mini_ocs_nos.Json.{JsonLibrary, IsDocumented}
use mini_ocs_nos.UdsJson.{
  text_at, number_at, port_at_field, error_json, parse_error, connection_json, connections_json,
  parse_connection, parse_connections, encode_apply_result, decode_apply_result,
}

-- The ports are 16 bit numbers.
abbrev pub HasPortIds : AppliedConnection → Type 0
HasPortIds c = (c.input_port < 2 ^ 16) × (c.output_port < 2 ^ 16)

module _ (J : JsonLibrary) (D : IsDocumented J) where
  text_of :
      (fields : List (Text × J.Value)) (name text : Text)
      → find name fields ≡ some (J.from_text text)
      → text_at J (J.object fields) name ≡ returns text
  text_of fields name text h =
      rw (D.at-object fields name (J.from_text text) h, D.get_text-from_text text) refl

  number_of_field :
      (fields : List (Text × J.Value)) (name : Text) (n : ℕ)
      → find name fields ≡ some (J.from_uint64 n)
      → number_at J (J.object fields) name ≡ returns n
  number_of_field fields name n h =
      rw (D.at-object fields name (J.from_uint64 n) h, D.get_uint64-from_uint64 n) refl

  port_of_field :
      (fields : List (Text × J.Value)) (name : Text) (n : ℕ)
      → find name fields ≡ some (J.from_uint64 n)
      → n < 2 ^ 16
      → port_at_field J (J.object fields) name ≡ returns n
  port_of_field fields name n h lt = rw (number_of_field fields name n h) (ap returns (small n lt))
    where
      small : (n : ℕ) → n < 2 ^ 16 → n % 2 ^ 16 ≡ n
      small n lt = omega arith

  parse_error-error_json : (e : Error) → parse_error J (error_json J e) ≡ returns e
  unfolding parse_error error_json find text_discrete codes
  parse_error-error_json e =
      rw
        (
          D.value_text-object _ (codes "code") (codes "OCS_INTERNAL_ERROR")
              (Errors.to_string e.code) refl,
          D.value_text-object _ (codes "message") [] e.message refl,
          error_code_from_string-to_string e.code,
        )
        refl

  parse_connection-connection_json :
      (c : AppliedConnection) → HasPortIds c → parse_connection J (connection_json J c) ≡ returns c
  unfolding parse_connection connection_json find text_discrete codes
  parse_connection-connection_json c p =
      rw
        (
          text_of _ (codes "id") c.id refl,
          port_of_field _ (codes "input_port") c.input_port refl p.0,
          port_of_field _ (codes "output_port") c.output_port refl p.1,
          number_of_field _ (codes "applied_version") c.applied_version refl,
        )
        refl

  parse_connections-connections_json :
      (cs : List AppliedConnection)
      → All HasPortIds cs
      → parse_connections J (connections_json J cs) ≡ returns cs
  unfolding parse_connections connections_json
  parse_connections-connections_json [] p = refl
  parse_connections-connections_json (c ∷ cs) p =
      rw (parse_connection-connection_json c p.0, parse_connections-connections_json cs p.1) refl

  -- The result of an apply whose connections have 16 bit ports is decoded from the text that it is
  -- encoded as.
  pub decode-encode_apply_result :
      (result : ApplyResult) (payload : Text)
      → All HasPortIds result.connections
      → encode_apply_result J result ≡ returns payload
      → decode_apply_result J payload ≡ returns result
  unfolding encode_apply_result decode_apply_result find text_discrete codes
  decode-encode_apply_result result payload p e =
      rw
        (
          D.parse-dump _ payload e,
          D.at-object _ (codes "error") (error_json J result.error) refl,
          parse_error-error_json result.error,
          D.at-object _ (codes "connections") (J.array (connections_json J result.connections))
              refl,
          D.elements-array (connections_json J result.connections),
          parse_connections-connections_json result.connections p,
        )
        refl
