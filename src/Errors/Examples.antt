-- ===== src/Errors/Examples.antt =====
-- An instance for the error names of cpp/src/errors.cpp.
use mini_ocs_nos.Base.{◌≡◌, ◌↔◌, ◌⊎◌}
use mini_ocs_nos.Base.Text.{codes}
use mini_ocs_nos.Errors.{ErrorCode, to_string, error_code_from_string}
use mini_ocs_nos.Errors.Names.{IsUnknown, error_code_from_string_iff}

error_code_from_string_iff_example :
    (error_code_from_string (codes "OCS_PORT_DOWN") ≡ ErrorCode.port_down) ↔ (
      (codes "OCS_PORT_DOWN" ≡ to_string ErrorCode.port_down)
      ⊎ ((ErrorCode.port_down ≡ ErrorCode.internal_error) × IsUnknown (codes "OCS_PORT_DOWN")))
error_code_from_string_iff_example =
    error_code_from_string_iff (codes "OCS_PORT_DOWN") ErrorCode.port_down
