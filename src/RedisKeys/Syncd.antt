-- ===== src/RedisKeys/Syncd.antt =====
-- Keys of the synchronisation service (cpp/include/ocs/redis_keys.hpp).
use mini_ocs_nos.Base.{ℕ, Bool, ◌++◌, if◌then◌else◌}
use mini_ocs_nos.Base.Text.{Text, codes}
use mini_ocs_nos.Base.Decimal.{to_string}

abbrev pub syncd_connection_version_key : Text → Text → Text
syncd_connection_version_key device connection_id =
    codes "OCS_SYNCD_CONNECTION_VERSION|" ++ device ++ codes "|" ++ connection_id

abbrev pub syncd_reconciliation_key : Text → Text
syncd_reconciliation_key device = codes "OCS_SYNCD_RECONCILIATION|" ++ device

abbrev pub syncd_reconciliation_command_publication_key : Text → Text
syncd_reconciliation_command_publication_key command_id =
    codes "OCS_SYNCD_RECONCILIATION_COMMAND_PUBLISHED|" ++ command_id

abbrev pub syncd_reconciliation_state_publication_key : Text → Text → Text → Text
syncd_reconciliation_state_publication_key command_id connection_id phase =
    codes "OCS_SYNCD_RECONCILIATION_STATE_PUBLISHED|"
    ++ command_id
    ++ codes "|"
    ++ connection_id
    ++ codes "|"
    ++ phase

abbrev pub syncd_reconciliation_counters_publication_key : Text → Text
syncd_reconciliation_counters_publication_key command_id =
    codes "OCS_SYNCD_RECONCILIATION_COUNTERS_PUBLISHED|" ++ command_id

abbrev pub syncd_reconciliation_success_counters_publication_key : Text → Text
syncd_reconciliation_success_counters_publication_key command_id =
    codes "OCS_SYNCD_RECONCILIATION_SUCCESS_COUNTERS_PUBLISHED|" ++ command_id

abbrev pub syncd_drift_alarm_publication_key : Text → Text
syncd_drift_alarm_publication_key command_id =
    codes "OCS_SYNCD_DRIFT_ALARM_PUBLISHED|" ++ command_id

abbrev pub syncd_drift_alarm_clear_publication_key : Text → Text
syncd_drift_alarm_clear_publication_key command_id =
    codes "OCS_SYNCD_DRIFT_ALARM_CLEARED|" ++ command_id

abbrev pub syncd_drift_alarm_counter_publication_key : Text → Text → Bool → Text
syncd_drift_alarm_counter_publication_key device activation_id clear =
    codes "OCS_SYNCD_DRIFT_ALARM_COUNTER_"
    ++ codes (if clear then "CLEARED|" else "RAISED|")
    ++ device
    ++ codes "|"
    ++ activation_id

abbrev pub syncd_port_fault_key : Text → Text → Text → Text
syncd_port_fault_key device direction port_id =
    codes "OCS_SYNCD_PORT_FAULT|" ++ device ++ codes "|" ++ direction ++ codes "|" ++ port_id

abbrev pub syncd_port_fault_pattern : Text → Text
syncd_port_fault_pattern device = codes "OCS_SYNCD_PORT_FAULT|" ++ device ++ codes "|*"

abbrev pub syncd_port_alarm_publication_key : Text → Text
syncd_port_alarm_publication_key activation_id =
    codes "OCS_SYNCD_PORT_ALARM_PUBLISHED|" ++ activation_id

abbrev pub syncd_port_alarm_clear_publication_key : Text → Text
syncd_port_alarm_clear_publication_key activation_id =
    codes "OCS_SYNCD_PORT_ALARM_CLEARED|" ++ activation_id

abbrev pub syncd_port_alarm_counter_publication_key : Text → Bool → Text
syncd_port_alarm_counter_publication_key activation_id clear =
    codes "OCS_SYNCD_PORT_ALARM_COUNTER_"
    ++ codes (if clear then "CLEARED|" else "RAISED|")
    ++ activation_id

abbrev pub syncd_state_publication_key : Text → Text → Text
syncd_state_publication_key command_id connection_id =
    codes "OCS_SYNCD_STATE_PUBLISHED|" ++ command_id ++ codes "|" ++ connection_id

abbrev pub syncd_counters_publication_key : Text → Text
syncd_counters_publication_key command_id = codes "OCS_SYNCD_COUNTERS_PUBLISHED|" ++ command_id

abbrev pub syncd_result_publication_key : Text → Text → Text
syncd_result_publication_key command_id connection_id =
    codes "OCS_SYNCD_RESULT_PUBLISHED|" ++ command_id ++ codes "|" ++ connection_id

abbrev pub syncd_generation_recovery_key : Text → ℕ → Text
syncd_generation_recovery_key device generation =
    codes "OCS_SYNCD_GENERATION_RECOVERY|" ++ device ++ codes "|" ++ to_string generation

abbrev pub syncd_generation_state_publication_key : Text → ℕ → Text → Text
syncd_generation_state_publication_key device generation connection_id =
    codes "OCS_SYNCD_GENERATION_STATE_PUBLISHED|"
    ++ device
    ++ codes "|"
    ++ to_string generation
    ++ codes "|"
    ++ connection_id

abbrev pub syncd_generation_counters_publication_key : Text → ℕ → Text
syncd_generation_counters_publication_key device generation =
    codes "OCS_SYNCD_GENERATION_COUNTERS_PUBLISHED|" ++ device ++ codes "|" ++ to_string generation
