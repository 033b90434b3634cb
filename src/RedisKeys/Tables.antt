-- ===== src/RedisKeys/Tables.antt =====
-- Keys of the tables that several services share (cpp/include/ocs/redis_keys.hpp).
use mini_ocs_nos.Base.{◌++◌}
use mini_ocs_nos.Base.Text.{Text, codes}

abbrev pub fault_result_key : Text → Text
fault_result_key command_id = codes "OCS_FAULT_RESULT|" ++ command_id

abbrev pub device_config_key : Text → Text
device_config_key device = codes "OCS_DEVICE|" ++ device

abbrev pub input_port_config_key : Text → Text → Text
input_port_config_key device port_id = codes "OCS_INPUT_PORT|" ++ device ++ codes "|" ++ port_id

abbrev pub output_port_config_key : Text → Text → Text
output_port_config_key device port_id = codes "OCS_OUTPUT_PORT|" ++ device ++ codes "|" ++ port_id

abbrev pub connection_config_key : Text → Text → Text
connection_config_key device connection_id =
    codes "OCS_CONNECTION|" ++ device ++ codes "|" ++ connection_id

abbrev pub connection_config_pattern : Text → Text
connection_config_pattern device = codes "OCS_CONNECTION|" ++ device ++ codes "|*"

abbrev pub connection_app_key : Text → Text → Text
connection_app_key device connection_id =
    codes "OCS_CONNECTION_APP|" ++ device ++ codes "|" ++ connection_id

abbrev pub connection_device_key : Text → Text → Text
connection_device_key device connection_id =
    codes "OCS_CONNECTION_DEVICE|" ++ device ++ codes "|" ++ connection_id

abbrev pub connection_device_pattern : Text → Text
connection_device_pattern device = codes "OCS_CONNECTION_DEVICE|" ++ device ++ codes "|*"

abbrev pub desired_actual_drift_alarm_id : Text
desired_actual_drift_alarm_id = codes "desired-actual-drift"

abbrev pub port_down_alarm_id : Text → Text → Text
port_down_alarm_id direction port_id = codes "port-down-" ++ direction ++ codes "-" ++ port_id

abbrev pub processed_device_command_key : Text → Text
processed_device_command_key command_id = codes "OCS_PROCESSED_DEVICE_COMMAND|" ++ command_id

abbrev pub device_apply_attempt_key : Text → Text
device_apply_attempt_key command_id = codes "OCS_DEVICE_APPLY_ATTEMPT|" ++ command_id

abbrev pub device_apply_result_key : Text → Text
device_apply_result_key command_id = codes "OCS_DEVICE_APPLY_RESULT|" ++ command_id

abbrev pub connection_state_key : Text → Text → Text
connection_state_key device connection_id =
    codes "OCS_CONNECTION_STATE|" ++ device ++ codes "|" ++ connection_id

abbrev pub config_revision_key : Text → Text
config_revision_key device = codes "OCS_CONFIG_REVISION|" ++ device

abbrev pub device_state_key : Text → Text
device_state_key device = codes "OCS_DEVICE_STATE|" ++ device

abbrev pub service_state_key : Text → Text
service_state_key service = codes "OCS_SERVICE_STATE|" ++ service

abbrev pub input_port_state_key : Text → Text → Text
input_port_state_key device port_id =
    codes "OCS_INPUT_PORT_STATE|" ++ device ++ codes "|" ++ port_id

abbrev pub output_port_state_key : Text → Text → Text
output_port_state_key device port_id =
    codes "OCS_OUTPUT_PORT_STATE|" ++ device ++ codes "|" ++ port_id

abbrev pub device_counters_key : Text → Text
device_counters_key device = codes "OCS_DEVICE_COUNTERS|" ++ device

abbrev pub connection_counters_key : Text → Text → Text
connection_counters_key device connection_id =
    codes "OCS_CONNECTION_COUNTERS|" ++ device ++ codes "|" ++ connection_id

abbrev pub active_alarm_key : Text → Text → Text
active_alarm_key device alarm_id = codes "OCS_ACTIVE_ALARM|" ++ device ++ codes "|" ++ alarm_id

abbrev pub apply_timeout_alarm_id : Text → Text
apply_timeout_alarm_id connection_id = codes "apply-timeout-" ++ connection_id
