-- ===== src/RedisKeys/Orch.antt =====
-- Keys of the orchestrator (cpp/include/ocs/redis_keys.hpp).
use mini_ocs_nos.Base.{Bool, ◌++◌, if◌then◌else◌}
use mini_ocs_nos.Base.Text.{Text, codes}

abbrev pub orch_config_batch_key : Text → Text
orch_config_batch_key event_id = codes "OCS_ORCH_CONFIG_BATCH|" ++ event_id

abbrev pub orch_application_publication_key : Text → Text
orch_application_publication_key event_id = codes "OCS_ORCH_APPLICATION_PUBLISHED|" ++ event_id

abbrev pub orch_device_state_publication_key : Text → Text
orch_device_state_publication_key event_id = codes "OCS_ORCH_DEVICE_STATE_PUBLISHED|" ++ event_id

abbrev pub orch_device_command_publication_key : Text → Text
orch_device_command_publication_key event_id =
    codes "OCS_ORCH_DEVICE_COMMAND_PUBLISHED|" ++ event_id

abbrev pub orch_result_application_publication_key : Text → Text
orch_result_application_publication_key result_event_id =
    codes "OCS_ORCH_RESULT_APPLICATION_PUBLISHED|" ++ result_event_id

abbrev pub orch_result_device_publication_key : Text → Text
orch_result_device_publication_key result_event_id =
    codes "OCS_ORCH_RESULT_DEVICE_PUBLISHED|" ++ result_event_id

abbrev pub orch_timeout_application_publication_key : Text → Text
orch_timeout_application_publication_key command_id =
    codes "OCS_ORCH_TIMEOUT_APPLICATION_PUBLISHED|" ++ command_id

abbrev pub orch_timeout_device_publication_key : Text → Text
orch_timeout_device_publication_key command_id =
    codes "OCS_ORCH_TIMEOUT_DEVICE_PUBLISHED|" ++ command_id

abbrev pub orch_retry_publication_key : Text → Text
orch_retry_publication_key command_id = codes "OCS_ORCH_RETRY_PUBLISHED|" ++ command_id

abbrev pub orch_retry_application_publication_key : Text → Text
orch_retry_application_publication_key retry_event_id =
    codes "OCS_ORCH_RETRY_APPLICATION_PUBLISHED|" ++ retry_event_id

abbrev pub orch_retry_device_publication_key : Text → Text
orch_retry_device_publication_key retry_event_id =
    codes "OCS_ORCH_RETRY_DEVICE_PUBLISHED|" ++ retry_event_id

abbrev pub orch_retry_command_publication_key : Text → Text
orch_retry_command_publication_key retry_event_id =
    codes "OCS_ORCH_RETRY_COMMAND_PUBLISHED|" ++ retry_event_id

abbrev pub orch_alarm_publication_key : Text → Text
orch_alarm_publication_key result_event_id = codes "OCS_ORCH_ALARM_PUBLISHED|" ++ result_event_id

abbrev pub orch_alarm_clear_publication_key : Text → Text
orch_alarm_clear_publication_key result_event_id =
    codes "OCS_ORCH_ALARM_CLEAR_PUBLISHED|" ++ result_event_id

abbrev pub orch_alarm_counter_publication_key : Text → Text → Text → Bool → Text
orch_alarm_counter_publication_key device alarm_id activation_id clear =
    codes "OCS_ORCH_ALARM_COUNTER_"
    ++ codes (if clear then "CLEARED|" else "RAISED|")
    ++ device
    ++ codes "|"
    ++ alarm_id
    ++ codes "|"
    ++ activation_id
