-- ===== src/UdsJson/Names.antt =====
-- The names of enumerations in cpp/src/uds_json.cpp. A name that is not known is read as a default.
use mini_ocs_nos.Base.{◌≡◌, refl, ite}
use mini_ocs_nos.Base.Text.{Text, codes, text_discrete}
use mini_ocs_nos.DeviceTypes.{
  ConnectionOperation, upsert, remove, PortDirection, PortOperStatus, FaultType,
}

unfoldable pub direction_name : PortDirection → Text
direction_name PortDirection.input = codes "INPUT"
direction_name PortDirection.output = codes "OUTPUT"

unfoldable pub parse_direction : Text → PortDirection
parse_direction value =
    ite (text_discrete value (codes "OUTPUT")) PortDirection.output PortDirection.input

unfoldable pub parse_uds_operation : Text → ConnectionOperation
parse_uds_operation value = ite (text_discrete value (codes "REMOVE")) remove upsert

unfoldable pub port_status_name : PortOperStatus → Text
port_status_name PortOperStatus.up = codes "UP"
port_status_name PortOperStatus.down = codes "DOWN"
port_status_name PortOperStatus.low_power = codes "LOW_POWER"
port_status_name PortOperStatus.fault = codes "FAULT"
port_status_name PortOperStatus.unknown = codes "UNKNOWN"

unfoldable pub parse_port_status : Text → PortOperStatus
parse_port_status value = ite (text_discrete value (codes "UP")) PortOperStatus.up (
    ite (text_discrete value (codes "DOWN")) PortOperStatus.down (
      ite (text_discrete value (codes "LOW_POWER")) PortOperStatus.low_power
        (ite (text_discrete value (codes "FAULT")) PortOperStatus.fault PortOperStatus.unknown)))

unfoldable pub fault_name : FaultType → Text
fault_name FaultType.next_apply_error = codes "NEXT_APPLY_ERROR"
fault_name FaultType.next_apply_timeout = codes "NEXT_APPLY_TIMEOUT"
fault_name FaultType.input_port_down = codes "INPUT_PORT_DOWN"
fault_name FaultType.output_port_down = codes "OUTPUT_PORT_DOWN"
fault_name FaultType.out_of_band_drift = codes "OUT_OF_BAND_DRIFT"
fault_name FaultType.all = codes "ALL"

unfoldable pub parse_fault : Text → FaultType
parse_fault value =
    ite (text_discrete value (codes "NEXT_APPLY_TIMEOUT")) FaultType.next_apply_timeout (
      ite (text_discrete value (codes "INPUT_PORT_DOWN")) FaultType.input_port_down (
        ite (text_discrete value (codes "OUTPUT_PORT_DOWN")) FaultType.output_port_down (
          ite (text_discrete value (codes "OUT_OF_BAND_DRIFT")) FaultType.out_of_band_drift
            (ite (text_discrete value (codes "ALL")) FaultType.all FaultType.next_apply_error))))

pub parse_direction-direction_name : (d : PortDirection) → parse_direction (direction_name d) ≡ d
unfolding parse_direction direction_name codes text_discrete
parse_direction-direction_name PortDirection.input = refl
parse_direction-direction_name PortDirection.output = refl

pub parse_port_status-port_status_name :
    (s : PortOperStatus) → parse_port_status (port_status_name s) ≡ s
unfolding parse_port_status port_status_name codes text_discrete
parse_port_status-port_status_name PortOperStatus.up = refl
parse_port_status-port_status_name PortOperStatus.down = refl
parse_port_status-port_status_name PortOperStatus.low_power = refl
parse_port_status-port_status_name PortOperStatus.fault = refl
parse_port_status-port_status_name PortOperStatus.unknown = refl

pub parse_fault-fault_name : (f : FaultType) → parse_fault (fault_name f) ≡ f
unfolding parse_fault fault_name codes text_discrete
parse_fault-fault_name FaultType.next_apply_error = refl
parse_fault-fault_name FaultType.next_apply_timeout = refl
parse_fault-fault_name FaultType.input_port_down = refl
parse_fault-fault_name FaultType.output_port_down = refl
parse_fault-fault_name FaultType.out_of_band_drift = refl
parse_fault-fault_name FaultType.all = refl
