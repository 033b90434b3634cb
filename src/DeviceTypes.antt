-- ===== src/DeviceTypes.antt =====
-- cpp/include/ocs/connection.hpp and cpp/include/ocs/device_types.hpp: the values that the
-- device interface exchanges. PortId is a uint16_t and a version a uint64_t, both kept as
-- numbers; optical power, a double that the code only copies, is kept in tenths of a dBm.
use mini_ocs_nos.Base.{ℕ, Bool, List}
use mini_ocs_nos.Base.Text.{Text}
use mini_ocs_nos.Errors
use mini_ocs_nos.Errors.{Error}

-- A signed number; `negsuc n` is -(n + 1).
pub data ℤ : Type 0 where
  pos : ℕ → ℤ
  negsuc : ℕ → ℤ

pub data ConnectionOperation : Type 0 where
  upsert remove : ConnectionOperation

pub record ConnectionCommand : Type 0 where
  pub operation : ConnectionOperation
  pub id : Text
  pub input_port : ℕ
  pub output_port : ℕ
  pub desired_version : ℕ

pub record AppliedConnection : Type 0 where
  pub id : Text
  pub input_port : ℕ
  pub output_port : ℕ
  pub applied_version : ℕ

pub data DeviceOperStatus : Type 0 where
  init ready degraded failed resetting : DeviceOperStatus

pub data PortDirection : Type 0 where
  input output : PortDirection

pub data PortOperStatus : Type 0 where
  up down low_power fault unknown : PortOperStatus

pub record DeviceInfo : Type 0 where
  pub name : Text
  pub input_port_count : ℕ
  pub output_port_count : ℕ
  pub model : Text
  pub serial_number : Text
  pub firmware_version : Text
  pub generation : ℕ

pub record DeviceHealth : Type 0 where
  pub status : DeviceOperStatus
  pub last_error : Error

pub record PortState : Type 0 where
  pub id : ℕ
  pub direction : PortDirection
  pub admin_enabled : Bool
  pub oper_status : PortOperStatus
  pub optical_power_dbm : ℤ

-- timeout is a number of milliseconds.
pub record ApplyOptions : Type 0 where
  pub atomic : Bool
  pub timeout : ℤ
  pub operation_id : Text

pub record ApplyResult : Type 0 where
  pub error : Error
  pub connections : List AppliedConnection

pub data ResetMode : Type 0 where
  soft hard : ResetMode

pub record ResetResult : Type 0 where
  pub error : Error
  pub generation : ℕ

pub data FaultType : Type 0 where
  next_apply_error next_apply_timeout input_port_down output_port_down out_of_band_drift all :
      FaultType

pub record FaultSpec : Type 0 where
  pub fault_type : FaultType
  pub port_id : ℕ

pub record FaultSelector : Type 0 where
  pub fault_type : FaultType
  pub port_id : ℕ

pub record FaultResult : Type 0 where
  pub error : Error

-- The device reports success without an error.
abbrev pub apply_ok : ApplyResult → Bool
apply_ok r = Errors.is_ok r.error
