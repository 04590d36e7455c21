-- ===== src/Device/State.antt =====
-- The fields of `class Device` (device.h), its constructors and its plain setters (device.cc).
pub mod Laws
use libnitrokey.Prelude.{
  ℕ, ◌+◌, ◌≡◌, Bool, true, false, Option, none, some, List, [], ◌==◌, if◌then◌else◌, not,
}
use libnitrokey.Prelude.Bytes.{Bytes}
use libnitrokey.Exceptions.{Action, ok}
use libnitrokey.Device.Model.{
  DeviceModel, pro, storage, librem, nitrokey_vid, nitrokey_pro_pid, nitrokey_storage_pid,
  purism_vid, librem_key_pid,
}

-- `Device::ErrorCounters`; the counters are taken as unbounded.
pub record ErrorCounters : Type 0 where
  pub wrong_crc : ℕ
  pub crc_other_than_awaited : ℕ
  pub busy : ℕ
  pub total_retries : ℕ
  pub sending_error : ℕ
  pub receiving_error : ℕ
  pub total_comm_runs : ℕ
  pub successful_storage_commands : ℕ
  pub command_successful_recv : ℕ
  pub recv_executed : ℕ
  pub sends_executed : ℕ
  pub busy_progressbar : ℕ
  pub command_result_not_equal_0_recv : ℕ
  pub communication_successful : ℕ
  pub low_level_reconnect : ℕ

-- `m_counters = {}`
abbrev pub no_errors : ErrorCounters
no_errors = record {
  wrong_crc = 0;
  crc_other_than_awaited = 0;
  busy = 0;
  total_retries = 0;
  sending_error = 0;
  receiving_error = 0;
  total_comm_runs = 0;
  successful_storage_commands = 0;
  command_successful_recv = 0;
  recv_executed = 0;
  sends_executed = 0;
  busy_progressbar = 0;
  command_result_not_equal_0_recv = 0;
  communication_successful = 0;
  low_level_reconnect = 0;
}

-- Delays are in milliseconds; `handle` is `mp_devhandle`.
pub record Device : Type 0 where
  pub counters : ErrorCounters
  pub last_command_status : ℕ
  pub vid : ℕ
  pub pid : ℕ
  pub model : DeviceModel
  pub retry_sending_count : ℕ
  pub retry_receiving_count : ℕ
  pub retry_timeout : ℕ
  pub send_receive_delay : ℕ
  pub handle : Option ℕ
  pub path : Bytes

-- The constructor of `Device`. That it counts the instance is left to its callers.
unfoldable pub init_device : ℕ → ℕ → DeviceModel → ℕ → ℕ → ℕ → Device
init_device vid pid model send_receive_delay retry_receiving_count retry_timeout = record {
  counters = no_errors;
  last_command_status = 0;
  vid = vid;
  pid = pid;
  model = model;
  retry_sending_count = 1;
  retry_receiving_count = retry_receiving_count;
  retry_timeout = retry_timeout;
  send_receive_delay = send_receive_delay;
  handle = none;
  path = [];
}

-- `Device::setDefaultDelay`, given the static `default_delay`.
unfoldable pub set_default_delay : ℕ → Device → Device
set_default_delay default_delay d =
    if default_delay == 0
    then d
    else record d { retry_timeout = default_delay; send_receive_delay = default_delay }

-- The constructors `Stick10`, `Stick20` and `LibremKey`, chosen as in `Device::create`.
unfoldable pub create : ℕ → DeviceModel → Device
unfolding init_device set_default_delay
create default_delay pro =
    set_default_delay default_delay (init_device nitrokey_vid nitrokey_pro_pid pro 100 15 100)
create default_delay storage =
    set_default_delay default_delay (init_device nitrokey_vid nitrokey_storage_pid storage 40 55 40)
create default_delay librem =
    set_default_delay default_delay (init_device purism_vid librem_key_pid librem 100 15 100)

pub set_path : Bytes → Device → Device
set_path path d = record d { path = path }

pub set_receiving_delay : ℕ → Device → Device
set_receiving_delay delay d = record d { send_receive_delay = delay }

pub set_retry_delay : ℕ → Device → Device
set_retry_delay delay d = record d { retry_timeout = delay }

-- The atomic exchange of `get_last_command_status`.
pub get_last_command_status : Device → ℕ × Device
get_last_command_status d = (d.last_command_status, record d { last_command_status = 0 })

unfoldable pub set_last_command_status : ℕ → Device → Device
set_last_command_status status d = record d { last_command_status = status }

-- A device with the world behind hidapi and the static count of instances.
pub record Session (W : Type 0) : Type 0 where
  pub device : Device
  pub world : W
  pub instances_count : ℕ

module _ {W : Type 0} where
  abbrev pub on_device : (Device → Device) → Session W → Session W
  on_device f s = record s { device = f s.device }

  -- A call into hidapi.
  abbrev pub on_world : {A : Type 0} → (W → A × W) → Action (Session W) A
  on_world call s = let (a, w) = call s.world in (ok a, record s { world = w })

  abbrev pub count : (ErrorCounters → ErrorCounters) → Action (Session W) (Unit {0})
  count f s = (ok tt, on_device (λ d. record d { counters = f d.counters }) s)
