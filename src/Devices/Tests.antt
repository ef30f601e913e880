-- ===== src/Devices/Tests.antt =====
-- Devices of a free organization.
use iotaps.Common.{
  ℕ, ◌≡◌, ◌≢◌, refl, true, false, Option, none, some, List, [], ◌∷◌, arith, String, ◌==◌,
}
use iotaps.Common.Text.{Text, codes, strip}
use iotaps.Common.Rows.{keep}
use iotaps.Common.Exec.{ok}
use iotaps.Auth.Jwt.{Principal}
use iotaps.Auth.Principal.{require_device_access}
use iotaps.Nodes.Assign.{Table}
use iotaps.Devices.Tables.{
  Device, Action, Tables, Caller, owned_device, logged, cascade_device, MqttCredential,
}
use iotaps.Devices.Service.{
  NewDevice, Call, provisions, calls, delete_device, delete_owned, device_display_name,
}
use iotaps.Devices.Limit.{IsWithin, calls-IsWithin}
use iotaps.Devices.Credentials.{deleted_access}

abbrev plans : ℕ → Option String
plans org = some "free"

abbrev owner : Caller
owner = record { scope = record { org_id = 1; bypass = false }; user_id = some 7 }

abbrev sensor : NewDevice
sensor = record {
  label = none;
  group_id = none;
  template_id = none;
  device_uid = codes "DEV-1";
  token = codes "dT_1";
}

abbrev second_sensor : NewDevice
second_sensor = record sensor { device_uid = codes "DEV-2"; token = codes "dT_2" }

abbrev fleet : Table
fleet = (record { id = 90; active = true; active_connections = 0; capacity = 100 }) ∷ []

abbrev blank : Tables
blank = record {
  devices = [];
  credentials = [];
  groups = [];
  users = (record { id = 8; org_id = 1 }) ∷ [];
  assignments = [];
  logs = [];
  nodes = fleet;
  next_id = 20;
}

abbrev twice : List Call
twice = provisions (λ n t. t) owner sensor ∷ provisions (λ n t. t) owner second_sensor ∷ []

calls-IsWithin_example : IsWithin plans (calls plans twice blank)
calls-IsWithin_example = calls-IsWithin plans twice blank (λ org limit h. omega arith)

-- One device, which its user may not yet see.
abbrev one_device : Tables
one_device = record blank {
  devices =
      (record {
        id = 20;
        org_id = 1;
        device_uid = codes "DEV-1";
        label = none;
        group_id = none;
        template_id = none;
        node_id = some 90;
        maintenance_mode = false;
        is_simulator = false;
        sim_interval_sec = 0;
      })
      ∷ [];
  credentials =
      (record {
        org_id = 1;
        device_id = 20;
        token = codes "dT_1";
        password_plain = codes "dT_1";
        revoked = false;
      })
      ∷ [];
  next_id = 21;
}

abbrev granted : Tables
granted = record one_device {
  assignments = (record { org_id = 1; device_id = 20; user_id = 8 }) ∷ [];
  logs =
      (record { org_id = 1; user_id = some 7; device_id = some 20; action = Action.assign }) ∷ [];
}

abbrev eve : Principal
eve = record { user_id = codes "8"; org_id = codes "1"; role = codes "device_user" }

abbrev uuid : Text → Option ℕ
uuid [] = none
uuid (c ∷ []) = some 8
uuid (c ∷ (d ∷ l)) = some 20

abbrev deleted : Tables
deleted = record blank {
  logs = (record { org_id = 1; user_id = some 7; device_id = none; action = Action.delete }) ∷ [];
  next_id = 21;
}

deleted_access_example :
    (keep (λ (c : MqttCredential). c.device_id == 20) [] ≡ [])
    × (require_device_access uuid [] eve (some (codes "20")) ≢ ok eve)
    × (keep (λ (c : MqttCredential). c.device_id == 21) []
        ≡ keep (λ c. c.device_id == 21) one_device.credentials)
unfolding delete_device owned_device delete_owned cascade_device logged
deleted_access_example =
    deleted_access owner 20 8 21 one_device deleted uuid eve (codes "20") refl refl refl
      (omega arith) refl

display_names :
    (show : ℕ → Text)
    → (d : Device) → d.label ≡ some (codes "  ")
    → d.device_uid ≡ codes "DEV-1"
    → device_display_name show d ≡ codes "DEV-1"
unfolding device_display_name strip
display_names show d h k = rw (h, k) refl
