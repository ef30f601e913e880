-- ===== src/Devices/Tables.antt =====
-- The rows behind app/services/device_service.py, with what the foreign keys of app/models do when a
-- device goes. The details of log entries, the hash of a credential and its pattern, which the rest of
-- the row gives, are left out. A new row gets the next number as its id.
use iotaps.Common.{
  ℕ, Bool, true, false, not, ◌||◌, Option, none, some, List, ◌∷◌, ◌==◌, if◌then◌else◌,
}
use iotaps.Common.Text.{Text, same_codes}
use iotaps.Common.Rows.{keep, find_where, update_where}
use iotaps.Command.Service.{TenantScope}
use iotaps.Nodes.Assign.{Table}

pub record Device : Type 0 where
  pub id : ℕ
  pub org_id : ℕ
  pub device_uid : Text
  pub label : Option Text
  pub group_id : Option ℕ
  pub template_id : Option ℕ
  pub node_id : Option ℕ
  pub maintenance_mode : Bool
  pub is_simulator : Bool
  pub sim_interval_sec : ℕ

pub record MqttCredential : Type 0 where
  pub org_id : ℕ
  pub device_id : ℕ
  pub token : Text
  pub password_plain : Text
  pub revoked : Bool

pub record DeviceGroup : Type 0 where
  pub id : ℕ
  pub org_id : ℕ
  pub name : Text

pub record User : Type 0 where
  pub id : ℕ
  pub org_id : ℕ

pub record DeviceUserAssignment : Type 0 where
  pub org_id : ℕ
  pub device_id : ℕ
  pub user_id : ℕ

pub data Action : Type 0 where
  provision assign rename config_change delete : Action

pub record ActivityLog : Type 0 where
  pub org_id : ℕ
  pub user_id : Option ℕ
  pub device_id : Option ℕ
  pub action : Action

pub record Tables : Type 0 where
  pub devices : List Device
  pub credentials : List MqttCredential
  pub groups : List DeviceGroup
  pub users : List User
  pub assignments : List DeviceUserAssignment
  pub logs : List ActivityLog
  pub nodes : Table
  pub next_id : ℕ

pub data DeviceError : Type 0 where
  not_authorized plan_limit_exceeded no_capacity not_found : DeviceError
  invalid_group_name invalid_sim_interval integrity_error : DeviceError

-- The caller: the tenant, and the user's id where it is one.
pub record Caller : Type 0 where
  pub scope : TenantScope
  pub user_id : Option ℕ

abbrev pub has_id : ℕ → Device → Bool
has_id k d = d.id == k

-- `TenantScope.owns` of a row of this organization.
abbrev pub owns : TenantScope → ℕ → Bool
owns scope org = scope.bypass || org == scope.org_id

-- `TenantScope.get(Device, device_id)`
unfoldable pub owned_device : TenantScope → ℕ → List Device → Option Device
owned_device scope id devices = elim (find_where (has_id id) devices) [
  | none ↦ none
  | some d ↦ if owns scope d.org_id then some d else none
]

-- Whether `TenantScope.get(DeviceGroup, group_id)` gives a group.
unfoldable pub owns_group : TenantScope → ℕ → List DeviceGroup → Bool
owns_group scope id groups = elim (find_where (λ (g : DeviceGroup). g.id == id) groups) [
  | none ↦ false
  | some g ↦ owns scope g.org_id
]

-- `_log`
unfoldable pub logged : Caller → Option ℕ → Action → Tables → Tables
logged caller device action t = record t {
  logs =
      (record {
        org_id = caller.scope.org_id;
        user_id = caller.user_id;
        device_id = device;
        action = action;
      })
      ∷ t.logs;
}

abbrev pub same_number : Option ℕ → Option ℕ → Bool
same_number none none = true
same_number (some a) (some b) = a == b
same_number none (some b) = false
same_number (some a) none = false

abbrev pub same_text : Option Text → Option Text → Bool
same_text none none = true
same_text (some a) (some b) = same_codes a b
same_text none (some b) = false
same_text (some a) none = false

-- The rows that refer to a device when its row is deleted: credentials and assignments go, log entries
-- forget it.
unfoldable pub cascade_device : ℕ → Tables → Tables
cascade_device id t = record t {
  devices = keep (λ d. not (d.id == id)) t.devices;
  credentials = keep (λ c. not (c.device_id == id)) t.credentials;
  assignments = keep (λ a. not (a.device_id == id)) t.assignments;
  logs =
      update_where (λ l. same_number l.device_id (some id)) (λ l. record l { device_id = none })
        t.logs;
}
