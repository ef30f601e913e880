-- ===== src/Devices/Service.antt =====
-- `DeviceService` of app/services/device_service.py. A call gives the tables that it commits, or an
-- error, with which nothing is committed. Emails and the identity vault, which cannot fail a call, are
-- left out. What the other sessions do while a node is claimed is given.
use iotaps.Common.{
  ℕ, suc, String, Bool, true, false, not, ◌&&◌, ◌||◌, Option, none, some, List, [], ◌∷◌, ◌++◌, ◌==◌,
  ltb, if◌then◌else◌,
}
use iotaps.Common.Text.{Text, codes, same_codes, strip}
use iotaps.Common.Rows.{count_where, find_where, update_where}
use iotaps.Common.Exec.{Result, ok, err}
use iotaps.Command.Service.{TenantScope}
use iotaps.Nodes.Assign.{MqttNode, Table, assign_node}
use iotaps.Plans.Limits.{limits_for_plan}
use iotaps.Devices.Tables.{
  Device, MqttCredential, DeviceGroup, User, DeviceUserAssignment, Action, provision, assign,
  rename, config_change, delete, Tables, DeviceError, not_authorized, plan_limit_exceeded,
  no_capacity, not_found, invalid_group_name, invalid_sim_interval, integrity_error, Caller, has_id,
  owns, owned_device, owns_group, logged, same_number, same_text, cascade_device,
}

-- `_enforce_device_limit`: whether one more device may be created.
unfoldable pub enforce_device_limit : Option String → ℕ → List Device → Bool
enforce_device_limit plan org devices = elim (limits_for_plan plan).max_devices [
  | none ↦ true
  | some limit ↦ ltb (count_where (λ d. d.org_id == org) devices) limit
]

pub record NewDevice : Type 0 where
  pub label : Option Text
  pub group_id : Option ℕ
  pub template_id : Option ℕ
  -- The given uid, or the random one in its place.
  pub device_uid : Text
  -- The random token.
  pub token : Text

abbrev pub group_allowed : TenantScope → Option ℕ → List DeviceGroup → Bool
group_allowed scope none groups = true
group_allowed scope (some id) groups = owns_group scope id groups

-- The row of a new device, once its node is known.
abbrev pub device_row : Caller → NewDevice → ℕ → ℕ → Device
device_row caller new id node = record {
  id = id;
  org_id = caller.scope.org_id;
  device_uid = new.device_uid;
  label = new.label;
  group_id = new.group_id;
  template_id = new.template_id;
  node_id = some node;
  maintenance_mode = false;
  is_simulator = false;
  sim_interval_sec = 0;
}

abbrev pub credential_row : Caller → NewDevice → ℕ → MqttCredential
credential_row caller new id = record {
  org_id = caller.scope.org_id;
  device_id = id;
  token = new.token;
  password_plain = new.token;
  revoked = false;
}

-- `device_uid` and `token` are unique columns; `username` is the token.
unfoldable pub uid_taken : Text → List Device → Bool
uid_taken uid devices = ltb 0 (count_where (λ (d : Device). same_codes d.device_uid uid) devices)

unfoldable pub token_taken : Text → List MqttCredential → Bool
token_taken token credentials =
    ltb 0 (count_where (λ (c : MqttCredential). same_codes c.token token) credentials)

-- What is written once a node is claimed, or not.
unfoldable pub provision_at :
    Caller → NewDevice → Tables → Option ℕ × Table → Result DeviceError Tables
provision_at caller new t (none, nodes) = err no_capacity
provision_at caller new t (some node, nodes) =
    if token_taken new.token t.credentials
    then err integrity_error
    else ok (
        logged caller (some t.next_id) provision (record t {
          devices = device_row caller new t.next_id node ∷ t.devices;
          credentials = credential_row caller new t.next_id ∷ t.credentials;
          nodes = nodes;
          next_id = suc t.next_id;
        }))

unfoldable pub provision_device :
    (plan_of : ℕ → Option String) (meanwhile : MqttNode → Table → Table)
    → Caller
    → NewDevice
    → Tables
    → Result DeviceError Tables
provision_device plan_of meanwhile caller new t =
    if not (group_allowed caller.scope new.group_id t.groups)
    then err not_authorized
    else if not (enforce_device_limit (plan_of caller.scope.org_id) caller.scope.org_id t.devices)
    then err plan_limit_exceeded
    else if uid_taken new.device_uid t.devices
    then err integrity_error
    else provision_at caller new t (assign_node meanwhile t.nodes)

pub record DevicePatch : Type 0 where
  pub label : Option Text
  pub group_id : Option ℕ
  pub maintenance_mode : Option Bool
  pub label_set : Bool
  pub group_set : Bool

abbrev pub same_flag : Bool → Bool → Bool
same_flag true b = b
same_flag false b = not b

unfoldable pub renames : DevicePatch → Device → Bool
renames patch d = patch.label_set && not (same_text patch.label d.label)

unfoldable pub regroups : DevicePatch → Device → Bool
regroups patch d = patch.group_set && not (same_number patch.group_id d.group_id)

unfoldable pub maintains : DevicePatch → Device → Bool
maintains patch d = elim patch.maintenance_mode [
  | none ↦ false
  | some m ↦ not (same_flag m d.maintenance_mode)
]

unfoldable pub patched : DevicePatch → Device → Device
unfolding renames regroups
patched patch d = record d {
  label = if renames patch d then patch.label else d.label;
  group_id = if regroups patch d then patch.group_id else d.group_id;
  maintenance_mode = elim patch.maintenance_mode [ none ↦ d.maintenance_mode | some m ↦ m ];
}

abbrev pub logged_if : Bool → Caller → ℕ → Action → Tables → Tables
logged_if yes_log caller id action t = if yes_log then logged caller (some id) action t else t

unfoldable pub update_owned : Caller → DevicePatch → Device → Tables → Result DeviceError Tables
update_owned caller patch d t =
    if regroups patch d && not (group_allowed caller.scope patch.group_id t.groups)
    then err not_authorized
    else ok (
        logged_if (regroups patch d || maintains patch d) caller d.id config_change (
          logged_if (renames patch d) caller d.id rename
            (record t { devices = update_where (has_id d.id) (patched patch) t.devices })))

-- What a call does with the device of this id, if the caller's tenant owns it.
abbrev pub with_device :
    Caller → ℕ → (Device → Tables → Result DeviceError Tables) → Tables → Result DeviceError Tables
with_device caller id go t = elim (owned_device caller.scope id t.devices) [
  | none ↦ err not_authorized
  | some d ↦ go d t
]

unfoldable pub update_device : Caller → ℕ → DevicePatch → Tables → Result DeviceError Tables
update_device caller id patch t = with_device caller id (update_owned caller patch) t

-- The credentials are revoked and the deletion logged; then the row goes.
unfoldable pub delete_owned : Caller → Device → Tables → Result DeviceError Tables
delete_owned caller d t = ok (
    cascade_device d.id (
      logged caller (some d.id) delete (record t {
        credentials =
            update_where (λ c. c.device_id == d.id) (λ c. record c { revoked = true })
              t.credentials;
      })))

unfoldable pub delete_device : Caller → ℕ → Tables → Result DeviceError Tables
delete_device caller id t = with_device caller id (delete_owned caller) t

abbrev pub is_nil : Text → Bool
is_nil [] = true
is_nil (c ∷ text) = false

unfoldable pub create_group : Caller → Text → Tables → Result DeviceError Tables
create_group caller name t =
    if is_nil (strip name)
    then err invalid_group_name
    else ok (record t {
      groups =
          (record { id = t.next_id; org_id = caller.scope.org_id; name = strip name }) ∷ t.groups;
      next_id = suc t.next_id;
    })

-- The user of this id, if the caller may give devices to the user.
unfoldable pub assignable_user : TenantScope → ℕ → List User → Bool
assignable_user scope id users = elim (find_where (λ (u : User). u.id == id) users) [
  | none ↦ false
  | some u ↦ owns scope u.org_id
]

unfoldable pub is_assigned : ℕ → ℕ → List DeviceUserAssignment → Bool
is_assigned device user rows =
    elim (find_where (λ (a : DeviceUserAssignment). a.device_id == device && a.user_id == user)
      rows) [ none ↦ false | some a ↦ true ]

unfoldable pub assign_owned : Caller → ℕ → Device → Tables → Result DeviceError Tables
assign_owned caller user d t =
    if not (assignable_user caller.scope user t.users)
    then err not_found
    else if is_assigned d.id user t.assignments
    then ok t
    else ok (
        logged caller (some d.id) assign (record t {
          assignments =
              (record { org_id = d.org_id; device_id = d.id; user_id = user }) ∷ t.assignments;
        }))

unfoldable pub assign_device_to_user : Caller → ℕ → ℕ → Tables → Result DeviceError Tables
assign_device_to_user caller id user t = with_device caller id (assign_owned caller user) t

-- The row is changed and a configuration change is logged.
unfoldable pub simulator_changed :
    (Device → Device) → Caller → Device → Tables → Result DeviceError Tables
simulator_changed f caller d t = ok (
    logged caller (some d.id) config_change
      (record t { devices = update_where (has_id d.id) f t.devices }))

-- The interval is checked before the device is looked for; `negative` says that it is below 0.
unfoldable pub start_simulator :
    Caller → ℕ → (negative : Bool) → ℕ → Tables → Result DeviceError Tables
start_simulator caller id negative seconds t =
    if negative
    then err invalid_sim_interval
    else with_device caller id
        (simulator_changed (λ x. record x { is_simulator = true; sim_interval_sec = seconds })
          caller)
        t

unfoldable pub stop_simulator : Caller → ℕ → Tables → Result DeviceError Tables
stop_simulator caller id t =
    with_device caller id (simulator_changed (λ x. record x { sim_interval_sec = 0 }) caller) t

-- `str(id)`, which shows where a device has no name.
unfoldable pub device_display_name : (show_id : ℕ → Text) → Device → Text
device_display_name show_id d = elim d.label [
  | none ↦ if is_nil d.device_uid then show_id d.id else d.device_uid
  | some label ↦
      if is_nil (strip label)
      then (if is_nil d.device_uid then show_id d.id else d.device_uid)
      else label
]

unfoldable pub build_qr_payload : (show_id : ℕ → Text) → Device → Text
build_qr_payload show_id d =
    codes "iotaps:device?org="
    ++ (show_id d.org_id ++ (codes "&id=" ++ (show_id d.id ++ (codes "&uid=" ++ d.device_uid))))

-- A call of the service that writes.
pub data Call : Type 0 where
  provisions : (meanwhile : MqttNode → Table → Table) → Caller → NewDevice → Call
  updates : Caller → ℕ → DevicePatch → Call
  deletes : Caller → ℕ → Call
  groups : Caller → Text → Call
  assigns : Caller → ℕ → ℕ → Call
  simulates : Caller → ℕ → (negative : Bool) → ℕ → Call
  stops : Caller → ℕ → Call

unfoldable pub attempt : (ℕ → Option String) → Call → Tables → Result DeviceError Tables
attempt plan_of (provisions meanwhile caller new) t =
    provision_device plan_of meanwhile caller new t
attempt plan_of (updates caller id patch) t = update_device caller id patch t
attempt plan_of (deletes caller id) t = delete_device caller id t
attempt plan_of (groups caller name) t = create_group caller name t
attempt plan_of (assigns caller id user) t = assign_device_to_user caller id user t
attempt plan_of (simulates caller id negative seconds) t =
    start_simulator caller id negative seconds t
attempt plan_of (stops caller id) t = stop_simulator caller id t

-- A call that fails commits nothing.
abbrev pub committed : Tables → Result DeviceError Tables → Tables
committed t (ok t') = t'
committed t (err e) = t

unfoldable pub calls : (ℕ → Option String) → List Call → Tables → Tables
calls plan_of [] t = t
calls plan_of (c ∷ rest) t = calls plan_of rest (committed t (attempt plan_of c t))
