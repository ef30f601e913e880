-- ===== src/Devices/Limit.antt =====
-- The device limit of app/services/device_service.py over any calls, one after another. The service
-- does not lock between its count and its commit; calls that overlap are not considered.
use iotaps.Common.{
  ℕ, ◌≤◌, ◌≡◌, refl, ap, ◌∙◌, sym, subst, String, Bool, true, false, not, ◌&&◌, ◌||◌, Option, none,
  some, List, [], ◌∷◌, ◌==◌, arith, inl, inr, Bool-cases, Option-cases,
}
use iotaps.Common.Text.{Text}
use iotaps.Common.Rows.{keep, count_where, update_where, count-keep}
use native.Mathlib.Nat.{le_of_eq, le_trans}
use iotaps.Common.Exec.{Result, ok, err}
use iotaps.Nodes.Assign.{MqttNode, Table, assign_node}
use iotaps.Plans.Limits.{limits_for_plan}
use iotaps.Devices.Tables.{
  Device, Action, rename, config_change, Tables, DeviceError, Caller, has_id, owned_device, logged,
  cascade_device,
}
use iotaps.Devices.Service.{
  enforce_device_limit, NewDevice, group_allowed, device_row, uid_taken, token_taken, provision_at,
  provision_device, DevicePatch, renames, regroups, maintains, patched, update_owned, with_device,
  update_device, delete_owned, delete_device, create_group, assign_owned, assign_device_to_user,
  simulator_changed, start_simulator, stop_simulator, Call, provisions, updates, deletes, groups,
  assigns, simulates, stops, attempt, committed, calls, logged_if,
}

abbrev pub is_in : ℕ → Device → Bool
is_in org d = d.org_id == org

-- A change that leaves the organization leaves the counts.
count-update :
    (org : ℕ) (p : Device → Bool) (f : Device → Device) (l : List Device)
    → ((d : Device) → (f d).org_id ≡ d.org_id)
    → count_where (is_in org) (update_where p f l) ≡ count_where (is_in org) l
count-update org p f [] h = refl
count-update org p f (d ∷ l) h = ground (arith, h d, count-update org p f l h)

abbrev devices_of : Result DeviceError Tables → Tables → List Device
devices_of (ok t) _ = t.devices
devices_of (err e) t = t.devices

-- What a call with an owned device did, if it succeeded.
pub with_device-ok :
    (caller : Caller) (id : ℕ) (go : Device → Tables → Result DeviceError Tables) (t t' : Tables)
    → with_device caller id go t ≡ ok t'
    → (d : Device) × (owned_device caller.scope id t.devices ≡ some d) × (go d t ≡ ok t')
with_device-ok caller id go t t' h = elim (Option-cases (owned_device caller.scope id t.devices)) [
  | inl e ↦ let h' = rw (e, with_device) at h in cc
  | inr (d, e) ↦ let h' = rw (e, with_device) at h in (d, e, h')
]

-- No organization has more devices than before.
abbrev AddsNone : Tables → Tables → Type 0
AddsNone t t' = (org : ℕ) → count_where (is_in org) t'.devices ≤ count_where (is_in org) t.devices

logged_if-devices :
    (on : Bool) (caller : Caller) (id : ℕ) (action : Action) (t : Tables)
    → (logged_if on caller id action t).devices ≡ t.devices
unfolding logged
logged_if-devices true caller id action t = refl
logged_if-devices false caller id action t = refl

-- A change of one device that leaves its organization adds none.
updated-AddsNone :
    (p : Device → Bool) (f : Device → Device) (t t' : Tables)
    → ((d : Device) → (f d).org_id ≡ d.org_id)
    → t'.devices ≡ update_where p f t.devices
    → AddsNone t t'
updated-AddsNone p f t t' keeps e org = rw e (le_of_eq (count-update org p f t.devices keeps))

update_owned-AddsNone :
    (caller : Caller) (patch : DevicePatch) (d : Device) (t t' : Tables)
    → update_owned caller patch d t ≡ ok t'
    → AddsNone t t'
unfolding update_owned patched
update_owned-AddsNone caller patch d t t' h =
    elim (Bool-cases
      (regroups patch d && not (group_allowed caller.scope patch.group_id t.groups))) [
        | inl foreign ↦ let h' = rw foreign at h in cc
        | inr allowed ↦
            let h' = rw allowed at h in
            updated-AddsNone (has_id d.id) (patched patch) t t' (λ x. refl)
              (ap (λ r. devices_of r t) (sym h')
                ∙ logged_if-devices (regroups patch d || maintains patch d) caller d.id
                    config_change _
                ∙ logged_if-devices (renames patch d) caller d.id rename _)
      ]

delete_owned-AddsNone :
    (caller : Caller) (d : Device) (t t' : Tables) → delete_owned caller d t ≡ ok t' → AddsNone t t'
unfolding delete_owned cascade_device logged
delete_owned-AddsNone caller d t t' h org =
    let e : t'.devices ≡ keep (λ x. not (x.id == d.id)) t.devices = ground (arith, h) in
    rw e (count-keep (is_in org) (λ x. not (x.id == d.id)) t.devices)

assign_owned-AddsNone :
    (caller : Caller) (user : ℕ) (d : Device) (t t' : Tables)
    → assign_owned caller user d t ≡ ok t'
    → AddsNone t t'
unfolding assign_owned logged
assign_owned-AddsNone caller user d t t' h org =
    let e : t'.devices ≡ t.devices = ground (arith, h) in ground (arith, e)

create_group-AddsNone :
    (caller : Caller) (name : Text) (t t' : Tables)
    → create_group caller name t ≡ ok t'
    → AddsNone t t'
unfolding create_group
create_group-AddsNone caller name t t' h org =
    let e : t'.devices ≡ t.devices = ground (arith, h) in ground (arith, e)

simulated-AddsNone :
    (f : Device → Device) (caller : Caller) (d : Device) (t t' : Tables)
    → ((x : Device) → (f x).org_id ≡ x.org_id)
    → simulator_changed f caller d t ≡ ok t'
    → AddsNone t t'
unfolding simulator_changed logged
simulated-AddsNone f caller d t t' keeps h =
    updated-AddsNone (has_id d.id) f t t' keeps (ap (λ r. devices_of r t) (sym h))

module _ (plan_of : ℕ → Option String) where
  -- No organization has more devices than its plan allows.
  abbrev pub IsWithin : Tables → Type 0
  IsWithin t =
      (org limit : ℕ)
      → (limits_for_plan (plan_of org)).max_devices ≡ some limit
      → count_where (is_in org) t.devices ≤ limit

  provision_at-IsWithin :
      (caller : Caller) (new : NewDevice) (t t' : Tables) (claimed : Option ℕ × Table)
      → enforce_device_limit (plan_of caller.scope.org_id) caller.scope.org_id t.devices ≡ true
      → provision_at caller new t claimed ≡ ok t'
      → IsWithin t
      → IsWithin t'
  unfolding provision_at logged enforce_device_limit
  provision_at-IsWithin caller new t t' (none, nodes) room h p org limit e = cc
  provision_at-IsWithin caller new t t' (some node, nodes) room h p org limit e =
      let devices : t'.devices ≡ device_row caller new t.next_id node ∷ t.devices =
        elim (Bool-cases (token_taken new.token t.credentials)) [
          | inl taken ↦ let h' = rw taken at h in cc
          | inr free ↦ let h' = rw free at h in ground (arith, h')
        ] in
      elim (Bool-cases (caller.scope.org_id == org)) [
        | inr other ↦ rw devices (ground (arith, other, p org limit e))
        | inl own ↦
            let same : caller.scope.org_id ≡ org = ground (arith, own) in
            let room' =
              subst (λ o. enforce_device_limit (plan_of o) o t.devices ≡ true) same room in
            rw devices (ground (arith, own, e, room'))
      ]

  provision-IsWithin :
      (meanwhile : MqttNode → Table → Table) (caller : Caller) (new : NewDevice) (t t' : Tables)
      → provision_device plan_of meanwhile caller new t ≡ ok t'
      → IsWithin t
      → IsWithin t'
  unfolding provision_device
  provision-IsWithin meanwhile caller new t t' h p =
      elim (Bool-cases (group_allowed caller.scope new.group_id t.groups)) [
        | inr foreign ↦ let h' = rw foreign at h in cc
        | inl allowed ↦
            let h1 = rw allowed at h in
            elim (Bool-cases
              (enforce_device_limit (plan_of caller.scope.org_id) caller.scope.org_id t.devices)) [
                | inr full ↦ let h' = rw full at h1 in cc
                | inl room ↦
                    let h2 = rw room at h1 in
                    elim (Bool-cases (uid_taken new.device_uid t.devices)) [
                      | inl taken ↦ let h' = rw taken at h2 in cc
                      | inr free ↦
                          provision_at-IsWithin caller new t t' (assign_node meanwhile t.nodes) room
                            (rw free at h2) p
                    ]
              ]
      ]

  AddsNone-IsWithin : (t t' : Tables) → AddsNone t t' → IsWithin t → IsWithin t'
  AddsNone-IsWithin t t' none_added p org limit e = le_trans (none_added org) (p org limit e)

  attempt-IsWithin :
      (c : Call) (t t' : Tables) → attempt plan_of c t ≡ ok t' → IsWithin t → IsWithin t'
  unfolding attempt update_device delete_device assign_device_to_user start_simulator stop_simulator
  attempt-IsWithin (provisions meanwhile caller new) t t' h p =
      provision-IsWithin meanwhile caller new t t' h p
  attempt-IsWithin (updates caller id patch) t t' h p =
      let (d, owned, done) = with_device-ok caller id (update_owned caller patch) t t' h in
      AddsNone-IsWithin t t' (update_owned-AddsNone caller patch d t t' done) p
  attempt-IsWithin (deletes caller id) t t' h p =
      let (d, owned, done) = with_device-ok caller id (delete_owned caller) t t' h in
      AddsNone-IsWithin t t' (delete_owned-AddsNone caller d t t' done) p
  attempt-IsWithin (groups caller name) t t' h p =
      AddsNone-IsWithin t t' (create_group-AddsNone caller name t t' h) p
  attempt-IsWithin (assigns caller id user) t t' h p =
      let (d, owned, done) = with_device-ok caller id (assign_owned caller user) t t' h in
      AddsNone-IsWithin t t' (assign_owned-AddsNone caller user d t t' done) p
  attempt-IsWithin (simulates caller id true seconds) t t' h p = absurd (ground (arith, h))
  attempt-IsWithin (simulates caller id false seconds) t t' h p =
      let (d, owned, done) =
        with_device-ok caller id
          (simulator_changed (λ x. record x { is_simulator = true; sim_interval_sec = seconds })
            caller)
          t t' h in
      AddsNone-IsWithin t t'
        (simulated-AddsNone (λ x. record x { is_simulator = true; sim_interval_sec = seconds })
          caller d t t' (λ x. refl) done)
        p
  attempt-IsWithin (stops caller id) t t' h p =
      let (d, owned, done) =
        with_device-ok caller id (simulator_changed (λ x. record x { sim_interval_sec = 0 }) caller)
          t t' h in
      AddsNone-IsWithin t t'
        (simulated-AddsNone (λ x. record x { sim_interval_sec = 0 }) caller d t t' (λ x. refl) done)
        p

  committed-IsWithin :
      (t : Tables) (result : Result DeviceError Tables)
      → ((t' : Tables) → result ≡ ok t' → IsWithin t')
      → IsWithin t
      → IsWithin (committed t result)
  committed-IsWithin t (ok t') f p = f t' refl
  committed-IsWithin t (err e) f p = p

  -- Whatever calls of the service follow one another, with the plans as they are, no organization has
  -- more devices than its plan allows, if none had before.
  pub calls-IsWithin : (l : List Call) (t : Tables) → IsWithin t → IsWithin (calls plan_of l t)
  unfolding calls
  calls-IsWithin [] t p = p
  calls-IsWithin (c ∷ l) t p =
      calls-IsWithin l (committed t (attempt plan_of c t))
        (committed-IsWithin t (attempt plan_of c t) (λ t' h. attempt-IsWithin c t t' h p) p)
