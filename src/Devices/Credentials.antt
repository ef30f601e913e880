-- ===== src/Devices/Credentials.antt =====
-- What granting, provisioning and deleting of app/services/device_service.py mean for credentials and
-- for the access checks of app/core/security/deps.py, which read the same assignments.
use iotaps.Common.{
  ℕ, ◌≡◌, ◌≢◌, refl, ap, ◌∙◌, sym, subst, true, false, not, ◌&&◌, Option, some, List, [], ◌∷◌, ◌==◌,
  arith, inl, inr, Bool-cases, Option-cases,
}
use iotaps.Common.Text.{Text, same_codes}
use iotaps.Common.Rows.{keep, find_where, update_where, find_where-some}
use iotaps.Common.Exec.{ok}
use iotaps.Auth.Jwt.{Principal}
use iotaps.Auth.Principal.{
  Assignment, device_user, HasRow, here, further, HasRow-is_assigned, is_assigned as is_listed,
  require_device_access, device_user_access,
}
use iotaps.Devices.Tables.{
  Device, MqttCredential, DeviceUserAssignment, Tables, Caller, has_id, owned_device, logged,
  cascade_device,
}
use iotaps.Devices.Service.{
  delete_owned, delete_device, is_assigned, assign_owned, assign_device_to_user,
}
use iotaps.Devices.Limit.{with_device-ok}

-- The rows that the access check reads.
abbrev pub access_rows : List DeviceUserAssignment → List Assignment
access_rows [] = []
access_rows (a ∷ rows) = record { device_id = a.device_id; user_id = a.user_id } ∷ access_rows rows

found-HasRow :
    (device user : ℕ) (rows : List DeviceUserAssignment)
    → is_assigned device user rows ≡ true
    → HasRow device user (access_rows rows)
unfolding is_assigned
found-HasRow device user [] h = cc
found-HasRow device user (a ∷ rows) h =
    elim (Bool-cases (a.device_id == device && a.user_id == user)) [
      | inl e ↦ here _ (access_rows rows) (ground (arith, e)) (ground (arith, e))
      | inr e ↦ further _ (access_rows rows) (found-HasRow device user rows (ground (arith, h, e)))
    ]

not_listed :
    (device user : ℕ) (rows : List DeviceUserAssignment)
    → is_listed device user (access_rows (keep (λ a. not (a.device_id == device)) rows)) ≡ false
unfolding is_listed
not_listed device user [] = refl
not_listed device user (a ∷ rows) = ground (arith, not_listed device user rows)

no_row :
    (device user : ℕ) (rows : List DeviceUserAssignment)
    → HasRow device user (access_rows (keep (λ a. not (a.device_id == device)) rows))
    → ⊥
no_row device user rows h =
    let listed = HasRow-is_assigned device user _ h in
    let unlisted = not_listed device user rows in cc

owned_device-id :
    (caller : Caller) (id : ℕ) (devices : List Device) (d : Device)
    → owned_device caller.scope id devices ≡ some d
    → d.id ≡ id
unfolding owned_device
owned_device-id caller id devices d h = elim (Option-cases (find_where (has_id id) devices)) [
  | inl e ↦ let h' = rw (e, owned_device) at h in cc
  | inr (x, e) ↦
      let h' = rw (e, owned_device) at h in
      ground (arith, h', find_where-some (has_id id) devices x e)
]

assign_owned-listed :
    (caller : Caller) (user : ℕ) (d : Device) (t t' : Tables)
    → assign_owned caller user d t ≡ ok t'
    → is_assigned d.id user t'.assignments ≡ true
unfolding assign_owned is_assigned logged
assign_owned-listed caller user d t t' h = ground (arith, h)

assign_owned-again :
    (caller : Caller) (user : ℕ) (d : Device) (t t' : Tables)
    → is_assigned d.id user t.assignments ≡ true
    → assign_owned caller user d t ≡ ok t'
    → t' ≡ t
unfolding assign_owned
assign_owned-again caller user d t t' listed h = ground (arith, h, listed)

-- After a call that gave a device to a user, the user's requests for the device pass the access check,
-- where the ids parse; a call that repeats it changes nothing.
pub assigned_access :
    (caller again : Caller) (id user : ℕ) (t t' t'' : Tables) (uuid : Text → Option ℕ)
    (p : Principal) (name : Text)
    → same_codes p.role device_user ≡ true
    → uuid p.user_id ≡ some user
    → uuid name ≡ some id
    → assign_device_to_user caller id user t ≡ ok t'
    → assign_device_to_user again id user t' ≡ ok t''
    → (require_device_access uuid (access_rows t'.assignments) p (some name) ≡ ok p) × (t'' ≡ t')
unfolding assign_device_to_user
assigned_access caller again id user t t' t'' uuid p name role parsed named given repeated =
    let (d, owned, done) = with_device-ok caller id (assign_owned caller user) t t' given in
    let (d', owned', done') = with_device-ok again id (assign_owned again user) t' t'' repeated in
    let same = owned_device-id caller id t.devices d owned in
    let same' = owned_device-id again id t'.devices d' owned' in
    let listed : is_assigned id user t'.assignments ≡ true =
      subst (λ i. is_assigned i user t'.assignments ≡ true) same
        (assign_owned-listed caller user d t t' done) in
    let access =
      device_user_access uuid (access_rows t'.assignments) p name id user role parsed named in
    (
      access.1 (found-HasRow id user t'.assignments listed),
      assign_owned-again again user d' t' t''
          (subst (λ i. is_assigned i user t'.assignments ≡ true) (sym same') listed) done',
    )

abbrev without : ℕ → List MqttCredential → List MqttCredential
without id l =
    keep (λ c. not (c.device_id == id))
      (update_where (λ c. c.device_id == id) (λ c. record c { revoked = true }) l)

without_own : (id : ℕ) (l : List MqttCredential) → keep (λ c. c.device_id == id) (without id l) ≡ []
without_own id [] = refl
without_own id (c ∷ l) = ground (arith, without_own id l)

without_other :
    (id other : ℕ) (l : List MqttCredential)
    → other ≢ id
    → keep (λ c. c.device_id == other) (without id l) ≡ keep (λ c. c.device_id == other) l
without_other id other [] h = refl
without_other id other (c ∷ l) h = ground (arith, h, without_other id other l h)

delete_owned-rows :
    (caller : Caller) (d : Device) (t t' : Tables)
    → delete_owned caller d t ≡ ok t'
    → (t'.credentials ≡ without d.id t.credentials)
      × (t'.assignments ≡ keep (λ a. not (a.device_id == d.id)) t.assignments)
unfolding delete_owned cascade_device logged
delete_owned-rows caller d t t' h = (ground (arith, h), ground (arith, h))

-- After a call that deleted a device, no credential of it is left, no device user passes the access
-- check for it, where the ids parse, and the credentials of any other device are as they were.
pub deleted_access :
    (caller : Caller) (id user other : ℕ) (t t' : Tables) (uuid : Text → Option ℕ) (p : Principal)
    (name : Text)
    → same_codes p.role device_user ≡ true
    → uuid p.user_id ≡ some user
    → uuid name ≡ some id
    → other ≢ id
    → delete_device caller id t ≡ ok t'
    → (keep (λ c. c.device_id == id) t'.credentials ≡ [])
      × (require_device_access uuid (access_rows t'.assignments) p (some name) ≢ ok p)
      × (keep (λ c. c.device_id == other) t'.credentials
          ≡ keep (λ c. c.device_id == other) t.credentials)
unfolding delete_device
deleted_access caller id user other t t' uuid p name role parsed named different deleted =
    let (d, owned, done) = with_device-ok caller id (delete_owned caller) t t' deleted in
    let same = owned_device-id caller id t.devices d owned in
    let (credentials, assignments) = delete_owned-rows caller d t t' done in
    let credentials' : t'.credentials ≡ without id t.credentials =
      credentials ∙ ap (λ i. without i t.credentials) same in
    let assignments' : t'.assignments ≡ keep (λ a. not (a.device_id == id)) t.assignments =
      assignments ∙ ap (λ i. keep (λ a. not (a.device_id == i)) t.assignments) same in
    let access =
      device_user_access uuid (access_rows t'.assignments) p name id user role parsed named in
    (
      rw credentials' (without_own id t.credentials),
      λ passed.
          no_row id user t.assignments
            (subst (λ rows. HasRow id user (access_rows rows)) assignments' (access.0 passed)),
      rw credentials' (without_other id other t.credentials different),
    )
