-- ===== src/Auth/Principal.antt =====
-- app/core/security/principal.py and deps.py: who makes a request, and which roles may.
-- `uuid.UUID` is a parameter that gives nothing where it raises.
use iotaps.Common.{
  ℕ, ◌+◌, ◌≤◌, ◌≡◌, refl, ap, ◌∙◌, ◌↔◌, Bool, true, false, not, ◌&&◌, ◌||◌, Option, none, some,
  List, [], ◌∷◌, ◌++◌, map, arith, ltb, if◌then◌else◌, ◌==◌, inl, inr, Bool-cases,
}
use iotaps.Common.Exec.{Result, ok, err}
use iotaps.Common.Text.{Text, codes, same_codes, same_codes-eq, to_lower, strip}
use iotaps.Auth.Jwt.{
  Payload, JwtError, TokenError, Settings, AccessClaims, token_expired, Principal,
  create_access_token, decode_access_token,
}
use iotaps.Auth.Sessions.{Signs, claims_for, access_round_trip}

abbrev pub space : ℕ
space = 32

-- `text.startswith(prefix)`
unfoldable pub starts_with : Text → Text → Bool
starts_with text [] = true
starts_with [] (p ∷ ps) = false
starts_with (c ∷ text) (p ∷ ps) = c == p && starts_with text ps

-- `text.split(" ", 1)[1]` of a text with a space.
unfoldable pub after_space : Text → Text
after_space [] = []
after_space (c ∷ text) = let rest = after_space text in if c == space then text else rest

-- The token of an `Authorization` header, if it has one.
unfoldable pub bearer_token : Option Text → Option Text
bearer_token none = none
bearer_token (some header) =
    if starts_with (map to_lower header) (codes "bearer ")
    then some (strip (after_space header))
    else none

pub data AuthError : Type 0 where
  missing_token invalid_token authorization_error : AuthError

-- `Principal.from_claims`
unfoldable pub from_claims : AccessClaims → Principal
from_claims c = record { user_id = c.sub; org_id = c.org_id; role = c.role }

abbrev pub super_admin : Text
super_admin = codes "super_admin"

abbrev pub device_user : Text
device_user = codes "device_user"

unfoldable pub is_super_admin : Principal → Bool
is_super_admin p = same_codes p.role super_admin

unfoldable pub is_device_user : Principal → Bool
is_device_user p = same_codes p.role device_user

unfoldable pub verified : Result TokenError AccessClaims → Result AuthError Principal
verified (ok claims) = ok (from_claims claims)
verified (err e) = err invalid_token

module _ (encode : Payload → Text) (decode : ℕ → Text → Result JwtError Payload) where
  unfoldable pub principal_from_authorization : ℕ → Option Text → Result AuthError Principal
  principal_from_authorization now header = elim (bearer_token header) [
    | none ↦ err missing_token
    | some token ↦ verified (decode_access_token encode decode now token)
  ]

-- `role in permitted`
unfoldable pub is_in : Text → List Text → Bool
is_in role [] = false
is_in role (r ∷ roles) = same_codes role r || is_in role roles

abbrev pub is_nil : List Text → Bool
is_nil [] = true
is_nil (r ∷ roles) = false

-- The check that `require_role` makes of the principal.
unfoldable pub require_role : List Text → Principal → Result AuthError Principal
require_role permitted p =
    if is_super_admin p
    then ok p
    else if not (is_nil permitted) && not (is_in p.role permitted)
    then err authorization_error
    else ok p

-- A row of `device_user_assignments`.
pub record Assignment : Type 0 where
  pub device_id : ℕ
  pub user_id : ℕ

unfoldable pub is_assigned : ℕ → ℕ → List Assignment → Bool
is_assigned device user [] = false
is_assigned device user (a ∷ rows) =
    (a.device_id == device && a.user_id == user) || is_assigned device user rows

unfoldable pub parsed_assigned : Option ℕ → Option ℕ → List Assignment → Bool
parsed_assigned (some device) (some user) rows = is_assigned device user rows
parsed_assigned (some device) none rows = false
parsed_assigned none user rows = false

module _ (uuid : Text → Option ℕ) where
  unfoldable pub user_has_device_access : List Assignment → Principal → Text → Bool
  user_has_device_access rows p device =
      if is_super_admin p
      then true
      else if not (is_device_user p)
      then true
      else parsed_assigned (uuid device) (uuid p.user_id) rows

  -- The check that `require_device_access` makes; a route without the parameter has no device.
  unfoldable pub require_device_access :
      List Assignment → Principal → Option Text → Result AuthError Principal
  require_device_access rows p none = err authorization_error
  require_device_access rows p (some device) =
      if user_has_device_access rows p device then ok p else err authorization_error

bearer_reads : (token : Text) → bearer_token (some (codes "Bearer " ++ token)) ≡ some (strip token)
unfolding bearer_token starts_with after_space
bearer_reads token = refl

module _ (encode : Payload → Text) (decode : ℕ → Text → Result JwtError Payload)
    (settings : Settings) where
  verified_if :
      (live : Bool) (who : Principal) (issued : ℕ) (jti : Text)
      → verified (if live then ok (claims_for settings who issued jti) else err token_expired)
        ≡ (if live then ok who else err invalid_token)
  unfolding verified from_claims
  verified_if true who issued jti = refl
  verified_if false who issued jti = refl

  authenticates :
      (now : ℕ) (token : Text)
      → strip token ≡ token
      → principal_from_authorization encode decode now (some (codes "Bearer " ++ token))
        ≡ verified (decode_access_token encode decode now token)
  unfolding principal_from_authorization bearer_token starts_with after_space
  authenticates now token clean = ap (λ t. verified (decode_access_token encode decode now t)) clean

  -- Of the library it is assumed that a token decodes to what was encoded until it expires. Then a
  -- header with the access token of a user, if the token has no blanks at its ends, authenticates that
  -- user with the organization and role that the token was made for until its time to live is over,
  -- and nobody from then on.
  pub header_round_trip :
      (who : Principal) (email : Text) (issued now : ℕ) (jti : Text)
      → Signs encode decode settings
      → issued ≤ now
      → let token = create_access_token encode decode settings who email issued jti in
        strip token ≡ token
        → principal_from_authorization encode decode now (some (codes "Bearer " ++ token))
          ≡ (if ltb now (issued + settings.access_ttl_seconds) then ok who else err invalid_token)
  header_round_trip who email issued now jti signs h clean =
      let token = create_access_token encode decode settings who email issued jti in
      authenticates now token clean
      ∙ ap (λ r. verified r)
          (access_round_trip encode decode settings who email issued now jti signs h)
      ∙ verified_if (ltb now (issued + settings.access_ttl_seconds)) who issued jti

-- There is a row that gives the device to the user.
pub data HasRow (device user : ℕ) : List Assignment → Type 0 where
  here :
      (a : Assignment) (rows : List Assignment)
      → a.device_id ≡ device
      → a.user_id ≡ user
      → HasRow device user (a ∷ rows)
  further :
      (a : Assignment) (rows : List Assignment)
      → HasRow device user rows
      → HasRow device user (a ∷ rows)

pub is_assigned_found :
    (device user : ℕ) (rows : List Assignment)
    → is_assigned device user rows ≡ true
    → HasRow device user rows
unfolding is_assigned
is_assigned_found device user [] h = cc
is_assigned_found device user (a ∷ rows) h =
    elim (Bool-cases (a.device_id == device && a.user_id == user)) [
      | inl e ↦ here a rows (ground arith) (ground arith)
      | inr e ↦ further a rows (is_assigned_found device user rows (ground arith))
    ]

pub HasRow-is_assigned :
    (device user : ℕ) (rows : List Assignment)
    → HasRow device user rows
    → is_assigned device user rows ≡ true
unfolding is_assigned
HasRow-is_assigned device user _ (here a rows e f) = ground arith
HasRow-is_assigned device user _ (further a rows h) =
    ground (arith, HasRow-is_assigned device user rows h)

device_user-plain :
    (p : Principal) → same_codes p.role device_user ≡ true → is_super_admin p ≡ false
unfolding is_super_admin
device_user-plain p h = ap (λ r. same_codes r super_admin) (same_codes-eq p.role device_user h)

access_decided :
    (uuid : Text → Option ℕ) (rows : List Assignment) (p : Principal) (name : Text)
    (device user : ℕ)
    → same_codes p.role device_user ≡ true
    → uuid p.user_id ≡ some user
    → uuid name ≡ some device
    → require_device_access uuid rows p (some name)
      ≡ (if is_assigned device user rows then ok p else err authorization_error)
unfolding require_device_access user_has_device_access is_device_user parsed_assigned
access_decided uuid rows p name device user role parsed named =
    rw (device_user-plain p role, role, parsed, named) refl

-- Of a request that names a device, a device user passes the check exactly when a row of the
-- assignments gives that device to that user, where the ids of both parse.
pub device_user_access :
    (uuid : Text → Option ℕ) (rows : List Assignment) (p : Principal) (name : Text)
    (device user : ℕ)
    → same_codes p.role device_user ≡ true
    → uuid p.user_id ≡ some user
    → uuid name ≡ some device
    → (require_device_access uuid rows p (some name) ≡ ok p) ↔ HasRow device user rows
device_user_access uuid rows p name device user role parsed named =
    let decided = access_decided uuid rows p name device user role parsed named in
    (
      λ passed. is_assigned_found device user rows (ground (arith, decided, passed)),
      λ row. rw (decided, HasRow-is_assigned device user rows row) refl,
    )
