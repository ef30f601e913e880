-- ===== src/Auth/Tests.antt =====
-- Tokens of one user, over the codec of Auth/Codec.
use iotaps.Common.{
  ℕ, ◌≡◌, refl, true, none, some, [], ◌∷◌, ◌++◌, arith, ltb, Bool-cases, inl, inr, ◌⊎◌,
}
use iotaps.Common.Exec.{ok, err}
use iotaps.Common.Text.{Text, codes, strip}
use iotaps.Common.TextStore.{put_text}
use iotaps.Auth.Jwt.{
  Payload, JwtError, expired_signature, TokenError, Settings, Principal, RefreshStore, is_live,
  has_type, typed, access_payload, refresh_payload, create_access_token, create_refresh_jwt,
  issue_refresh_token, decode_refresh_jwt, rotate_refresh_token, rotate_payload, rotate_live,
}
use iotaps.Auth.Rotation.{issue, rotate, calls, rotate_single_use}
use iotaps.Auth.Sessions.{refresh_invalid, issue_token_pair, refresh, session_ends}
use iotaps.Auth.Principal.{
  principal_from_authorization, require_role, is_super_admin, is_in, header_round_trip,
  authorization_error, invalid_token,
}
use iotaps.Auth.Codec.{encode, decode, codec_signs}

abbrev settings : Settings
settings = record { access_ttl_seconds = 900; refresh_ttl_seconds = 604800 }

abbrev ann : Principal
ann = record { user_id = codes "ann"; org_id = codes "acme"; role = codes "device_user" }

abbrev empty_store : RefreshStore
empty_store key = none

-- The refresh token that is issued at 100 with the id "one".
abbrev first_payload : Payload
first_payload = record {
  sub = codes "ann";
  org_id = some (codes "acme");
  role = some (codes "device_user");
  email = none;
  iat = 100;
  exp = 604900;
  jti = some (codes "one");
  typ = some (codes "refresh");
}

abbrev stored : RefreshStore
stored = put_text (codes "one") (record { user = codes "ann"; expires = 604900 }) empty_store

decodes_first :
    (now : ℕ)
    → (decode now (encode first_payload) ≡ ok first_payload)
      ⊎ ((e : JwtError) × (decode now (encode first_payload) ≡ err e))
unfolding encode decode
decodes_first now = elim (Bool-cases (ltb now 604900)) [
  | inl live ↦ inl (rw live refl)
  | inr late ↦ inr (expired_signature, rw late refl)
]

abbrev pair : Text × Text
pair = (
  encode (record {
    sub = codes "ann";
    org_id = some (codes "acme");
    role = some (codes "device_user");
    email = some (codes "");
    iat = 200;
    exp = 1100;
    jti = some (codes "a");
    typ = some (codes "access");
  }),
  encode (record {
    sub = codes "ann";
    org_id = some (codes "acme");
    role = some (codes "device_user");
    email = none;
    iat = 200;
    exp = 605000;
    jti = some (codes "two");
    typ = some (codes "refresh");
  }),
)

rotate_single_use_example :
    (e : TokenError) × ((rotate_refresh_token encode decode true settings 400
        (codes "b")
        (codes "three")
        (encode first_payload)
        (calls encode decode settings
          (rotate 200 (codes "a") (codes "two") (encode first_payload)
            ∷ (issue ann 300 (codes "four") ∷ []))
          stored)).0
      ≡ err e)
unfolding rotate_refresh_token decode_refresh_jwt decode encode typed has_type rotate_payload
    is_live put_text rotate_live create_access_token access_payload create_refresh_jwt
    refresh_payload issue_refresh_token
rotate_single_use_example =
    rotate_single_use encode decode settings (encode first_payload) (codes "one") first_payload 200
      (codes "a") (codes "two") pair (issue ann 300 (codes "four") ∷ []) 400 (codes "b")
      (codes "three") stored decodes_first refl (refl, (refl, tt)) refl

session_ends_example :
    let ((access, token), store') =
      issue_token_pair encode decode settings true ann
        (codes "ann@acme")
        100
        (codes "a")
        (codes "one")
        empty_store in
    let (given, store'') =
      refresh encode decode settings true 200 (codes "b") (codes "two") token store' in
    (given ≡ ok (create_access_token encode decode settings ann (codes "") 200 (codes "b")))
    × ((refresh encode decode settings true 300 (codes "c") (codes "three") token store'').0
        ≡ err refresh_invalid)
session_ends_example =
    session_ends encode decode settings ann (codes "ann@acme") 100 200 300 (codes "a") (codes "one")
      (codes "b") (codes "two") (codes "c") (codes "three") empty_store (codec_signs settings)
      (omega arith) (omega arith) (omega arith) refl

header_round_trip_example :
    principal_from_authorization encode decode 1200 (
      some (
        codes "Bearer "
        ++ create_access_token encode decode settings ann (codes "e") 100 (codes "j")))
    ≡ err invalid_token
unfolding strip create_access_token access_payload encode
header_round_trip_example =
    header_round_trip encode decode settings ann (codes "e") 100 1200 (codes "j")
      (codec_signs settings) (omega arith) refl

roles_checked :
    (require_role (codes "project_center" ∷ []) ann ≡ err authorization_error)
    × (require_role [] ann ≡ ok ann)
unfolding require_role is_super_admin is_in
roles_checked = (refl, refl)
