-- ===== src/Auth/Jwt.antt =====
-- app/core/security/jwt.py. The library PyJWT is a pair of parameters: `encode` signs a payload with
-- the secret of the settings, `decode` verifies a token at a time with the claims `exp`, `iat` and
-- `sub` required. Redis holds a record for each refresh token, keyed by its `jti`. The random `jti`
-- of a call is given to it. Absent claims are `none`.
use iotaps.Common.{ℕ, ◌+◌, Bool, true, false, not, Option, none, some, ltb, if◌then◌else◌}
use iotaps.Common.Exec.{Result, ok, err}
use iotaps.Common.Text.{Text, codes, same_codes}
use iotaps.Common.TextStore.{TextStore, put_text, remove_text}

pub record Payload : Type 0 where
  pub sub : Text
  pub org_id : Option Text
  pub role : Option Text
  pub email : Option Text
  pub iat : ℕ
  pub exp : ℕ
  pub jti : Option Text
  pub typ : Option Text

-- `ExpiredSignatureError` and every other `InvalidTokenError`.
pub data JwtError : Type 0 where
  expired_signature invalid_token : JwtError

-- The messages of `TokenError`, and the `KeyError` of a refresh token without `jti`.
pub data TokenError : Type 0 where
  token_expired invalid_token wrong_type missing_claims store_unavailable token_revoked : TokenError
  key_error : TokenError

pub record AccessClaims : Type 0 where
  pub sub : Text
  pub org_id : Text
  pub role : Text
  pub iat : ℕ
  pub exp : ℕ
  pub jti : Text

pub record Settings : Type 0 where
  pub access_ttl_seconds : ℕ
  pub refresh_ttl_seconds : ℕ

abbrev pub access_token_type : Text
access_token_type = codes "access"

abbrev pub refresh_token_type : Text
refresh_token_type = codes "refresh"

-- `payload.get("typ") == type`
unfoldable pub has_type : Text → Payload → Bool
has_type type payload = elim payload.typ [ none ↦ false | some typ ↦ same_codes typ type ]

-- Whom a token is for.
pub record Principal : Type 0 where
  pub user_id : Text
  pub org_id : Text
  pub role : Text

-- The record `refresh:{jti}`: the user, and the time at which Redis drops it.
pub record RefreshRecord : Type 0 where
  pub user : Text
  pub expires : ℕ

abbrev pub RefreshStore : Type 0
RefreshStore = TextStore RefreshRecord

abbrev pub get_or_empty : Option Text → Text
get_or_empty none = codes ""
get_or_empty (some t) = t

-- The payload of an access token.
unfoldable pub access_payload : Settings → Principal → Text → ℕ → Text → Payload
access_payload settings who email issued jti = record {
  sub = who.user_id;
  org_id = some who.org_id;
  role = some who.role;
  email = some email;
  iat = issued;
  exp = issued + settings.access_ttl_seconds;
  jti = some jti;
  typ = some access_token_type;
}

unfoldable pub refresh_payload : Settings → Principal → ℕ → Text → Payload
refresh_payload settings who issued jti = record {
  sub = who.user_id;
  org_id = some who.org_id;
  role = some who.role;
  email = none;
  iat = issued;
  exp = issued + settings.refresh_ttl_seconds;
  jti = some jti;
  typ = some refresh_token_type;
}

-- `AccessClaims(...)`, with the `KeyError` of a claim that is not there.
unfoldable pub access_claims : Payload → Result TokenError AccessClaims
access_claims payload = elim payload.org_id [
  | none ↦ err missing_claims
  | some org ↦ elim payload.role [
    | none ↦ err missing_claims
    | some role ↦ elim payload.jti [
      | none ↦ err missing_claims
      | some jti ↦ ok (record {
        sub = payload.sub;
        org_id = org;
        role = role;
        iat = payload.iat;
        exp = payload.exp;
        jti = jti;
      })
    ]
  ]
]

-- The `except` clauses, and the test of the type, that both decoders share.
unfoldable pub typed : Text → Result JwtError Payload → Result TokenError Payload
typed type (err expired_signature) = err token_expired
typed type (err JwtError.invalid_token) = err TokenError.invalid_token
typed type (ok payload) = if has_type type payload then ok payload else err wrong_type

unfoldable pub claims_of : Result TokenError Payload → Result TokenError AccessClaims
claims_of (err e) = err e
claims_of (ok payload) = access_claims payload

-- Whether Redis has the record of a token.
unfoldable pub is_live : ℕ → Option RefreshRecord → Bool
is_live clock none = false
is_live clock (some r) = ltb clock r.expires

module _ (encode : Payload → Text) (decode : ℕ → Text → Result JwtError Payload) where
  unfoldable pub create_access_token : Settings → Principal → Text → ℕ → Text → Text
  create_access_token settings who email issued jti =
      encode (access_payload settings who email issued jti)

  unfoldable pub decode_access_token : ℕ → Text → Result TokenError AccessClaims
  decode_access_token now token = claims_of (typed access_token_type (decode now token))

  unfoldable pub create_refresh_jwt : Settings → Principal → ℕ → Text → Text
  create_refresh_jwt settings who issued jti = encode (refresh_payload settings who issued jti)

  -- `redis` says whether there is a client.
  unfoldable pub issue_refresh_token :
      (redis : Bool) → Settings → Principal → ℕ → Text → RefreshStore → Text × RefreshStore
  issue_refresh_token redis settings who issued jti store = (
    create_refresh_jwt settings who issued jti,
    if redis
        then put_text jti
            (record { user = who.user_id; expires = issued + settings.refresh_ttl_seconds }) store
        else store,
  )

  unfoldable pub decode_refresh_jwt : ℕ → Text → Result TokenError Payload
  decode_refresh_jwt now token = typed refresh_token_type (decode now token)

  -- What `revoke_refresh_token` deletes; the `KeyError` of a token without `jti` is not caught.
  unfoldable pub revoke_payload :
      (redis : Bool)
      → ℕ
      → Result TokenError Payload
      → RefreshStore
      → Result TokenError Bool × RefreshStore
  revoke_payload redis clock (err e) store = (ok false, store)
  revoke_payload false clock (ok payload) store = (ok false, store)
  revoke_payload true clock (ok payload) store = elim payload.jti [
    | none ↦ (err key_error, store)
    | some jti ↦ (ok (is_live clock (store jti)), remove_text jti store)
  ]

  unfoldable pub revoke_refresh_token :
      (redis : Bool) → ℕ → Text → RefreshStore → Result TokenError Bool × RefreshStore
  revoke_refresh_token redis now token store =
      revoke_payload redis now (decode_refresh_jwt now token) store

  -- The fresh `jti` of an access token and that of a refresh token.
  unfoldable pub rotate_live :
      Settings
      → ℕ
      → Text
      → Text
      → Payload
      → RefreshStore
      → Result TokenError (Text × Text) × RefreshStore
  rotate_live settings now access_jti refresh_jti payload store =
      let who : Principal = record {
        user_id = payload.sub;
        org_id = get_or_empty payload.org_id;
        role = get_or_empty payload.role;
      } in
      let access = create_access_token settings who (get_or_empty payload.email) now access_jti in
      let (new_refresh, store') = issue_refresh_token true settings who now refresh_jti store in
      (ok (access, new_refresh), store')

  unfoldable pub rotate_payload :
      (redis : Bool)
      → Settings
      → ℕ
      → Text
      → Text
      → Result TokenError Payload
      → RefreshStore
      → Result TokenError (Text × Text) × RefreshStore
  rotate_payload redis settings now access_jti refresh_jti (err e) store = (err e, store)
  rotate_payload redis settings now access_jti refresh_jti (ok payload) store = elim payload.jti [
    | none ↦ (err key_error, store)
    | some jti ↦
        if not redis
        then (err store_unavailable, store)
        else if is_live now (store jti)
        then rotate_live settings now access_jti refresh_jti payload (remove_text jti store)
        else (err token_revoked, remove_text jti store)
  ]

  unfoldable pub rotate_refresh_token :
      (redis : Bool)
      → Settings
      → ℕ
      → Text
      → Text
      → Text
      → RefreshStore
      → Result TokenError (Text × Text) × RefreshStore
  rotate_refresh_token redis settings now access_jti refresh_jti token store =
      rotate_payload redis settings now access_jti refresh_jti (decode_refresh_jwt now token) store
