-- ===== src/Auth/Sessions.antt =====
-- The routes of app/api/v1/auth.py that give tokens to a client: `_issue_token_pair`, `refresh` and
-- `logout`. Of PyJWT it is assumed that a token that was encoded decodes to its payload until it
-- expires.
use iotaps.Common.{
  ℕ, ◌+◌, ◌≤◌, ◌<◌, ◌≡◌, refl, ap, ◌∙◌, Bool, true, false, none, some, ltb, lt→ltb, inl, inr,
  Bool-cases, if◌then◌else◌,
}
use iotaps.Common.Exec.{Result, ok, err}
use iotaps.Common.Text.{Text, codes, same_codes}
use iotaps.Common.TextStore.{remove_text, put_text_self, put_text_other, remove_text_self}
use iotaps.Auth.Jwt.{
  Payload, JwtError, expired_signature, TokenError, token_expired, key_error, Settings, Principal,
  RefreshStore, has_type, is_live, typed, access_payload, refresh_payload, create_access_token,
  create_refresh_jwt, decode_access_token, issue_refresh_token, decode_refresh_jwt, rotate_live,
  rotate_payload, rotate_refresh_token, claims_of, access_claims, AccessClaims, wrong_type,
}

-- How a route fails: the `AuthenticationError` that it raises, or an exception that it does not catch.
pub data RouteError : Type 0 where
  refresh_invalid server_error : RouteError

unfoldable pub answered : Result TokenError (Text × Text) → Result RouteError Text
answered (ok (access, new_refresh)) = ok access
answered (err key_error) = err server_error
answered (err other) = err refresh_invalid

-- What the access token of a user reads as.
abbrev pub claims_for : Settings → Principal → ℕ → Text → AccessClaims
claims_for s who issued jti = record {
  sub = who.user_id;
  org_id = who.org_id;
  role = who.role;
  iat = issued;
  exp = issued + s.access_ttl_seconds;
  jti = jti;
}

module _ (encode : Payload → Text) (decode : ℕ → Text → Result JwtError Payload)
    (settings : Settings) where
  -- The access token and the refresh token of a user, whose email the first carries.
  unfoldable pub issue_token_pair :
      (redis : Bool)
      → Principal
      → Text
      → ℕ
      → Text
      → Text
      → RefreshStore
      → (Text × Text) × RefreshStore
  issue_token_pair redis who email now access_jti refresh_jti store =
      let access = create_access_token encode decode settings who email now access_jti in
      let (token, store') =
        issue_refresh_token encode decode redis settings who now refresh_jti store in
      ((access, token), store')

  -- The route gives the access token only.
  unfoldable pub refresh :
      (redis : Bool) → ℕ → Text → Text → Text → RefreshStore → Result RouteError Text × RefreshStore
  refresh redis now access_jti refresh_jti token store =
      let (result, store') =
        rotate_refresh_token encode decode redis settings now access_jti refresh_jti token store in
      (answered result, store')

  -- Encoded tokens decode to their payload until they expire.
  abbrev pub Signs : Type 0
  Signs =
      (now : ℕ) (payload : Payload)
      → payload.iat ≤ now
      → decode now (encode payload)
        ≡ (if ltb now payload.exp then ok payload else err expired_signature)

  -- Of the library it is assumed that a token decodes to what was encoded until it expires. Then an
  -- access token reads as the user, organization and role that it was made for until its time to live
  -- is over, and as expired from then on.
  pub access_round_trip :
      (who : Principal) (email : Text) (issued now : ℕ) (jti : Text)
      → Signs
      → issued ≤ now
      → decode_access_token encode decode now
          (create_access_token encode decode settings who email issued jti)
        ≡ (if ltb now (issued + settings.access_ttl_seconds)
            then ok (claims_for settings who issued jti)
            else err token_expired)
  unfolding decode_access_token create_access_token access_payload typed claims_of has_type
      access_claims
  access_round_trip who email issued now jti signs h =
      elim (Bool-cases (ltb now (issued + settings.access_ttl_seconds))) [
        | inl live ↦ rw (signs now (access_payload settings who email issued jti) h, live) refl
        | inr late ↦ rw (signs now (access_payload settings who email issued jti) h, late) refl
      ]

  refresh_decodes :
      (who : Principal) (issued now : ℕ) (jti : Text)
      → Signs
      → issued ≤ now
      → decode_refresh_jwt encode decode now
          (create_refresh_jwt encode decode settings who issued jti)
        ≡ (if ltb now (issued + settings.refresh_ttl_seconds)
            then ok (refresh_payload settings who issued jti)
            else err token_expired)
  unfolding decode_refresh_jwt create_refresh_jwt refresh_payload typed has_type
  refresh_decodes who issued now jti signs h =
      elim (Bool-cases (ltb now (issued + settings.refresh_ttl_seconds))) [
        | inl live ↦ rw (signs now (refresh_payload settings who issued jti) h, live) refl
        | inr late ↦ rw (signs now (refresh_payload settings who issued jti) h, late) refl
      ]

  -- Of the library it is assumed that a token decodes to what was encoded until it expires. Then a
  -- refresh token that is not expired is refused as an access token, and an access token that is not
  -- expired is refused by a rotation, for its type, and the store is left as it was.
  pub token_types :
      (redis : Bool) (who : Principal) (email : Text) (issued now : ℕ) (jti access_jti new : Text)
      (store : RefreshStore)
      → Signs
      → issued ≤ now
      → now < issued + settings.refresh_ttl_seconds
      → now < issued + settings.access_ttl_seconds
      → (decode_access_token encode decode now
            (create_refresh_jwt encode decode settings who issued jti)
          ≡ err wrong_type)
        × (rotate_refresh_token encode decode redis settings now access_jti new
              (create_access_token encode decode settings who email issued jti)
              store
            ≡ (err wrong_type, store))
  unfolding decode_access_token create_access_token access_payload typed claims_of has_type
      create_refresh_jwt refresh_payload rotate_refresh_token decode_refresh_jwt rotate_payload
  token_types redis who email issued now jti access_jti new store signs h live live' = (
    rw (signs now (refresh_payload settings who issued jti) h, lt→ltb _ _ live) refl,
    rw (signs now (access_payload settings who email issued jti) h, lt→ltb _ _ live') refl,
  )

  stored_record :
      (who : Principal) (issued : ℕ) (jti : Text) (store : RefreshStore)
      → (issue_refresh_token encode decode true settings who issued jti store).1 jti
        ≡ some (record { user = who.user_id; expires = issued + settings.refresh_ttl_seconds })
  unfolding issue_refresh_token
  stored_record who issued jti store = put_text_self jti _ store

  rotate_stored :
      (who : Principal) (issued now : ℕ) (jti access_jti new : Text) (store : RefreshStore)
      → Signs
      → issued ≤ now
      → now < issued + settings.refresh_ttl_seconds
      → store jti
        ≡ some (record { user = who.user_id; expires = issued + settings.refresh_ttl_seconds })
      → rotate_refresh_token encode decode true settings now access_jti new
          (create_refresh_jwt encode decode settings who issued jti)
          store
        ≡ rotate_live encode decode settings now access_jti new
            (refresh_payload settings who issued jti)
            (remove_text jti store)
  unfolding rotate_refresh_token rotate_payload is_live refresh_payload
  rotate_stored who issued now jti access_jti new store signs h live there =
      rw (refresh_decodes who issued now jti signs h, lt→ltb _ _ live, there, lt→ltb _ _ live) refl

  -- Of the library it is assumed that a token decodes to what was encoded until it expires. Then the
  -- refresh token of a new pair gives, until it expires, an access token for the same user,
  -- organization and role, with the empty email in place of the user's.
  pub session_refreshes :
      (who : Principal) (email : Text) (issued now : ℕ) (access_jti jti access_jti' new : Text)
      (store : RefreshStore)
      → Signs
      → issued ≤ now
      → now < issued + settings.refresh_ttl_seconds
      → let ((access, token), store') =
          issue_token_pair true who email issued access_jti jti store in
        (refresh true now access_jti' new token store').0
        ≡ ok (create_access_token encode decode settings who (codes "") now access_jti')
  unfolding refresh issue_token_pair rotate_live answered refresh_payload issue_refresh_token
      create_refresh_jwt create_access_token
  session_refreshes who email issued now access_jti jti access_jti' new store signs h live =
      let store' = (issue_refresh_token encode decode true settings who issued jti store).1 in
      ap (λ r. answered r.0)
        (rotate_stored who issued now jti access_jti' new store' signs h live
          (stored_record who issued jti store))

  rotate_live-absent :
      (who : Principal) (issued now : ℕ) (jti access_jti new : Text) (store : RefreshStore)
      → same_codes jti new ≡ false
      → (rotate_live encode decode settings now access_jti new
            (refresh_payload settings who issued jti)
            (remove_text jti store)).1
          jti
        ≡ none
  unfolding rotate_live issue_refresh_token
  rotate_live-absent who issued now jti access_jti new store fresh =
      put_text_other jti new _ (remove_text jti store) fresh ∙ remove_text_self jti store

  absent_invalid :
      (who : Principal) (issued now : ℕ) (jti access_jti new : Text) (store : RefreshStore)
      → Signs
      → issued ≤ now
      → store jti ≡ none
      → answered
          (rotate_refresh_token encode decode true settings now access_jti new
            (create_refresh_jwt encode decode settings who issued jti)
            store).0
        ≡ err refresh_invalid
  unfolding rotate_refresh_token rotate_payload is_live refresh_payload answered
  absent_invalid who issued now jti access_jti new store signs h gone =
      elim (Bool-cases (ltb now (issued + settings.refresh_ttl_seconds))) [
        | inl live ↦ rw (refresh_decodes who issued now jti signs h, live, gone) refl
        | inr late ↦ rw (refresh_decodes who issued now jti signs h, late) refl
      ]

  -- Of the library it is assumed that a token decodes to what was encoded until it expires. Then the
  -- refresh token of a new pair, once `refresh` took it before it expired and drew another id, is
  -- refused by `refresh` at any later time, and `refresh` gave the client no other refresh token.
  pub session_ends :
      (who : Principal) (email : Text) (issued now later : ℕ)
      (access_jti jti access_jti' new access_jti'' new' : Text) (store : RefreshStore)
      → Signs
      → issued ≤ now
      → now < issued + settings.refresh_ttl_seconds
      → issued ≤ later
      → same_codes jti new ≡ false
      → let ((access, token), store') =
          issue_token_pair true who email issued access_jti jti store in
        let (given, store'') = refresh true now access_jti' new token store' in
        (given ≡ ok (create_access_token encode decode settings who (codes "") now access_jti'))
        × ((refresh true later access_jti'' new' token store'').0 ≡ err refresh_invalid)
  unfolding refresh issue_token_pair issue_refresh_token create_refresh_jwt
  session_ends who email issued now later access_jti jti access_jti' new access_jti'' new' store
        signs h live h' fresh =
      let store' = (issue_refresh_token encode decode true settings who issued jti store).1 in
      let stored = stored_record who issued jti store in
      let rotated = rotate_stored who issued now jti access_jti' new store' signs h live stored in
      let gone =
        ap (λ r. r.1 jti) rotated
        ∙ rotate_live-absent who issued now jti access_jti' new store' fresh in
      (
        session_refreshes who email issued now access_jti jti access_jti' new store signs h live,
        absent_invalid who issued later jti access_jti'' new' _ signs h' gone,
      )
