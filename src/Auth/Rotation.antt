-- ===== src/Auth/Rotation.antt =====
-- The life of a refresh token of app/core/security/jwt.py, from its issue to its rotation or its
-- revocation, among other calls on the same Redis.
use iotaps.Common.{
  ℕ, ◌≡◌, refl, ap, sym, subst, ◌∙◌, true, false, Option, none, some, List, [], ◌∷◌, inl, inr, ◌⊎◌,
  arith, Bool-cases, Option-cases,
}
use iotaps.Common.Exec.{Result, ok, err}
use iotaps.Common.Text.{Text, same_codes}
use iotaps.Common.TextStore.{remove_text, remove_text_self, remove_text-none, put_text_other}
use iotaps.Auth.Jwt.{
  Payload, JwtError, expired_signature, TokenError, token_revoked, token_expired, wrong_type,
  Settings, Principal, RefreshStore, has_type, is_live, typed, refresh_token_type,
  issue_refresh_token, decode_refresh_jwt, revoke_payload, revoke_refresh_token, rotate_live,
  rotate_payload, rotate_refresh_token,
}

-- The calls of the module that write to Redis, each with the random ids that it draws.
pub data Call : Type 0 where
  issue : (who : Principal) (now : ℕ) (jti : Text) → Call
  rotate : (now : ℕ) (access_jti refresh_jti token : Text) → Call
  revoke : (now : ℕ) (token : Text) → Call

abbrev pub new_id : Call → Option Text
new_id (issue who now jti) = some jti
new_id (rotate now access_jti refresh_jti token) = some refresh_jti
new_id (revoke now token) = none

abbrev pub Differs : Text → Option Text → Type 0
Differs jti none = Unit
Differs jti (some new) = same_codes jti new ≡ false

-- No call draws the id again.
abbrev pub IsFresh : Text → List Call → Type 0
IsFresh jti [] = Unit
IsFresh jti (c ∷ rest) = Differs jti (new_id c) × IsFresh jti rest

module _ (encode : Payload → Text) (decode : ℕ → Text → Result JwtError Payload)
    (settings : Settings) where
  unfoldable pub call : Call → RefreshStore → RefreshStore
  call (issue who now jti) store =
      (issue_refresh_token encode decode true settings who now jti store).1
  call (rotate now access_jti refresh_jti token) store =
      (rotate_refresh_token encode decode true settings now access_jti refresh_jti token store).1
  call (revoke now token) store = (revoke_refresh_token encode decode true now token store).1

  unfoldable pub calls : List Call → RefreshStore → RefreshStore
  calls [] store = store
  calls (c ∷ rest) store = calls rest (call c store)

  issue_absent :
      (jti : Text) (who : Principal) (now : ℕ) (new : Text) (store : RefreshStore)
      → same_codes jti new ≡ false
      → store jti ≡ none
      → (issue_refresh_token encode decode true settings who now new store).1 jti ≡ none
  unfolding issue_refresh_token
  issue_absent jti who now new store h gone = put_text_other jti new _ store h ∙ gone

  rotate_absent :
      (jti : Text) (now : ℕ) (access_jti new : Text) (r : Result TokenError Payload)
      (store : RefreshStore)
      → same_codes jti new ≡ false
      → store jti ≡ none
      → (rotate_payload encode decode true settings now access_jti new r store).1 jti ≡ none
  unfolding rotate_payload rotate_live
  rotate_absent jti now access_jti new (err e) store h gone = gone
  rotate_absent jti now access_jti new (ok payload) store h gone = elim (Option-cases payload.jti) [
    | inl e ↦ rw e gone
    | inr (old, e) ↦
        let removed = remove_text-none jti old store gone in
        rw e (elim (Bool-cases (is_live now (store old))) [
          | inl live ↦ rw live (issue_absent jti _ now new (remove_text old store) h removed)
          | inr dead ↦ rw dead removed
        ])
  ]

  revoke_absent :
      (jti : Text) (now : ℕ) (r : Result TokenError Payload) (store : RefreshStore)
      → store jti ≡ none
      → (revoke_payload encode decode true now r store).1 jti ≡ none
  unfolding revoke_payload
  revoke_absent jti now (err e) store gone = gone
  revoke_absent jti now (ok payload) store gone = elim (Option-cases payload.jti) [
    | inl e ↦ rw e gone
    | inr (old, e) ↦ rw e (remove_text-none jti old store gone)
  ]

  calls_absent :
      (jti : Text) (l : List Call) (store : RefreshStore)
      → IsFresh jti l
      → store jti ≡ none
      → calls l store jti ≡ none
  unfolding calls call rotate_refresh_token revoke_refresh_token
  calls_absent jti [] store h gone = gone
  calls_absent jti (issue who now new ∷ l) store (h, k) gone =
      calls_absent jti l _ k (issue_absent jti who now new store h gone)
  calls_absent jti (rotate now access_jti new token ∷ l) store (h, k) gone =
      calls_absent jti l _ k (
        rotate_absent jti now access_jti new (decode_refresh_jwt encode decode now token) store h
          gone)
  calls_absent jti (revoke now token ∷ l) store (h, k) gone =
      calls_absent jti l _ k
        (revoke_absent jti now (decode_refresh_jwt encode decode now token) store gone)

  -- Whenever the token decodes, it does so to this payload.
  abbrev pub DecodesTo : Text → Payload → Type 0
  DecodesTo token payload =
      (now : ℕ) → (decode now token ≡ ok payload) ⊎ ((e : JwtError) × (decode now token ≡ err e))

  typed_err : (type : Text) (e : JwtError) → (e' : TokenError) × (typed type (err e) ≡ err e')
  unfolding typed
  typed_err type expired_signature = (token_expired, refl)
  typed_err type JwtError.invalid_token = (TokenError.invalid_token, refl)

  typed_ok :
      (type : Text) (payload : Payload)
      → (typed type (ok payload) ≡ ok payload)
        ⊎ ((e : TokenError) × (typed type (ok payload) ≡ err e))
  unfolding typed
  typed_ok type payload = elim (Bool-cases (has_type type payload)) [
    | inl h ↦ inl (rw h refl)
    | inr h ↦ inr (wrong_type, rw h refl)
  ]

  decodes_refresh :
      (token : Text) (payload : Payload) (now : ℕ)
      → DecodesTo token payload
      → (decode_refresh_jwt encode decode now token ≡ ok payload)
        ⊎ ((e : TokenError) × (decode_refresh_jwt encode decode now token ≡ err e))
  unfolding decode_refresh_jwt
  decodes_refresh token payload now decodes = elim (decodes now) [
    | inr (e, failed) ↦
        let (e', refused) = typed_err refresh_token_type e in
        inr (e', ap (λ r. typed refresh_token_type r) failed ∙ refused)
    | inl decoded ↦
        subst
          (λ r.
            (typed refresh_token_type r ≡ ok payload)
            ⊎ ((e : TokenError) × (typed refresh_token_type r ≡ err e)))
          (sym decoded) (typed_ok refresh_token_type payload)
  ]

  payload_gone :
      (now : ℕ) (access_jti new jti : Text) (payload : Payload) (store : RefreshStore)
      → payload.jti ≡ some jti
      → same_codes jti new ≡ false
      → (rotate_payload encode decode true settings now access_jti new (ok payload) store).1 jti
        ≡ none
  unfolding rotate_payload rotate_live
  payload_gone now access_jti new jti payload store h fresh =
      let removed = remove_text_self jti store in
      rw h (elim (Bool-cases (is_live now (store jti))) [
        | inl live ↦ rw live (issue_absent jti _ now new (remove_text jti store) fresh removed)
        | inr dead ↦ rw dead removed
      ])

  absent_refused :
      (now : ℕ) (access_jti new jti token : Text) (payload : Payload) (store : RefreshStore)
      → DecodesTo token payload
      → payload.jti ≡ some jti
      → store jti ≡ none
      → (e : TokenError) × ((rotate_refresh_token encode decode true settings now access_jti new
            token store).0
          ≡ err e)
  unfolding rotate_refresh_token rotate_payload is_live
  absent_refused now access_jti new jti token payload store decodes h gone =
      elim (decodes_refresh token payload now decodes) [
        | inr (e, refused) ↦ (e, rw refused refl)
        | inl decoded ↦ (token_revoked, rw (decoded, h, gone) refl)
      ]

  rotated_gone :
      (now : ℕ) (access_jti new jti token : Text) (payload : Payload) (pair : Text × Text)
      (store : RefreshStore)
      → DecodesTo token payload
      → payload.jti ≡ some jti
      → same_codes jti new ≡ false
      → (rotate_refresh_token encode decode true settings now access_jti new token store).0
        ≡ ok pair
      → (rotate_refresh_token encode decode true settings now access_jti new token store).1 jti
        ≡ none
  unfolding rotate_refresh_token
  rotated_gone now access_jti new jti token payload pair store decodes h fresh success =
      elim (decodes_refresh token payload now decodes) [
        | inr (e, refused) ↦ absurd (unfold rotate_payload in ground (arith, refused, success))
        | inl decoded ↦ rw decoded (payload_gone now access_jti new jti payload store h fresh)
      ]

  payload_revoked :
      (now : ℕ) (jti : Text) (payload : Payload) (store : RefreshStore)
      → payload.jti ≡ some jti
      → (revoke_payload encode decode true now (ok payload) store).1 jti ≡ none
  unfolding revoke_payload
  payload_revoked now jti payload store h = rw h (remove_text_self jti store)

  revoked_gone :
      (now : ℕ) (jti token : Text) (payload : Payload) (store : RefreshStore)
      → DecodesTo token payload
      → payload.jti ≡ some jti
      → (revoke_refresh_token encode decode true now token store).0 ≡ ok true
      → (revoke_refresh_token encode decode true now token store).1 jti ≡ none
  unfolding revoke_refresh_token
  revoked_gone now jti token payload store decodes h success =
      elim (decodes_refresh token payload now decodes) [
        | inr (e, refused) ↦ absurd (unfold revoke_payload in ground (arith, refused, success))
        | inl decoded ↦ rw decoded (payload_revoked now jti payload store h)
      ]

  -- After a rotation of a refresh token that succeeded, and any calls that issue, rotate or revoke
  -- tokens and draw fresh ids, another rotation of the token is refused.
  pub rotate_single_use :
      (token jti : Text) (payload : Payload) (now : ℕ) (access_jti new : Text) (pair : Text × Text)
      (l : List Call) (later : ℕ) (access_jti' new' : Text) (store : RefreshStore)
      → DecodesTo token payload
      → payload.jti ≡ some jti
      → IsFresh jti (rotate now access_jti new token ∷ l)
      → (rotate_refresh_token encode decode true settings now access_jti new token store).0
        ≡ ok pair
      → (e : TokenError) × ((rotate_refresh_token encode decode true settings later access_jti' new'
            token
            (calls (rotate now access_jti new token ∷ l) store)).0
          ≡ err e)
  unfolding calls call
  rotate_single_use token jti payload now access_jti new pair l later access_jti' new' store decodes
        h (fresh, k) success =
      let gone =
        rotated_gone now access_jti new jti token payload pair store decodes h fresh success in
      absent_refused later access_jti' new' jti token payload _ decodes h
        (calls_absent jti l _ k gone)

  -- After a revocation of a refresh token that found its record, and any calls that issue, rotate or
  -- revoke tokens and draw fresh ids, a rotation of the token is refused.
  pub logout_final :
      (token jti : Text) (payload : Payload) (now : ℕ) (l : List Call) (later : ℕ)
      (access_jti' new' : Text) (store : RefreshStore)
      → DecodesTo token payload
      → payload.jti ≡ some jti
      → IsFresh jti l
      → (revoke_refresh_token encode decode true now token store).0 ≡ ok true
      → (e : TokenError) × ((rotate_refresh_token encode decode true settings later access_jti' new'
            token
            (calls (revoke now token ∷ l) store)).0
          ≡ err e)
  unfolding calls call
  logout_final token jti payload now l later access_jti' new' store decodes h k success =
      let gone = revoked_gone now jti token payload store decodes h success in
      absent_refused later access_jti' new' jti token payload _ decodes h
        (calls_absent jti l _ k gone)
