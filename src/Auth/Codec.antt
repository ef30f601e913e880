-- ===== src/Auth/Codec.antt =====
-- A codec of tokens for the tests of app/core/security/jwt.py: each text of the payload is written
-- behind its length. It signs nothing, and refuses what is expired.
use iotaps.Common.{
  ℕ, zero, suc, ◌≡◌, refl, ap, Option, none, some, [], ◌∷◌, ◌++◌, ltb, length, take, drop,
  if◌then◌else◌,
}
use iotaps.Common.Exec.{Result, ok, err}
use iotaps.Common.Text.{Text}
use iotaps.Auth.Jwt.{Payload, JwtError, expired_signature, Settings}
use iotaps.Auth.Sessions.{Signs}

abbrev write : Option Text → Text
write none = 0 ∷ []
write (some t) = suc (length t) ∷ t

abbrev read : Text → Option Text × Text
read [] = (none, [])
read (zero ∷ l) = (none, l)
read (suc n ∷ l) = (some (take n l), drop n l)

abbrev text_of : Option Text → Text
text_of none = []
text_of (some t) = t

take-length : (t rest : Text) → take (length t) (t ++ rest) ≡ t
take-length [] rest = refl
take-length (c ∷ t) rest = ap (λ l. c ∷ l) (take-length t rest)

drop-length : (t rest : Text) → drop (length t) (t ++ rest) ≡ rest
drop-length [] rest = refl
drop-length (c ∷ t) rest = drop-length t rest

read-write : (o : Option Text) (rest : Text) → read (write o ++ rest) ≡ (o, rest)
read-write none rest = refl
read-write (some t) rest = λ i. (some (take-length t rest i), drop-length t rest i)

abbrev claims : ℕ → ℕ → Text → Payload
claims iat exp l =
    let (sub, l1) = read l in
    let (org, l2) = read l1 in
    let (role, l3) = read l2 in
    let (email, l4) = read l3 in
    let (jti, l5) = read l4 in
    let (typ, l6) = read l5 in
    record {
      sub = text_of sub;
      org_id = org;
      role = role;
      email = email;
      iat = iat;
      exp = exp;
      jti = jti;
      typ = typ;
    }

unfoldable pub encode : Payload → Text
encode p =
    p.iat
    ∷ (p.exp
        ∷ (write (some p.sub)
            ++ (write p.org_id
                ++ (write p.role ++ (write p.email ++ (write p.jti ++ (write p.typ ++ [])))))))

unfoldable pub decode : ℕ → Text → Result JwtError Payload
decode now [] = err JwtError.invalid_token
decode now (iat ∷ []) = err JwtError.invalid_token
decode now (iat ∷ (exp ∷ l)) = if ltb now exp then ok (claims iat exp l) else err expired_signature

claims-write :
    (iat exp : ℕ) (sub org role email jti typ : Option Text)
    → claims iat exp (
        write sub
        ++ (write org ++ (write role ++ (write email ++ (write jti ++ (write typ ++ []))))))
      ≡ record {
        sub = text_of sub;
        org_id = org;
        role = role;
        email = email;
        iat = iat;
        exp = exp;
        jti = jti;
        typ = typ;
      }
claims-write iat exp sub org role email jti typ = simp (read-write) refl

pub codec_signs : (settings : Settings) → Signs encode decode settings
unfolding encode decode
codec_signs settings now p h =
    ap (λ x. if ltb now p.exp then ok x else err expired_signature)
      (claims-write p.iat p.exp (some p.sub) p.org_id p.role p.email p.jti p.typ)
