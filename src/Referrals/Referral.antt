-- ===== src/Referrals/Referral.antt =====
-- `record_referral` and what it calls. Ids are numbers, times are seconds, a mail address is a text.
use iotaps.Common.{
  ℕ, ◌+◌, ◌*◌, min, String, Bool, true, false, ◌&&◌, Option, none, some, List, [], ◌∷◌, map, ltb,
  leb, ◌==◌, if◌then◌else◌, ◌||◌,
}
use iotaps.Common.Text.{codes, strip, normalize, same_codes}
use iotaps.Common.Store.{Store, put}
use iotaps.Common.Exec.{Result, ok, err}

pub record Organization : Type 0 where
  pub id : ℕ
  pub referral_code : Option (List ℕ)

pub record User : Type 0 where
  pub id : ℕ
  pub org_id : ℕ
  pub created_at : ℕ
  pub email : Option String
  pub referred_by : Option ℕ

pub record Referral : Type 0 where
  pub referrer_user_id : ℕ
  pub referred_user_id : ℕ
  pub referred_gmail : Option (List ℕ)
  -- whether the status is "confirmed"
  pub confirmed : Bool

pub record ReferralReward : Type 0 where
  pub devices_granted : ℕ
  pub months_granted : ℕ
  pub granted_at : ℕ
  pub expires_at : ℕ

-- The tables; a user has one reward at most.
pub record Tables : Type 0 where
  pub organizations : List Organization
  pub users : List User
  pub referrals : List Referral
  pub rewards : Store ReferralReward

pub data ReferralError : Type 0 where
  referral_code_invalid referral_self referral_gmail_used : ReferralError

abbrev pub cap_devices : ℕ
cap_devices = 3

abbrev pub cap_months : ℕ
cap_months = 3

abbrev capped : ℕ → ℕ → ℕ × ℕ
capped devices months = (min devices cap_devices, min months cap_months)

unfoldable pub reward_for_referral_count : ℕ → ℕ × ℕ
reward_for_referral_count count =
    if leb 6 count
    then capped 3 3
    else if leb 2 count
    then capped 2 1
    else if leb 1 count
    then capped 1 1
    else capped 0 0

-- An absent address and an empty one are none.
unfoldable pub normalize_gmail : Option String → Option (List ℕ)
normalize_gmail none = none
normalize_gmail (some String.[]) = none
normalize_gmail (some (String.◌∷◌ c s)) = some (normalize (String.◌∷◌ c s))

-- `referred_gmail or referred_user.email`
abbrev pub gmail_or : Option String → Option String → Option String
gmail_or none email = email
gmail_or (some String.[]) email = email
gmail_or (some (String.◌∷◌ c s)) email = some (String.◌∷◌ c s)

abbrev has_code : List ℕ → Option (List ℕ) → Bool
has_code code none = false
has_code code (some other) = same_codes other code

unfoldable pub org_of_code : List ℕ → List Organization → Option ℕ
org_of_code code [] = none
org_of_code code (o ∷ os) =
    let rest = org_of_code code os in if has_code code o.referral_code then some o.id else rest

abbrev earlier : User → Option User → Option User
earlier u none = some u
earlier u (some v) = if ltb v.created_at u.created_at then some v else some u

-- The organization's first user.
unfoldable pub first_user : ℕ → List User → Option User
first_user org [] = none
first_user org (u ∷ us) =
    let rest = first_user org us in if u.org_id == org then earlier u rest else rest

abbrev owner_of : Option ℕ → List User → Option User
owner_of none us = none
owner_of (some org) us = first_user org us

abbrev resolve_code : List ℕ → Tables → Option User
resolve_code [] t = none
resolve_code (c ∷ s) t = owner_of (org_of_code (c ∷ s) t.organizations) t.users

unfoldable pub resolve_referrer : String → Tables → Option User
resolve_referrer code t = resolve_code (strip (codes code)) t

unfoldable pub count_confirmed : ℕ → List Referral → ℕ
count_confirmed id [] = 0
count_confirmed id (r ∷ rs) =
    (if r.referrer_user_id == id && r.confirmed then 1 else 0) + count_confirmed id rs

abbrev pub seconds_per_month : ℕ
seconds_per_month = 30 * 86400

-- The reward of a number of referrals, granted now.
unfoldable pub reward_now : ℕ → ℕ → ReferralReward
reward_now now count = record {
  devices_granted = (reward_for_referral_count count).0;
  months_granted = (reward_for_referral_count count).1;
  granted_at = now;
  expires_at = now + seconds_per_month * (reward_for_referral_count count).1;
}

unfoldable pub upsert_reward : ℕ → ℕ → ℕ → Store ReferralReward → Store ReferralReward
upsert_reward now id count rewards =
    if (reward_for_referral_count count).0 == 0
    then rewards
    else put id (reward_now now count) rewards

abbrev same_gmail : List ℕ → Option (List ℕ) → Bool
same_gmail g none = false
same_gmail g (some h) = same_codes h g

unfoldable pub has_gmail : List ℕ → List Referral → Bool
has_gmail g [] = false
has_gmail g (r ∷ rs) = same_gmail g r.referred_gmail || has_gmail g rs

-- Whether an address has been referred before.
abbrev pub is_used : Option (List ℕ) → List Referral → Bool
is_used none rs = false
is_used (some g) rs = has_gmail g rs

abbrev mark_referred : ℕ → ℕ → List User → List User
mark_referred id by us = map (λ u. if u.id == id then record u { referred_by = some by } else u) us

abbrev pub new_referral : ℕ → ℕ → Option (List ℕ) → Referral
new_referral referrer referred gmail = record {
  referrer_user_id = referrer;
  referred_user_id = referred;
  referred_gmail = gmail;
  confirmed = true;
}

-- The referral is added, the user marked, and the referrer's reward brought up to the new count.
unfoldable pub add_referral : ℕ → ℕ → ℕ → Option (List ℕ) → Tables → Tables
add_referral now referrer referred gmail t =
    let referrals = new_referral referrer referred gmail ∷ t.referrals in
    record t {
      users = mark_referred referred referrer t.users;
      referrals = referrals;
      rewards = upsert_reward now referrer (count_confirmed referrer referrals) t.rewards;
    }

abbrev pub refer_by :
    ℕ → User → Option (List ℕ) → Option User → Tables → Result ReferralError Unit × Tables
refer_by now referred gmail none t = (err ReferralError.referral_code_invalid, t)
refer_by now referred gmail (some referrer) t =
    if referrer.id == referred.id
    then (err ReferralError.referral_self, t)
    else if is_used gmail t.referrals
    then (err ReferralError.referral_gmail_used, t)
    else (ok tt, add_referral now referrer.id referred.id gmail t)

unfoldable pub record_referral :
    ℕ → String → User → Option String → Tables → Result ReferralError Unit × Tables
record_referral now code referred referred_gmail t =
    refer_by now referred (normalize_gmail (gmail_or referred_gmail referred.email))
      (resolve_referrer code t) t
