-- ===== src/Referrals/Tests.antt =====
-- Ann, the first user of organization 1, refers Bob.
use iotaps.Common.{◌≡◌, refl, none, some, [], ◌∷◌, arith}
use iotaps.Common.Text.{codes, normalize, strip}
use iotaps.Common.Store.{empty}
use iotaps.Common.Exec.{ok, err}
use iotaps.Referrals.Referral.{
  ReferralError, User, Tables, normalize_gmail, record_referral, count_confirmed, resolve_referrer,
  first_user, org_of_code, has_gmail, add_referral,
}
use iotaps.Referrals.Rewards.{IsGranted, IsUnique, IsRecorded, record_referral_lem}

abbrev ann : User
ann = record { id = 1; org_id = 1; created_at = 0; email = some "ann@x"; referred_by = none }

abbrev bob : User
bob = record { id = 2; org_id = 2; created_at = 9; email = some "Bob@x"; referred_by = none }

abbrev tables : Tables
tables = record {
  organizations = record { id = 1; referral_code = some (codes "ABC") } ∷ [];
  users = ann ∷ bob ∷ [];
  referrals = [];
  rewards = empty;
}

tables-IsGranted : IsGranted tables
unfolding count_confirmed
tables-IsGranted id h = absurd (omega arith)

record_referral_lem_example :
    let gmail = normalize_gmail (some "Bob@x") in
    let outcome = record_referral 10 " ABC" bob none tables in
    IsRecorded 10 bob gmail tables outcome × IsGranted outcome.1 × IsUnique outcome.1.referrals
record_referral_lem_example = record_referral_lem 10 " ABC" bob none tables tables-IsGranted tt

bob_recorded : (record_referral 10 " ABC" bob none tables).0 ≡ ok tt
unfolding record_referral resolve_referrer org_of_code first_user normalize_gmail normalize strip
    has_gmail
bob_recorded = refl

-- A second time the address is used.
bob_refused :
    (record_referral 11 "ABC" bob none (record_referral 10 " ABC" bob none tables).1).0
    ≡ err ReferralError.referral_gmail_used
unfolding record_referral resolve_referrer org_of_code first_user normalize_gmail normalize strip
    has_gmail add_referral
bob_refused = refl
