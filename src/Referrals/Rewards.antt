-- ===== src/Referrals/Rewards.antt =====
-- The rewards against the referrals that are recorded, and the addresses in them.
use iotaps.Common.{
  ℕ, ◌+◌, ◌≤◌, ◌<◌, ◌≡◌, ◌≢◌, refl, sym, ap, subst, ◌∙◌, String, false, Option, some, List, [], ◌∷◌,
  arith, ◌==◌, ==_refl, Bool-cases, Option-cases, inl, inr, min,
}
use iotaps.Common.Store.{put, put_self, put_ne}
use iotaps.Common.Exec.{Result, ok, err}
use iotaps.Referrals.Referral.{
  User, Referral, ReferralReward, Tables, ReferralError, reward_for_referral_count, normalize_gmail,
  gmail_or, resolve_referrer, count_confirmed, reward_now, upsert_reward, is_used, add_referral,
  new_referral, refer_by, record_referral,
}

-- The reward never falls as referrals are added, is three devices and three months at most, and is
-- at least one device from the first referral on.
pub reward_bounds :
    (n m : ℕ)
    → n ≤ m
    → ((reward_for_referral_count n).0 ≤ (reward_for_referral_count m).0)
      × ((reward_for_referral_count n).1 ≤ (reward_for_referral_count m).1)
      × ((reward_for_referral_count m).0 ≤ 3)
      × ((reward_for_referral_count m).1 ≤ 3)
      × (min n 1 ≤ (reward_for_referral_count n).0)
unfolding reward_for_referral_count
reward_bounds n m h = (ground arith, ground arith, ground arith, ground arith, ground arith)

-- The reward that a referrer with confirmed referrals holds is the one of their number.
abbrev pub HasReward : ℕ → ℕ → (ℕ → Option ReferralReward) → Type 0
HasReward id count rewards = (granted_at : ℕ) × (rewards id ≡ some (reward_now granted_at count))

abbrev pub IsGranted : Tables → Type 0
IsGranted t =
    (id : ℕ)
    → 0 < count_confirmed id t.referrals
    → HasReward id (count_confirmed id t.referrals) t.rewards

upserted :
    (now id count : ℕ) (rewards : ℕ → Option ReferralReward)
    → 0 < count
    → upsert_reward now id count rewards ≡ put id (reward_now now count) rewards
unfolding upsert_reward
upserted now id count rewards h =
    let (a, b, c, d, some_device) = reward_bounds count count (omega arith) in
    let granted : ((reward_for_referral_count count).0 == 0) ≡ false = ground arith in rw granted

upsert_self :
    (now id count : ℕ) (rewards : ℕ → Option ReferralReward)
    → 0 < count
    → upsert_reward now id count rewards id ≡ some (reward_now now count)
upsert_self now id count rewards h =
    ap (λ r. r id) (upserted now id count rewards h) ∙ put_self id (reward_now now count) rewards

upsert_other :
    (now id other count : ℕ) (rewards : ℕ → Option ReferralReward)
    → other ≢ id
    → 0 < count
    → upsert_reward now id count rewards other ≡ rewards other
upsert_other now id other count rewards ne h =
    ap (λ r. r other) (upserted now id count rewards h)
    ∙ put_ne other id (reward_now now count) rewards ne

count_own :
    (referrer referred : ℕ) (gmail : Option (List ℕ)) (rs : List Referral)
    → count_confirmed referrer (new_referral referrer referred gmail ∷ rs)
      ≡ 1 + count_confirmed referrer rs
unfolding count_confirmed
count_own referrer referred gmail rs = ground (arith, ==_refl referrer)

count_other :
    (id referrer referred : ℕ) (gmail : Option (List ℕ)) (rs : List Referral)
    → id ≢ referrer
    → count_confirmed id (new_referral referrer referred gmail ∷ rs) ≡ count_confirmed id rs
unfolding count_confirmed
count_other id referrer referred gmail rs ne = ground arith

add-IsGranted :
    (now referrer referred : ℕ) (gmail : Option (List ℕ)) (t : Tables)
    → IsGranted t
    → IsGranted (add_referral now referrer referred gmail t)
unfolding add_referral
add-IsGranted now referrer referred gmail t h id pos =
    let rs = new_referral referrer referred gmail ∷ t.referrals in
    let own = count_own referrer referred gmail t.referrals in
    let some_count : 0 < count_confirmed referrer rs = omega (arith, own) in
    elim (Bool-cases (id == referrer)) [
      | inl same_one ↦
          (let same : referrer ≡ id = ground arith in
            let held : HasReward referrer (count_confirmed referrer rs)
                (upsert_reward now referrer (count_confirmed referrer rs) t.rewards) =
              (now, upsert_self now referrer (count_confirmed referrer rs) t.rewards some_count) in
            subst
              (λ k.
                HasReward k (count_confirmed k rs)
                  (upsert_reward now referrer (count_confirmed referrer rs) t.rewards))
              same held)
      | inr another ↦
          (let ne : id ≢ referrer = ground arith in
            let kept = count_other id referrer referred gmail t.referrals ne in
            let (granted_at, held) = h id (omega (arith, kept, pos)) in
            (
              granted_at,
              upsert_other now referrer id (count_confirmed referrer rs) t.rewards ne some_count
                  ∙ held
                  ∙ ap (λ c. some (reward_now granted_at c)) (sym kept),
            ))
    ]

abbrev IsNew : Referral → List Referral → Type 0
IsNew r rs = is_used r.referred_gmail rs ≡ false

-- No two referrals have one address.
abbrev pub IsUnique : List Referral → Type 0
IsUnique [] = Unit
IsUnique (r ∷ rs) = IsNew r rs × IsUnique rs

-- What a call of `record_referral` leads to.
abbrev pub IsRecorded :
    ℕ → User → Option (List ℕ) → Tables → Result ReferralError Unit × Tables → Type 0
IsRecorded now referred gmail t (err e, t') = t' ≡ t
IsRecorded now referred gmail t (ok u, t') =
    (referrer : User) × (referrer.id ≢ referred.id)
    × (is_used gmail t.referrals ≡ false)
    × (t' ≡ add_referral now referrer.id referred.id gmail t)

refer_cases :
    (now : ℕ) (referred : User) (gmail : Option (List ℕ)) (referrer : User) (t : Tables)
    → IsRecorded now referred gmail t (refer_by now referred gmail (some referrer) t)
refer_cases now referred gmail referrer t = elim (Bool-cases (referrer.id == referred.id)) [
  | inl self ↦ (rw self refl)
  | inr other ↦ elim (Bool-cases (is_used gmail t.referrals)) [
    | inl used ↦ (rw (other, used) refl)
    | inr fresh ↦
        (let ne : referrer.id ≢ referred.id = ground arith in
          rw (other, fresh) (referrer, ne, fresh, refl))
  ]
]

recorded_keeps :
    (now : ℕ) (referred : User) (gmail : Option (List ℕ)) (t : Tables)
    (outcome : Result ReferralError Unit × Tables)
    → IsRecorded now referred gmail t outcome
    → IsGranted t
    → IsUnique t.referrals
    → IsGranted outcome.1 × IsUnique outcome.1.referrals
recorded_keeps now referred gmail t (err e, t') same granted unique =
    (subst IsGranted (sym same) granted, subst (λ x. IsUnique x.referrals) (sym same) unique)
recorded_keeps now referred gmail t (ok u, t') (referrer, ne, fresh, added) granted unique = (
  subst IsGranted (sym added) (add-IsGranted now referrer.id referred.id gmail t granted),
  subst (λ x. IsUnique x.referrals) (sym added) (unfold add_referral in (fresh, unique)),
)

recorded :
    (now : ℕ) (code : String) (referred : User) (referred_gmail : Option String) (t : Tables)
    → IsRecorded now referred
        (normalize_gmail (gmail_or referred_gmail referred.email))
        t
        (record_referral now code referred referred_gmail t)
unfolding record_referral
recorded now code referred referred_gmail t = elim (Option-cases (resolve_referrer code t)) [
  | inl none_by ↦ (rw (none_by, record_referral) refl)
  | inr (referrer, by) ↦
      (rw (by, record_referral)
        (refer_cases now referred (normalize_gmail (gmail_or referred_gmail referred.email))
          referrer t))
]

-- `record_referral` either is refused and changes nothing, or records a referral by another user of
-- an address that was not used before. If every referrer held the reward of its confirmed referrals,
-- and no address was used twice, this is so afterwards.
pub record_referral_lem :
    (now : ℕ) (code : String) (referred : User) (referred_gmail : Option String) (t : Tables)
    → IsGranted t
    → IsUnique t.referrals
    → let gmail = normalize_gmail (gmail_or referred_gmail referred.email) in
      let outcome = record_referral now code referred referred_gmail t in
      IsRecorded now referred gmail t outcome × IsGranted outcome.1 × IsUnique outcome.1.referrals
record_referral_lem now code referred referred_gmail t granted unique =
    let gmail = normalize_gmail (gmail_or referred_gmail referred.email) in
    let done = recorded now code referred referred_gmail t in
    let (kept, still) =
      recorded_keeps now referred gmail t (record_referral now code referred referred_gmail t) done
        granted unique in
    (done, kept, still)
