-- ===== src/Billing/Wallets.antt =====
-- app/services/commission_service.py and app/services/payout_service.py. Amounts are in paise. An
-- organization has one wallet, whose id stands for the organization's here. An operation whose
-- outside call raises is not committed, so it leaves the tables as they were. A caller gives an amount
-- with its sign.
use iotaps.Common.{
  ℕ, ◌+◌, ◌*◌, ◌-◌, ◌/◌, Bool, true, false, Option, none, some, List, [], ◌∷◌, ltb, ◌==◌,
  if◌then◌else◌, ℤ, pos, negsuc,
}
use iotaps.Common.Store.{Store, put}
use iotaps.Common.Exec.{Result, ok, err}

pub data PayoutStatus : Type 0 where
  pending approved rejected paid : PayoutStatus

pub data WalletError : Type 0 where
  organization_not_found invalid_payout_amount wallet_not_found insufficient_balance : WalletError
  payout_not_found payout_not_pending transfer_failed : WalletError

pub record Payout : Type 0 where
  pub id : ℕ
  pub org_id : ℕ
  pub amount : ℕ
  pub status : PayoutStatus

pub record Commission : Type 0 where
  pub org_id : ℕ
  pub amount : ℕ

-- The organizations with their overriding rates, the wallets' balances by organization, and what
-- was transferred through RazorpayX.
pub record Bank : Type 0 where
  pub organizations : Store (Option ℤ)
  pub balances : Store ℕ
  pub payouts : List Payout
  pub commissions : List Commission
  pub transfers : List ℕ

abbrev pub default_commission_rate : ℕ
default_commission_rate = 50 * 100

unfoldable pub resolve_commission_rate : Option ℤ → ℤ
resolve_commission_rate none = pos default_commission_rate
resolve_commission_rate (some rate) = rate

-- `rate if rate > 0 else 0`
unfoldable pub credited_amount : ℤ → ℕ
credited_amount (pos n) = n
credited_amount (negsuc n) = 0

-- The balance of a wallet, 0 for one that is about to be created.
abbrev pub balance_or_new : Option ℕ → ℕ
balance_or_new none = 0
balance_or_new (some balance) = balance

-- The wallet is created where there is none, the commission recorded and the balance raised.
unfoldable pub credit_wallet : ℕ → ℕ → Bank → Bank
credit_wallet org amount b = record b {
  balances = put org (balance_or_new (b.balances org) + amount) b.balances;
  commissions = record { org_id = org; amount = amount } ∷ b.commissions;
}

unfoldable pub credit_commission : ℕ → Bank → Result WalletError ℕ × Bank
credit_commission org b = elim (b.organizations org) [
  | none ↦ (err WalletError.organization_not_found, b)
  | some rate ↦
      (let amount = credited_amount (resolve_commission_rate rate) in
        (ok amount, credit_wallet org amount b))
]

abbrev add_payout : ℕ → ℕ → ℕ → Bank → Bank
add_payout id org amount b = record b {
  payouts =
      record { id = id; org_id = org; amount = amount; status = PayoutStatus.pending } ∷ b.payouts;
}

abbrev request_from : ℕ → ℕ → ℕ → Option ℕ → Bank → Result WalletError ℕ × Bank
request_from id org amount none b = (err WalletError.wallet_not_found, b)
request_from id org amount (some balance) b =
    if ltb balance amount
    then (err WalletError.insufficient_balance, b)
    else (ok id, add_payout id org amount b)

-- `request_payout` with the id that the new payout gets.
unfoldable pub request_payout : ℕ → ℕ → ℤ → Bank → Result WalletError ℕ × Bank
request_payout id org (negsuc n) b = (err WalletError.invalid_payout_amount, b)
request_payout id org (pos amount) b =
    if ltb 0 amount
    then request_from id org amount (b.balances org) b
    else (err WalletError.invalid_payout_amount, b)

unfoldable pub find_payout : ℕ → List Payout → Option Payout
find_payout id [] = none
find_payout id (p ∷ ps) = let rest = find_payout id ps in if p.id == id then some p else rest

unfoldable pub set_payout : ℕ → Payout → List Payout → List Payout
set_payout id p' [] = []
set_payout id p' (p ∷ ps) =
    let rest = set_payout id p' ps in if p.id == id then p' ∷ ps else p ∷ rest

-- `int(amount) * PAISE_PER_RUPEE`, of an amount in paise.
unfoldable pub transfer_amount : ℕ → ℕ
transfer_amount amount = amount / 100 * 100

-- The wallet is debited, the payout paid and the money transferred.
unfoldable pub pay_out : ℕ → Payout → Bank → Bank
pay_out balance p b = record b {
  balances = put p.org_id (balance - p.amount) b.balances;
  payouts = set_payout p.id (record p { status = PayoutStatus.paid }) b.payouts;
  transfers = transfer_amount p.amount ∷ b.transfers;
}

unfoldable pub approve_from : (ℕ → Bool) → Payout → Option ℕ → Bank → Result WalletError ℕ × Bank
approve_from transfers p none b = (err WalletError.wallet_not_found, b)
approve_from transfers p (some balance) b =
    if ltb balance p.amount
    then (err WalletError.insufficient_balance, b)
    else if transfers (transfer_amount p.amount)
    then (ok p.id, pay_out balance p b)
    else (err WalletError.transfer_failed, b)

unfoldable pub is_pending : PayoutStatus → Bool
is_pending PayoutStatus.pending = true
is_pending _ = false

-- `approve_payout`; the parameter says which transfers RazorpayX makes.
unfoldable pub approve_payout : (ℕ → Bool) → ℕ → Bank → Result WalletError ℕ × Bank
approve_payout transfers id b = elim (find_payout id b.payouts) [
  | none ↦ (err WalletError.payout_not_found, b)
  | some p ↦
      if is_pending p.status
      then approve_from transfers p (b.balances p.org_id) b
      else (err WalletError.payout_not_pending, b)
]
