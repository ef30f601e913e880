-- ===== src/Billing/Balance.antt =====
-- The balances of the wallets against what was credited and paid out.
use iotaps.Common.{
  ℤ, ℕ, ◌+◌, ◌%◌, ◌≡◌, Bool, true, false, some, List, [], ◌∷◌, arith, ◌==◌, ◌&&◌, if◌then◌else◌,
}
use iotaps.Common.Exec.{Result}
use iotaps.Billing.Wallets.{
  PayoutStatus, WalletError, Payout, Commission, Bank, balance_or_new, credit_commission,
  request_payout, find_payout, transfer_amount, approve_payout,
}

abbrev is_paid : PayoutStatus → Bool
is_paid PayoutStatus.paid = true
is_paid _ = false

abbrev paid_by : ℕ → Payout → ℕ
paid_by org p = if p.org_id == org && is_paid p.status then p.amount else 0

-- The amounts of an organization's payouts that are marked paid, and what it has been credited.
abbrev debited : ℕ → List Payout → ℕ
debited org [] = 0
debited org (p ∷ ps) = paid_by org p + debited org ps

abbrev pub credited : ℕ → List Commission → ℕ
credited org [] = 0
credited org (c ∷ cs) = (if c.org_id == org then c.amount else 0) + credited org cs

-- The payouts marked paid, by their full amounts, account for what is missing of the credits.
abbrev IsSettled : Bank → Type 0
IsSettled b =
    (org : ℕ) → balance_or_new (b.balances org) + debited org b.payouts ≡ credited org b.commissions

pub find-id : (id : ℕ) (ps : List Payout) (p : Payout) → find_payout id ps ≡ some p → p.id ≡ id
unfolding find_payout
find-id id [] p f = absurd (ground arith)
find-id id (x ∷ ps) p f = ground (arith, find-id id ps p)

-- What the operations are called with.
pub data WalletOp : Type 0 where
  credit_op : ℕ → WalletOp
  request_op : ℕ → ℕ → ℤ → WalletOp
  approve_op : (ℕ → Bool) → ℕ → WalletOp

abbrev pub perform : WalletOp → Bank → Result WalletError ℕ × Bank
perform (credit_op org) b = credit_commission org b
perform (request_op id org amount) b = request_payout id org amount b
perform (approve_op transfers id) b = approve_payout transfers id b

abbrev pub perform_all : List WalletOp → Bank → Bank
perform_all [] b = b
perform_all (op ∷ ops) b = perform_all ops (perform op b).1

-- What of an organization's paid payouts was transferred to it, in whole rupees, and the paise of them
-- that were not.
abbrev pub transferred : ℕ → List Payout → ℕ
transferred org [] = 0
transferred org (p ∷ ps) =
    (if p.org_id == org && is_paid p.status then transfer_amount p.amount else 0)
    + transferred org ps

abbrev pub withheld : ℕ → List Payout → ℕ
withheld org [] = 0
withheld org (p ∷ ps) =
    (if p.org_id == org && is_paid p.status then p.amount % 100 else 0) + withheld org ps

-- What every organization has, what was transferred to it and what was withheld are its credits.
abbrev pub IsBalanced : Bank → Type 0
IsBalanced b =
    (org : ℕ)
    → balance_or_new (b.balances org) + (transferred org b.payouts + withheld org b.payouts)
      ≡ credited org b.commissions
