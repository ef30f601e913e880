-- ===== src/Billing/Approvals.antt =====
-- What an approval pays, and what a refused operation does.
use iotaps.Common.{
  pos, negsuc, ℕ, ◌-◌, ◌%◌, ◌≤◌, ◌≡◌, refl, sym, ap, ◌∙◌, Bool, true, Option, none, some, ◌∷◌,
  arith, ltb, Bool-cases, Option-cases, inl, inr,
}
use iotaps.Common.Store.{put_self}
use iotaps.Common.Exec.{ok, err}
use iotaps.Billing.Wallets.{
  WalletError, Payout, Bank, credit_commission, request_payout, find_payout, transfer_amount,
  pay_out, approve_from, is_pending, approve_payout,
}
use iotaps.Billing.Balance.{WalletOp, perform, credit_op, request_op, approve_op}

-- What an approval of a payout did, with the wallet's balance before it.
abbrev pub IsPaidOut : Payout → ℕ → Bank → Bank → Type 0
IsPaidOut p balance b b' =
    (is_pending p.status ≡ true)
    × (b.balances p.org_id ≡ some balance)
    × (p.amount ≤ balance)
    × (b'.balances p.org_id ≡ some (balance - p.amount))
    × (b'.transfers ≡ (p.amount - p.amount % 100) ∷ b.transfers)

whole_rupees : (amount : ℕ) → transfer_amount amount ≡ amount - amount % 100
unfolding transfer_amount
whole_rupees amount = omega arith

approve_from-ok :
    (transfers : ℕ → Bool) (p : Payout) (held : Option ℕ) (b b' : Bank) (n : ℕ)
    → b.balances p.org_id ≡ held
    → is_pending p.status ≡ true
    → approve_from transfers p held b ≡ (ok n, b')
    → (balance : ℕ) × IsPaidOut p balance b b'
unfolding approve_from
approve_from-ok transfers p none b b' n e pend h = absurd (ground arith)
approve_from-ok transfers p (some balance) b b' n e pend h =
    elim (Bool-cases (ltb balance p.amount)) [
      | inl short ↦ absurd (ground arith)
      | inr enough ↦
          (let same : pay_out balance p b ≡ b' = ground arith in
            let paid : IsPaidOut p balance b b' = (
              pend,
              e,
              ground arith,
              ap (λ x. x.balances p.org_id) (sym same)
                  ∙ (unfold pay_out in put_self p.org_id (balance - p.amount) b.balances),
              ap (λ x. x.transfers) (sym same)
                  ∙ (unfold pay_out in ap (λ t. t ∷ b.transfers) (whole_rupees p.amount)),
            ) in
            (balance, paid))
    ]

-- An approval that goes through is of a pending payout that its wallet covers: the wallet is debited
-- the whole amount, and what is transferred is that amount less its fraction of a rupee.
pub approve_payout_pays :
    (transfers : ℕ → Bool) (id n : ℕ) (b b' : Bank)
    → approve_payout transfers id b ≡ (ok n, b')
    → (p : Payout) × (balance : ℕ) × (find_payout id b.payouts ≡ some p) × IsPaidOut p balance b b'
unfolding approve_payout
approve_payout_pays transfers id n b b' h = elim (Option-cases (find_payout id b.payouts)) [
  | inl missing ↦ absurd (ground arith)
  | inr (p, f) ↦ elim (Bool-cases (is_pending p.status)) [
    | inl pend ↦
        (let h' : approve_from transfers p (b.balances p.org_id) b ≡ (ok n, b') =
            rw (f, approve_payout, pend) at h in
          let (balance, paid) =
            approve_from-ok transfers p (b.balances p.org_id) b b' n refl pend h' in
          (p, balance, f, paid))
    | inr settled ↦ absurd (ground arith)
  ]
]

-- An operation on the wallets that is refused, or whose transfer fails, changes nothing.
pub perform_failed :
    (op : WalletOp) (b b' : Bank) (e : WalletError) → perform op b ≡ (err e, b') → b' ≡ b
unfolding credit_commission request_payout approve_payout approve_from
perform_failed (credit_op org) b b' e h = ground arith
perform_failed (request_op id org (negsuc k)) b b' e h = ground arith
perform_failed (request_op id org (pos amount)) b b' e h = ground arith
perform_failed (approve_op transfers id) b b' e h = ground arith
