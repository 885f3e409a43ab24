-- ===== src/Control/Credits.antt =====
-- internal/control/credits.go: the credit ledger. Each method holds the mutex from its first read to
-- its return, so calls of several goroutines are a sequence of calls.
use gpuswarm.Common.{ℕ, ◌+◌, ◌≤◌, Bool, true, false, List, [], ◌∷◌, ◌≡◌, ◌↔◌, arith, if◌then◌else◌}
use gpuswarm.Common.Int.{
  ℤ, pos, pos_part, ◌+ℤ◌, ◌-ℤ◌, ◌≤ℤ◌, leb_ℤ, ltb_ℤ, wrap64, wrap64_of_IsInt64, +ℤ_parts, -ℤ_parts,
}

pub record CreditLedger : Type 0 where
  pub balance : ℤ

unfoldable pub new_credit_ledger : ℤ → CreditLedger
new_credit_ledger initial = record { balance = initial }

unfoldable pub spend : CreditLedger → ℤ → CreditLedger × Bool
spend l v =
    if leb_ℤ v (pos 0)
    then (l, true)
    else if ltb_ℤ l.balance v
    then (l, false)
    else (record l { balance = wrap64 (l.balance -ℤ v) }, true)

unfoldable pub earn : CreditLedger → ℤ → CreditLedger
earn l v = if leb_ℤ v (pos 0) then l else record l { balance = wrap64 (l.balance +ℤ v) }

-- One call, and the calls of all goroutines in the order in which they get the mutex.
pub data Call : Type 0 where
  spends earns : ℤ → Call

unfoldable pub step : CreditLedger → Call → CreditLedger
unfolding spend earn
step l (spends v) = (spend l v).0
step l (earns v) = earn l v

unfoldable pub run : CreditLedger → List Call → CreditLedger
unfolding step
run l [] = l
run l (c ∷ cs) = run (step l c) cs

-- What a call adds to the credits ever earned, and to those ever spent.
unfoldable pub earned_by : Call → ℕ
earned_by (spends v) = 0
earned_by (earns v) = pos_part v

unfoldable pub spent_by : CreditLedger → Call → ℕ
unfolding spend
spent_by l (spends v) = if (spend l v).1 then pos_part v else 0
spent_by l (earns v) = 0

unfoldable pub earned : List Call → ℕ
unfolding earned_by
earned [] = 0
earned (c ∷ cs) = earned_by c + earned cs

unfoldable pub spent : CreditLedger → List Call → ℕ
unfolding spent_by step
spent l [] = 0
spent l (c ∷ cs) = spent_by l c + spent (step l c) cs

-- A balance in the range of int64 and not negative, with room for `more`.
pub record HasRoom (l : CreditLedger) (more : ℕ) : Type 0 where
  pub funded : pos 0 ≤ℤ l.balance
  pub fits : pos_part l.balance + more ≤ 0x7fff_ffff_ffff_ffff

-- One step moves the balance by what was earned and spent, and never below zero.
pub record Accounts (l l' : CreditLedger) (plus minus : ℕ) : Type 0 where
  pub funded : pos 0 ≤ℤ l'.balance
  pub moved : pos_part l'.balance + minus ≡ pos_part l.balance + plus

-- What is not negative and below 2^63 is not wrapped.
wrap64_small : (a : ℤ) → pos 0 ≤ℤ a → pos_part a ≤ 0x7fff_ffff_ffff_ffff → wrap64 a ≡ a
wrap64_small a h k = wrap64_of_IsInt64 a (record { lower = omega arith; upper = omega arith })

spend-Accounts :
    (l : CreditLedger) (v : ℤ)
    → HasRoom l 0
    → Accounts l (step l (spends v)) 0 (spent_by l (spends v))
unfolding step spent_by spend
spend-Accounts l v h = ground (arith, -ℤ_parts l.balance v, wrap64_small (l.balance -ℤ v))

earn-Accounts :
    (l : CreditLedger) (v : ℤ)
    → HasRoom l (pos_part v)
    → Accounts l (step l (earns v)) (pos_part v) 0
unfolding step earn
earn-Accounts l v h = ground (arith, +ℤ_parts l.balance v, wrap64_small (l.balance +ℤ v))

step-Accounts :
    (l : CreditLedger) (c : Call)
    → HasRoom l (earned_by c)
    → Accounts l (step l c) (earned_by c) (spent_by l c)
unfolding earned_by spent_by
step-Accounts l (spends v) h = spend-Accounts l v h
step-Accounts l (earns v) h = earn-Accounts l v h

-- Over any interleaving of calls the balance is what was there, plus what was earned, minus what
-- was spent, and it is never negative, provided that it is not negative at the start and that, with
-- all that is earned added, it fits in an int64.
pub run-Accounts :
    (cs : List Call) (l : CreditLedger)
    → HasRoom l (earned cs)
    → Accounts l (run l cs) (earned cs) (spent l cs)
unfolding run earned spent
run-Accounts [] l h = record { funded = h.funded; moved = omega arith }
run-Accounts (c ∷ cs) l h =
    let one = step-Accounts l c (record { funded = h.funded; fits = omega arith }) in
    let rest = run-Accounts cs (step l c) (record { funded = one.funded; fits = omega arith }) in
    record { funded = rest.funded; moved = omega arith }

-- A call of Spend fails exactly when it asks for a positive amount that the balance does not cover,
-- and then the ledger stays as it was.
pub spend_fails_iff :
    (l : CreditLedger) (v : ℤ)
    → ((spend l v).1 ≡ false)
      ↔ ((leb_ℤ v (pos 0) ≡ false) × (ltb_ℤ l.balance v ≡ true) × ((spend l v).0 ≡ l))
unfolding spend
spend_fails_iff l v = (λ h. ground arith, λ h. ground arith)
