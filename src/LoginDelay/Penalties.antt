-- ===== src/LoginDelay/Penalties.antt =====
-- How hard a number of failed logins is punished.
use rauthy.Base.{ℕ, ◌≤◌, ◌≡◌, ◌↔◌, ◌⊎◌, arith}
use rauthy.LoginDelay.{Penalty, block, delay, penalty}

abbrev IsBlock : Penalty → Type 0
IsBlock (block secs) = Unit
IsBlock (delay r) = ⊥

-- The numbers of failed logins at which an address is blocked.
pub penalty-IsBlock_iff :
    (t : ℕ) → IsBlock (penalty t) ↔ ((t ≡ 7) ⊎ (t ≡ 10) ⊎ (t ≡ 15) ⊎ (t ≡ 20) ⊎ (25 ≤ t))
unfolding penalty
penalty-IsBlock_iff t = ground arith

-- Of two numbers of failed logins that both lead to a delay the larger one leads to no shorter one for
-- each failure, and of two that both lead to a block the larger one leads to no shorter one.
pub penalty_mono :
    (t u : ℕ)
    → t ≤ u
    → ((p q : ℕ) → penalty t ≡ delay p → penalty u ≡ delay q → p ≤ q)
      × ((p q : ℕ) → penalty t ≡ block p → penalty u ≡ block q → p ≤ q)
unfolding penalty
penalty_mono t u le = (λ p q a b. ground arith, λ p q a b. ground arith)
