-- ===== src/Workflow/Graph/Unseen.antt =====
-- The indices that a set does not hold yet: what a search over a graph has left to find.
use fineract_ai_reports.Prelude.{
  nat_beq, if◌then◌else◌, nat_beq_iff, Bool-cases, string_eq, nat_eq, int_eq, ℕ, zero, suc, ◌≤◌,
  ◌<◌, ◌≡◌, inl, inr, Bool, true, false, arith,
}

-- How many numbers below `n` fail the test
abbrev pub unseen : (ℕ → Bool) → ℕ → ℕ
unseen test zero = 0
unseen test (suc n) = if test n then unseen test n else suc (unseen test n)

pub unseen-le : (test : ℕ → Bool) (n : ℕ) → unseen test n ≤ n
unseen-le test zero = omega arith
unseen-le test (suc n) = ground (arith, unseen-le test n)

pub unseen_mono :
    (before after : ℕ → Bool) (n : ℕ)
    → ((i : ℕ) → before i ≡ true → after i ≡ true)
    → unseen after n ≤ unseen before n
unseen_mono before after zero keep = omega arith
unseen_mono before after (suc n) keep = ground (arith, keep n, unseen_mono before after n keep)

-- A number that is found makes fewer unseen ones.
pub unseen-found :
    (before after : ℕ → Bool) (n : ℕ) {j : ℕ}
    → ((i : ℕ) → before i ≡ true → after i ≡ true)
    → j < n
    → before j ≡ false
    → after j ≡ true
    → unseen after n < unseen before n
unseen-found before after zero keep small was is = absurd (omega arith)
unseen-found before after (suc n) {j} keep small was is = elim (Bool-cases (nat_beq j n)) [
  | inl t ↦
      let same = (nat_beq_iff j n).0 t in
      let was' : before n ≡ false = rw (← same) was in
      let is' : after n ≡ true = rw (← same) is in
      ground (arith, was', is', unseen_mono before after n keep)
  | inr f ↦
      let inner = unseen-found before after n keep (ground arith) was is in
      ground (arith, keep n, inner)
]
