-- ===== src/Prelude/Int.antt =====
-- Signed machine integers (`i16`, `i32`, `i64`) as values; `negsuc n` is -(n + 1).
use Prim.Native.Nat.{ℕ, zero}
use mathlib.Core.Path.{◌≡◌}
use mathlib.Core.Logic.{◌↔◌}
use mathlib.Core.Bool.{Bool, true, false}
use native.Mathlib.Omega.{arith}
use fineract_ai_reports.Prelude.Tests.{PartialEq, nat_beq, string_eq, nat_eq}

pub data ℤ : Type 0 where
  pos : ℕ → ℤ
  negsuc : ℕ → ℤ

abbrev pub int_beq : ℤ → ℤ → Bool
int_beq (pos a) (pos b) = nat_beq a b
int_beq (negsuc a) (negsuc b) = nat_beq a b
int_beq _ _ = false

pub int_beq_iff : (a b : ℤ) → (int_beq a b ≡ true) ↔ (a ≡ b)
int_beq_iff (pos a) (pos b) = ground arith
int_beq_iff (negsuc a) (negsuc b) = ground arith
int_beq_iff (pos a) (negsuc b) = ground arith
int_beq_iff (negsuc a) (pos b) = ground arith

instance abbrev pub int_eq : PartialEq ℤ
int_eq = record { eq = int_beq; eq_law = int_beq_iff }

-- `u64::try_from(x.max(0))`: what is left of a signed count once it is clamped at 0.
abbrev pub non_negative : ℤ → ℕ
non_negative (pos n) = n
non_negative (negsuc n) = zero
