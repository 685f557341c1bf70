-- ===== src/Prelude/Int.antt =====
-- Go's `int`, unbounded: the program compares such values and adds one to some, and never wraps.
use Prim.Native.Nat.{ℕ}
use mathlib.Core.Bool.{Bool, true, false}
use native.Mathlib.Decide.{ℕ_discrete}
use bitci.Prelude.Tests.{ltb}
use bitci.Prelude.Equality.{Eq}

pub data ℤ : Type 0 where
  pos : ℕ → ℤ
  negsuc : ℕ → ℤ

abbrev pub ltℤ : ℤ → ℤ → Bool
ltℤ (pos a) (pos b) = ltb a b
ltℤ (pos a) (negsuc b) = false
ltℤ (negsuc a) (pos b) = true
ltℤ (negsuc a) (negsuc b) = ltb b a

ℤ_discrete : Discrete ℤ
ℤ_discrete = hlevel ℕ_discrete

instance unfoldable pub int_eq : Eq ℤ
unfolding ℤ_discrete
int_eq = record { dec = ℤ_discrete }
