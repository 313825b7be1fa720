-- ===== src/Driver/Float64.antt =====
-- src/coreaudio/ReacJackDriver.c: the double-precision arithmetic that the plug-in's clock uses.
-- The language's Float64 is taken with its operations, and with laws that IEEE 754 gives them.
use reac_jack.Common.{ℕ, Bool}

pub record Float64 : Type 1 where
  pub F : Type 0
  -- `(Float64)n`, and `(UInt64)x`.
  pub of_nat : ℕ → F
  pub to_nat : F → ℕ
  pub fadd : F → F → F
  pub fsub : F → F → F
  pub fmul : F → F → F
  pub fdiv : F → F → F
  pub fabs : F → F
  pub flt : F → F → Bool
  pub fle : F → F → Bool
  pub feq : F → F → Bool
  -- A decimal literal, by its digits and how many of them stand behind the point.
  pub literal : (digits places : ℕ) → F
