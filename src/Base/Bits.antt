-- ===== src/Base/Bits.antt =====
-- Masks over a small range as arithmetic, by evaluating every entry of the table.
use Prim.Native.Nat.{
  ℕ, zero, suc, ◌<◌, ◌≤◌, ◌+◌, ◌*◌, ◌/◌, ◌%◌, max, digits, bit_or, bit_or-bitwise,
}
use mathlib.Core.Path.{◌≡◌, refl, ap, ◌∙◌}
use mathlib.Core.Bool.{Bool, true, false}
use native.Mathlib.Omega.{arith}
use cpp_streamer.Base.Tests.{◌==◌, if◌then◌else◌}

-- The functions agree on every argument below the bound.
module _ (f g : ℕ → ℕ) where
  unfoldable pub agree_below : ℕ → Bool
  agree_below zero = true
  agree_below (suc n) = if f n == g n then agree_below n else false

  pub agree_below→eq : (n : ℕ) → agree_below n ≡ true → (i : ℕ) → i < n → f i ≡ g i
  unfolding agree_below
  agree_below→eq zero e i h = absurd (omega arith)
  agree_below→eq (suc n) e i h = ground (arith, agree_below→eq n (ground arith) i)

digits_zero : (n a : ℕ) → a ≤ n → digits (λ b. b) max n a 0 ≡ a
digits_zero zero a h = omega arith
digits_zero (suc n) zero h = refl
digits_zero (suc n) (suc a) h =
    let low : digits (λ b. b) max n (suc a / 2) 0 ≡ suc a / 2 =
      digits_zero n (suc a / 2) (omega arith) in
    let whole : (suc a / 2) * 2 + max (suc a % 2) 0 ≡ suc a = omega arith in
    ap (λ k. k * 2 + max (suc a % 2) 0) low ∙ whole

-- No digits added.
pub bit_or_zero : (a : ℕ) → bit_or a 0 ≡ a
bit_or_zero a = bit_or-bitwise a 0 ∙ digits_zero a a (omega arith)
