-- ===== src/Common/Products.antt =====
-- Products and quotients of numbers, where `omega` needs to be told.
use inferrail.Common.{ℕ, zero, suc, ◌+◌, ◌*◌, ◌≤◌, ◌≡◌, arith}

pub mul_mono_l : (a b n : ℕ) → a ≤ b → a * n ≤ b * n
mul_mono_l zero b n h = ground arith
mul_mono_l (suc a) zero n h = absurd (omega arith)
mul_mono_l (suc a) (suc b) n h = omega (arith, mul_mono_l a b n (omega arith))

pub mul_mono_r : (n a b : ℕ) → a ≤ b → n * a ≤ n * b
mul_mono_r zero a b h = omega arith
mul_mono_r (suc n) a b h = omega (arith, mul_mono_r n a b h)

pub mul_distrib : (a b n : ℕ) → (a + b) * n ≡ a * n + b * n
mul_distrib zero b n = omega arith
mul_distrib (suc a) b n = omega (arith, mul_distrib a b n)

pub mul_mono : (a b c d : ℕ) → a ≤ b → c ≤ d → a * c ≤ b * d
mul_mono a b c d h k = omega (arith, mul_mono_l a b c h, mul_mono_r b c d k)
