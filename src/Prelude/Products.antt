-- ===== src/Prelude/Products.antt =====
-- Products of integers and of numbers.
use bootchart.Prelude.{ℕ, ◌+◌, ◌*◌, ◌≤◌, ◌≡◌, arith}
use bootchart.Prelude.Int.{ℤ, pos, negsuc, ◌+ℤ◌, ◌*ℤ◌, pos_part, neg_part}

pub mul_pos : (a b : ℕ) → pos a *ℤ pos b ≡ pos (a * b)
unfolding ◌*ℤ◌
mul_pos a b = ground arith

pub add_pos : (a b : ℕ) → pos a +ℤ pos b ≡ pos (a + b)
unfolding ◌+ℤ◌
add_pos a b = ground arith

pub times_mono : (a b w : ℕ) → a ≤ b → a * w ≤ b * w
times_mono a b w le = grind arith

-- The parts of a multiple.
pub times_parts :
    (k : ℕ) (a : ℤ)
    → pos_part (pos k *ℤ a) + k * neg_part a ≡ k * pos_part a + neg_part (pos k *ℤ a)
unfolding ◌*ℤ◌
times_parts k (pos n) = ground arith
times_parts k (negsuc n) = ground arith
