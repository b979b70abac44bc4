-- ===== src/Prelude/Word.antt =====
-- 64-bit words: uint64 and the bit pattern of a 64-bit int, with wrap-around.
use routing_table.Prelude.{ℕ, ◌+◌, ◌-◌, ◌%◌, ◌^◌, ◌≡◌, ◌≤◌, arith}

abbrev pub word_mod : ℕ
word_mod = 2 ^ 64

-- a + b, and a - b as a + (2^64 - b).
abbrev pub add64 : ℕ → ℕ → ℕ
add64 a b = (a + b) % word_mod

abbrev pub sub64 : ℕ → ℕ → ℕ
sub64 a b = (a + (word_mod - b % word_mod)) % word_mod

-- A counter that holds a number modulo 2^64 follows each addition and each true subtraction.
pub add64-mod : (c n k : ℕ) → c ≡ n % word_mod → add64 c k ≡ (n + k) % word_mod
add64-mod c n k h = omega arith

pub sub64-mod : (c n k : ℕ) → k ≤ n → c ≡ n % word_mod → sub64 c k ≡ (n - k) % word_mod
sub64-mod c n k le h = omega arith
