-- ===== src/Base/Int.antt =====
-- Signed integers over the native numbers, under the library's names, and the two's complement
-- readings of a machine word.
use Prim.Native.Nat.{ℕ, zero, suc, ◌+◌, ◌-◌, ◌%◌, ◌*◌, ◌≤◌, ◌<◌}
use mathlib.Core.Path.{◌≡◌, refl}
use mathlib.Core.Bool.{Bool, true, false}
use native.Mathlib.Omega.{arith}
use native.Mathlib.Nat.{mod-eq_of_lt}
use l4re_tmp_fs.Base.Tests.{leb, ltb, ◌==◌, if◌then◌else◌}

-- `negsuc n` is -(n + 1).
pub data ℤ : Type 0 where
  pos : ℕ → ℤ
  negsuc : ℕ → ℤ

-- The integer -n.
abbrev pub neg : ℕ → ℤ
neg zero = pos 0
neg (suc n) = negsuc n

abbrev pub pos_part : ℤ → ℕ
pos_part (pos n) = n
pos_part (negsuc n) = 0

abbrev pub neg_part : ℤ → ℕ
neg_part (pos n) = 0
neg_part (negsuc n) = suc n

abbrev pub sub_ℕ : ℕ → ℕ → ℤ
sub_ℕ a b = if leb b a then pos (a - b) else negsuc (b - a - 1)

infixl 65 ◌+ℤ◌
infix 50 ◌≤ℤ◌
unfoldable pub ◌+ℤ◌ : ℤ → ℤ → ℤ
a +ℤ b = sub_ℕ (pos_part a + pos_part b) (neg_part a + neg_part b)

abbrev pub ◌≤ℤ◌ : ℤ → ℤ → Type 0
a ≤ℤ b = pos_part a + neg_part b ≤ pos_part b + neg_part a

abbrev pub is_neg : ℤ → Bool
is_neg (pos n) = false
is_neg (negsuc n) = true

abbrev pub is_zero : ℤ → Bool
is_zero (pos n) = n == 0
is_zero (negsuc n) = false

pub +ℤ_parts :
    (a b : ℤ)
    → pos_part (a +ℤ b) + neg_part a + neg_part b ≡ neg_part (a +ℤ b) + pos_part a + pos_part b
unfolding ◌+ℤ◌
+ℤ_parts a b = ground arith

-- The unsigned word of `w` values that a signed value is converted to.
unfoldable pub to_word : ℕ → ℤ → ℕ
to_word w (pos n) = n % w
to_word w (negsuc n) = (w - 1) - n % w

pub to_word_lt : (w : ℕ) (z : ℤ) → 0 < w → to_word w z < w
unfolding to_word
to_word_lt w (pos n) h = omega arith
to_word_lt w (negsuc n) h = omega arith

-- The signed reading of a word of `w` values.
unfoldable pub signed : ℕ → ℕ → ℤ
signed w n = if ltb (2 * (n % w)) w then pos (n % w) else negsuc ((w - 1) - n % w)

pub signed_small : (w n : ℕ) → 2 * n < w → signed w n ≡ pos n
unfolding signed
signed_small w n h =
    let small : n % w ≡ n = mod-eq_of_lt (omega arith) in
    let less : ltb (2 * n) w ≡ true = ground arith in rw (small, less) refl
