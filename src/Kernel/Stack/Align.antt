-- ===== src/Kernel/Stack/Align.antt =====
-- dom0/dom0-l4re_kernel/server/src/loader.h: what `align` aligns to.
use l4re_tmp_fs.Base.{
  ℕ, zero, suc, ◌+◌, ◌-◌, ◌*◌, ◌%◌, ◌^◌, ◌≤◌, ◌<◌, ◌≡◌, ◌⊎◌, inl, inr, refl, Bool-cases, arith, leb,
  subst, ◌/◌,
}
use native.Mathlib.Nat.{mod-lt, div-add-mod, mul-mod_right, two-pow-succ}
use l4re_tmp_fs.Kernel.Stack.{State, align, align_bits}

-- The loop ends at the first power of two above `size`.
align_bits_lem :
    (rounds bits size : ℕ)
    → size < 2 ^ (bits + rounds)
    → (bits ≡ 0) ⊎ (2 ^ bits ≤ 2 * size)
    → let b = align_bits rounds bits size in (size < 2 ^ b) × ((b ≡ 0) ⊎ (2 ^ b ≤ 2 * size))
unfolding align_bits
align_bits_lem zero bits size h k = (subst (λ n. size < 2 ^ n) (omega arith) h, k)
align_bits_lem (suc rounds) bits size h k = elim (Bool-cases (leb (2 ^ bits) size)) [
  | inl e ↦ rw e (
      align_bits_lem rounds (suc bits) size (subst (λ n. size < 2 ^ n) (omega arith) h)
        (inr (rw (two-pow-succ bits) (ground arith))))
  | inr e ↦ rw e (ground arith, k)
]

sub_mod : (p m : ℕ) → 0 < m → (p - p % m) % m ≡ 0
sub_mod p m h = subst (λ q. q % m ≡ 0) (omega (arith, div-add-mod p m)) (mul-mod_right m (p / m))

-- `align` moves the pointer down to a multiple of a power of two above `size`, by less than that power.
pub align_lem :
    (rounds size : ℕ) (s : State)
    → size < 2 ^ rounds
    → (b : ℕ) × (size < 2 ^ b)
      × ((b ≡ 0) ⊎ (2 ^ b ≤ 2 * size))
      × ((align rounds size s).stack.sp % 2 ^ b ≡ 0)
      × ((align rounds size s).stack.sp ≤ s.stack.sp)
      × (s.stack.sp < (align rounds size s).stack.sp + 2 ^ b)
unfolding align
align_lem rounds size s h =
    let found =
      align_bits_lem rounds 0 size (subst (λ n. size < 2 ^ n) (omega arith) h) (inl refl) in
    let b : ℕ = align_bits rounds 0 size in
    let pos : 0 < 2 ^ b = omega (arith, found) in
    (
      b,
      found.0,
      found.1,
      sub_mod s.stack.sp (2 ^ b) pos,
      omega arith,
      omega (arith, mod-lt s.stack.sp pos),
    )
