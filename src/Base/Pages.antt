-- ===== src/Base/Pages.antt =====
-- The arithmetic of pages of `p` bytes, as dom0/dom0-ned and dom0/dom0-l4re_kernel use it.
use Prim.Native.Nat.{ℕ, ◌+◌, ◌-◌, ◌%◌, ◌≤◌, ◌<◌}
use mathlib.Core.Path.{◌≡◌, sym, ap, ◌∙◌}
use mathlib.Core.Logic.{inl, inr}
use l4re_tmp_fs.Base.Tests.{Bool-cases, ltb, ltb→lt}
use native.Mathlib.Omega.{arith}
use native.Mathlib.Nat.{mod-lt, mod-eq_of_lt, add-mod, mod-le, mod-mod}

pub round_page_lem :
    (a p : ℕ) → 0 < p → let b = (a + p - 1) - (a + p - 1) % p in (a ≤ b) × (b < a + p)
round_page_lem a p h = omega (arith, mod-lt (a + p - 1) h)

-- An address in the page that starts at `v`.
pub page_of : (v i p : ℕ) → v % p ≡ 0 → i < p → (v + i) - (v + i) % p ≡ v
page_of v i p h k =
    let rest : (v + i) % p ≡ i =
      add-mod v i p ∙ rw (h, mod-eq_of_lt k) (mod-eq_of_lt (omega arith) ∙ omega arith) in
    omega (arith, rest)

pub in_page : (o p : ℕ) → 0 < p → o - (o - o % p) < p
in_page o p h = omega (arith, mod-lt o h, mod-le o p)

-- Pages counted from an address where one starts.
pub mod-sub : (a v p : ℕ) → v % p ≡ 0 → v ≤ a → (a - v) % p ≡ a % p
mod-sub a v p h le =
    let b = a - v in
    let rest : (v + b) % p ≡ b % p =
      add-mod v b p ∙ rw h (ap (λ n. n % p) (omega arith) ∙ mod-mod b p) in
    sym (ap (λ n. n % p) (omega arith) ∙ rest)

pub page-le : (v p : ℕ) → 0 < v → v % p ≡ 0 → p ≤ v
page-le v p pos h = elim (Bool-cases (ltb v p)) [
  | inl less ↦ let lt : v < p = ltb→lt v p less in absurd (omega (arith, mod-eq_of_lt lt))
  | inr other ↦ ground arith
]
