-- ===== src/Ned/App/Touched.antt =====
-- dom0/dom0-ned/server/src/remote_mem.h: the pages that `check_access` allocates are enough.
use l4re_tmp_fs.Base.{
  subst, ℕ, ◌+◌, ◌-◌, ◌%◌, ◌==◌, ◌≤◌, ◌<◌, ◌≡◌, ◌⊎◌, inl, inr, refl, sym, ap, ◌∙◌, Bool, Bool-cases,
  true, false, List, [], ◌∷◌, Option, is_neg, arith, round_page_lem, mod-sub, page-le,
}
use native.Mathlib.Nat.{mod-le, mod-lt}
use l4re_tmp_fs.Ned.App.{trunc_page, round_page, Stack, Space, check_access}

-- Which bytes of the stack's dataspace have memory: a call that succeeds gives it to the bytes it names, and
-- no call takes it back.
pub record Backing {W : Type 0} (space : Space W) (ds : Option ℕ) : Type 1 where
  pub Has : W → ℕ → Type 0
  pub keeps : (o n : ℕ) (w : W) (x : ℕ) → Has w x → Has (space.allocate ds o n w).1 x
  pub gives :
      (o n : ℕ) (w : W)
      → is_neg (space.allocate ds o n w).0 ≡ false
      → (x : ℕ) → o ≤ x
      → x < o + n
      → Has (space.allocate ds o n w).1 x

-- The accesses go downwards: each ends where the one in front of it began, or below, and none is in front of
-- the first byte.
abbrev pub Downward : ℕ → ℕ → List (ℕ × ℕ) → Type 0
Downward first top [] = Unit {0}
Downward first top ((addr, sz) ∷ as') = (first ≤ addr) × (addr + sz ≤ top) × Downward first addr as'

module _ {W : Type 0} (space : Space W) where
  -- An access after the other, up to an error.
  unfoldable pub check_all : List (ℕ × ℕ) → Stack × W → Bool × (Stack × W)
  check_all [] t = (true, t)
  check_all ((addr, sz) ∷ rest) t =
      let r = check_access space addr sz t in elim (r.0) [ true ↦ check_all rest r.1 | false ↦ r ]

  check_all_step :
      (addr sz : ℕ) (rest : List (ℕ × ℕ)) (t r : Stack × W)
      → check_access space addr sz t ≡ (true, r)
      → check_all ((addr, sz) ∷ rest) t ≡ check_all rest r
  unfolding check_all
  check_all_step addr sz rest t r e =
      ap
        (λ (q : Bool × (Stack × W)). elim (q.0) as (λ _. Bool × (Stack × W)) [
          | true ↦ check_all rest q.1
          | false ↦ q
        ])
        e

  module _ (s : Stack) (backing : Backing space s.stack_ds) where
    open space use {page_size}
    open backing use {Has, keeps, gives}

    -- The bytes of the accesses have memory.
    abbrev pub AllHave : List (ℕ × ℕ) → W → Type 0
    AllHave [] w = Unit {0}
    AllHave ((addr, sz) ∷ rest) w =
        ((x : ℕ) → addr ≤ x → x < addr + sz → Has w (x - s.vma)) × AllHave rest w

    -- The stack, with the page of the last access.
    abbrev last : ℕ → Stack
    last l = record s { last_checked = l }

    -- In front of the address `top` the page of the last access has memory.
    abbrev Ready : ℕ → ℕ → W → Type 0
    Ready top l w =
        (l ≡ 0)
        ⊎ ((l ≡ trunc_page page_size top)
            × ((x : ℕ) → trunc_page page_size top ≤ x → x < top → Has w (x - s.vma)))

    -- What an access has done that ended without an error.
    Accessed : ℕ → ℕ → ℕ → W → Type 0
    Accessed addr sz l w =
        (l' : ℕ) × (w' : W) × (check_access space addr sz (last l, w) ≡ (true, (last l', w')))
        × Ready addr l' w'
        × ((x : ℕ) → addr ≤ x → x < addr + sz → Has w' (x - s.vma))
        × ((x : ℕ) → Has w x → Has w' x)

    module _ (pos : 0 < page_size) (some_v : 0 < s.vma) (start : s.vma % page_size ≡ 0) where
      access :
          (addr sz top l : ℕ) (w : W)
          → s.vma ≤ addr
          → addr + sz ≤ top
          → Ready top l w
          → (check_access space addr sz (last l, w)).0 ≡ true
          → Accessed addr sz l w
      unfolding check_access Accessed
      access addr sz top l w le below i ok = elim (Bool-cases (l == trunc_page page_size addr)) [
        | inl e ↦
            let same : l ≡ trunc_page page_size addr = ground arith in
            elim i [
              | inl never ↦
                  absurd
                    (omega (arith, same, page-le s.vma page_size some_v start, mod-lt addr pos))
              | inr (page, has) ↦ (
                l,
                w,
                rw e refl,
                inr (same, λ x a b. has x (omega (arith, same, page, a)) (omega (arith, b, below))),
                λ x a b.
                    has x (omega (arith, same, page, a, mod-le addr page_size))
                      (omega (arith, b, below)),
                λ x h. h,
              )
            ]
        | inr e ↦
            let offs = trunc_page page_size (addr - s.vma) in
            let end = round_page page_size (addr + sz - s.vma) in
            let m = mod-sub addr s.vma page_size start le in
            let r = round_page_lem (addr + sz - s.vma) page_size pos in
            elim (Bool-cases (is_neg (space.allocate s.stack_ds offs (end - offs) w).0)) [
              | inl bad ↦
                  let no : (check_access space addr sz (last l, w)).0 ≡ false = rw (e, bad) refl in
                  absurd (ground arith)
              | inr good ↦
                  let has : (x : ℕ)
                      → trunc_page page_size addr ≤ x
                      → x < addr + sz
                      → Has (space.allocate s.stack_ds offs (end - offs) w).1 (x - s.vma) =
                    λ x a b.
                      gives offs (end - offs) w good (x - s.vma)
                        (omega
                          (arith, m, a, mod-le addr page_size, mod-le (addr - s.vma) page_size, le))
                        (omega (
                          arith,
                          r.0,
                          m,
                          a,
                          b,
                          mod-le addr page_size,
                          mod-le (addr - s.vma) page_size,
                          le,
                        )) in
                  (
                    trunc_page page_size addr,
                    (space.allocate s.stack_ds offs (end - offs) w).1,
                    rw (e, good) refl,
                    inr (refl, λ x a b. has x a (omega (arith, b))),
                    λ x a b. has x (omega (arith, a, mod-le addr page_size)) b,
                    keeps offs (end - offs) w,
                  )
            ]
      ]

      -- The theorem on a stack that has been in use.
      check_from :
          (accesses : List (ℕ × ℕ)) (top l : ℕ) (w : W)
          → Downward s.vma top accesses
          → Ready top l w
          → (check_all accesses (last l, w)).0 ≡ true
          → AllHave accesses (check_all accesses (last l, w)).1.1
            × ((x : ℕ) → Has w x → Has (check_all accesses (last l, w)).1.1 x)
      unfolding check_all Accessed
      check_from [] top l w down i ok = (tt, λ x h. h)
      check_from ((addr, sz) ∷ rest) top l w (le, below, down) i ok =
          elim (Bool-cases (check_access space addr sz (last l, w)).0) [
            | inr f ↦
                let no : (check_all ((addr, sz) ∷ rest) (last l, w)).0 ≡ false =
                  rw (check_all, f) f in
                absurd (ground arith)
            | inl t ↦
                let (l', w', e, page, has, keep) = access addr sz top l w le below i t in
                let step = check_all_step addr sz rest (last l, w) (last l', w') e in
                let r = check_from rest addr l' w' down page (ap (λ z. z.0) (sym step) ∙ ok) in
                subst (λ z. AllHave ((addr, sz) ∷ rest) z.1.1 × ((x : ℕ) → Has w x → Has z.1.1 x))
                  (sym step) ((λ x a b. r.1 (x - s.vma) (has x a b), r.0), λ x h. r.1 x (keep x h))
          ]

      -- Accesses that go downwards in the attached stack, as those of pushes do, are all to bytes that have
      -- memory when no error was thrown, although `check_access` does nothing when an access begins in the page
      -- in which the last one began.
      pub check_all_lem :
          (accesses : List (ℕ × ℕ)) (top : ℕ) (w : W)
          → Downward s.vma top accesses
          → (check_all accesses (last 0, w)).0 ≡ true
          → AllHave accesses (check_all accesses (last 0, w)).1.1
      check_all_lem accesses top w down ok = (check_from accesses top 0 w down (inl refl) ok).0
