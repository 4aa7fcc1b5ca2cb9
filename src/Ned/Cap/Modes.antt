-- ===== src/Ned/Cap/Modes.antt =====
-- dom0/dom0-ned/server/src/lua_cap.cc: what `mode` and `svr` make of the rights of a capability.
use l4re_tmp_fs.Base.{
  Bool, ◌&&◌, ◌^◌, ◌==◌, ℕ, zero, suc, ◌<◌, ◌≡◌, refl, ◌∙◌, Bool-cases, true, false, ◌||◌, List, [],
  ◌∷◌, Option, none, some, ltb, arith, c_string, inl, inr,
}
use native.Mathlib.Nat.{zero-div}
use l4re_tmp_fs.Ned.Cap.{
  is, Rights, union, field, CapFpage, Cap, new_cap, Top, argument, clone, integer, crash, same,
  set_rights, lua_set_rights, letter, add_letters, string, set_mode_call, full, bits,
}

-- The rights that a capability has after `set_rights`.
unfoldable pub kept : CapFpage → Rights → Rights
kept k r = field 16 (union (field 8 r) k.ro)

-- The rights are those that `set_rights` keeps.
unfoldable pub IsKept : CapFpage → Rights → Type 0
IsKept k r = (i : ℕ) → r i ≡ kept k r i

-- The capability on top of the stack, where `n` is the first argument.
unfoldable pub on_top : Cap → Top → Option Cap
on_top n argument = some n
on_top n (clone t) = some t
on_top n (integer r) = none
on_top n crash = none

abbrev contains : ℕ → List ℕ → Bool
contains x [] = false
contains x (b ∷ s) = b == x || contains x s

-- The letters of a mode, small and capital, and the right that each stands for.
abbrev pub letters : CapFpage → List (ℕ × ℕ × Rights)
letters k =
    (b'r', b'R', k.r)
    ∷ (b'w', b'W', k.w)
    ∷ (b's', b'S', k.s)
    ∷ (b'd', b'D', k.d)
    ∷ (b'n', b'N', bits 0x10)
    ∷ (b'c', b'C', bits 0x20)
    ∷ []

-- The rights of those letters that occur in the string.
unfoldable pub named_in : List (ℕ × ℕ × Rights) → List ℕ → Rights
named_in [] s i = false
named_in ((x, y, r) ∷ t) s i = (contains x s || contains y s) && r i || named_in t s i

unfoldable pub named : CapFpage → List ℕ → Rights
named k s = named_in (letters k) s

-- A capability for the object of `n`, with its flags, and with what is kept of the rights `r`.
unfoldable pub Grants : CapFpage → Cap → Rights → Top → Type 0
Grants k n r top =
    (t : Cap) × (on_top n top ≡ some t)
    × (t.c ≡ n.c)
    × (t.flags ≡ n.flags)
    × ((i : ℕ) → t.all_rights i ≡ kept k r i)
    × IsKept k t.all_rights

same_lem : (w : ℕ) (r s : Rights) → same w r s ≡ true → (i : ℕ) → i < w → r i ≡ s i
unfolding same
same_lem zero r s h i lt = absurd (omega arith)
same_lem (suc w) r s h i lt = elim (Bool-cases (i == w)) [
  | inl e ↦ ground arith
  | inr e ↦ same_lem w r s (ground arith) i (ground arith)
]

parts :
    (p q c d v a b n m : Bool)
    → n ≡ (a || m)
    → ((p || c) || (q || d)) && v || n
      ≡ (((p || false) || (q || false)) && v || a) || ((c || d) && v || m)
parts p q c d v a b n m h = ground arith

named_in_cons :
    (t : List (ℕ × ℕ × Rights)) (b : ℕ) (s : List ℕ) (i : ℕ)
    → named_in t (b ∷ s) i ≡ (named_in t (b ∷ []) i || named_in t s i)
unfolding named_in
named_in_cons [] b s i = refl
named_in_cons ((x, y, r) ∷ t) b s i =
    parts (b == x) (b == y) (contains x s) (contains y s) (r i) (named_in t (b ∷ []) i) false
      (named_in t (b ∷ s) i) (named_in t s i) (named_in_cons t b s i)

no_bits : (i : ℕ) → bits 0 i ≡ false
unfolding bits
no_bits i = rw (zero-div (2 ^ i)) refl

-- A letter of the switch is one of the table.
letter_lem : (k : CapFpage) (b i : ℕ) → letter k b i ≡ named k (b ∷ []) i
unfolding letter named named_in is
letter_lem k b i = ground (arith, no_bits i)

add_letters_lem :
    (k : CapFpage) (s : List ℕ) (r : Rights) (i : ℕ) → add_letters k s r i ≡ (r i || named k s i)
unfolding add_letters named named_in union
add_letters_lem k [] r i = ground arith
add_letters_lem k (b ∷ s) r i =
    add_letters_lem k s (union r (letter k b)) i
    ∙ ground (arith, letter_lem k b i, named_in_cons (letters k) b s i)

module _ (k : CapFpage) where
  kept_agree : (r s : Rights) (i : ℕ) → ((j : ℕ) → j < 32 → r j ≡ s j) → kept k r i ≡ kept k s i
  unfolding kept field union
  kept_agree r s i h = elim (Bool-cases (ltb i 8)) [
    | inl e ↦ ground (arith, h i)
    | inr e ↦ ground arith
  ]

  pub kept-IsKept : (r : Rights) → IsKept k (kept k r)
  unfolding kept IsKept field union
  kept-IsKept r i = ground arith

  -- Whatever rights are asked for, the result is the same object with the same flags, and its rights are
  -- what is kept of them.
  pub lua_set_rights_lem :
      (r : Rights) (n : Cap) → IsKept k n.all_rights → Grants k n r (lua_set_rights k r n)
  unfolding lua_set_rights set_rights Grants on_top kept IsKept
  lua_set_rights_lem r n h = elim (Bool-cases (same 32 n.all_rights r)) [
    | inl e ↦ rw e (
      n,
      refl,
      refl,
      refl,
      λ i. h i ∙ kept_agree n.all_rights r i (same_lem 32 n.all_rights r e),
      h,
    )
    | inr e ↦ rw e (set_rights k r n, refl, refl, refl, λ i. refl, kept-IsKept r)
  ]

  -- A new capability has the rights that `set_rights` keeps of none.
  pub new_cap-IsKept : (c : ℕ) (flags : Rights) → IsKept k (new_cap k c flags).all_rights
  unfolding new_cap IsKept kept field union
  new_cap-IsKept c flags i = ground arith

  Grants-agree :
      (n : Cap) (r s : Rights) (top : Top)
      → ((i : ℕ) → r i ≡ s i)
      → Grants k n r top
      → Grants k n s top
  unfolding Grants
  Grants-agree n r s top h (t, e, c, f, all, i) =
      (t, e, c, f, λ j. all j ∙ kept_agree r s j (λ m lt. h m), i)

  -- `mode` with a string, on a capability with rights that `set_rights` keeps, puts a capability on the
  -- stack that is for the same object and has the same flags. Its rights are what `set_rights` keeps of the
  -- read right and the rights that the letters of the string name, so that `mode` and `svr` may be used
  -- on it again.
  pub set_mode_call_lem :
      (s : List ℕ) (n : Cap)
      → IsKept k n.all_rights
      → Grants k n (union k.r (named k (c_string s))) (set_mode_call k (some (string s)) n)
  unfolding set_mode_call union
  set_mode_call_lem s n h =
      Grants-agree n (add_letters k (c_string s) k.r) (union k.r (named k (c_string s)))
        (lua_set_rights k (add_letters k (c_string s) k.r) n) (add_letters_lem k (c_string s) k.r)
        (lua_set_rights_lem (add_letters k (c_string s) k.r) n h)

  -- `svr` asks for the lowest eight bits, less the fifth.
  pub full_lem : (n : Cap) → IsKept k n.all_rights → Grants k n (bits 0xef) (full k n)
  unfolding full
  full_lem n h = lua_set_rights_lem (bits 0xef) n h
