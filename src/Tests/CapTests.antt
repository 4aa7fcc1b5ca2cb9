-- ===== src/Tests/CapTests.antt =====
-- The theorems on the capabilities and name spaces of dom0/dom0-ned, applied.
use l4re_tmp_fs.Base.{
  Bool, true, false, ◌&&◌, ◌||◌, not, ltb, ◌==◌, ℕ, suc, ◌≡◌, refl, inr, none, some, List, [], ◌∷◌,
  pos, neg, to_word, c_string, arith,
}
use l4re_tmp_fs.Ned.Cap.{
  bits, union, CapFpage, Cap, argument, new_cap, set_mode_call, string, number, lua_set_rights,
  same, field,
}
use l4re_tmp_fs.Ned.Cap.Modes.{named, Grants, new_cap-IsKept, set_mode_call_lem}
use l4re_tmp_fs.Ned.Namespace.{L4re, query, lookup}
use l4re_tmp_fs.Ned.Namespace.Slots.{Slots, Looked, lookup_lem}

abbrev fpage_rights : CapFpage
fpage_rights = record {
  ro = bits 4;
  r = bits 4;
  w = bits 1;
  s = bits 2;
  d = bits 8;
  rwsd = bits 15;
}

abbrev cap : Cap
cap = new_cap fpage_rights 7 (bits 0)

abbrev mode : List ℕ
mode = b'w' ∷ b'S' ∷ 0 ∷ []

set_mode_call_example :
    Grants fpage_rights cap
      (union (bits 4) (named fpage_rights (b'w' ∷ b'S' ∷ [])))
      (set_mode_call fpage_rights (some (string mode)) cap)
unfolding c_string
set_mode_call_example =
    set_mode_call_lem fpage_rights mode cap (new_cap-IsKept fpage_rights 7 (bits 0))

-- Asking for the rights that a capability has leaves it on the stack.
same_rights : set_mode_call fpage_rights (some (number (pos 4))) cap ≡ argument
unfolding set_mode_call lua_set_rights same new_cap field bits to_word
same_rights = refl

-- A machine whose slots are taken in their order, with a slot that is freed last, and that knows the name `a`
-- only: the number of the next slot, and what is in use. No object of LUA refers to a slot.
abbrev Slotted : Type 0
Slotted = ℕ × (ℕ → Bool)

abbrev below : ℕ → (ℕ → Bool) → ℕ → Bool
below n used i = ltb i n && used i

abbrev l4re : L4re Slotted
l4re = record {
  enoent = 2;
  overwrite = bits 0x10;
  invalid = 0;
  alloc = λ w. (some (w.0), (suc (w.0), λ i. w.0 == i || below w.0 w.1 i));
  free = λ o w. (w.0, λ i. below w.0 w.1 i && not (o == i));
  unwind = λ o w. w;
  collect = λ w. w;
  query = λ ns name o w. (elim name [ [] ↦ neg 2 | _ ∷ _ ↦ pos 0 ], w);
  unlink = λ ns name w. (pos 0, w);
  register_obj = λ ns name c r w. (pos 0, w);
  link = λ ns name s t r w. (pos 0, w);
}

freed_lem : (n i : ℕ) (b c : Bool) → (ltb i n && ((ltb i n && b) && c)) ≡ ((ltb i n && b) && c)
freed_lem n i b c = ground arith

taken_lem :
    (n i : ℕ) (b : Bool)
    → (ltb i (suc n) && (n == i || (ltb i n && b))) ≡ (n == i || (ltb i n && b))
taken_lem n i b = ground arith

slots : Slots l4re
slots = record {
  used = λ w i. below w.0 w.1 i;
  owned = λ w i. false;
  alloc_lem = λ w. inr (w.0, refl, ground arith, refl, λ i. taken_lem w.0 i (w.1 i), λ i ne. refl);
  free_lem = λ o w u i. freed_lem w.0 i (w.1 i) (not (o == i));
  collect_lem = λ w i. (λ u. u, λ u c. u);
  query_lem = λ ns name o w i. refl;
}

lookup_example :
    let up = query fpage_rights l4re cap (b'a' ∷ []) none in
    let r = lookup fpage_rights l4re up (3, λ i. true) in
    Looked l4re slots fpage_rights up.rights (3, λ i. true) r.0 r.1
lookup_example =
    lookup_lem fpage_rights l4re slots (query fpage_rights l4re cap (b'a' ∷ []) none) (3, λ i. true)
