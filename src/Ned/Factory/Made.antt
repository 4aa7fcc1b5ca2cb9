-- ===== src/Ned/Factory/Made.antt =====
-- dom0/dom0-ned/server/src/lua_factory.cc and lua_env.cc: the slots and the rights of the capabilities that they
-- make.
use l4re_tmp_fs.Base.{ℕ, ◌≡◌, ◌==◌, ◌||◌, false, inl, inr, ◌∙◌, Bool-cases, List, ℤ, is_neg}
use l4re_tmp_fs.Libfs.Svr.{Method}
use l4re_tmp_fs.Ned.Cap.{bits, CapFpage, Cap, set}
use l4re_tmp_fs.Ned.Cap.Modes.{IsKept, new_cap-IsKept}
use l4re_tmp_fs.Ned.Model.{Value}
use l4re_tmp_fs.Ned.Namespace.{L4re, Result, raised, nil, pushed, old}
use l4re_tmp_fs.Ned.Namespace.Slots.{Slots}
use l4re_tmp_fs.Ned.Factory.{Item, items, create_in, create_object}

module _ {W : Type 0} (k : CapFpage) (l4re : L4re W) (create : ℕ → ℕ → ℤ → List Item → Method W ℤ)
    (slots : Slots l4re)
    (create_slots : (f o : ℕ) (t : ℤ) (xs : List Item) (w : W) (i : ℕ)
      → slots.used (create f o t xs w).1 i ≡ slots.used w i) where
  open slots use {used, alloc_lem}

  -- A new object is in a slot that was not in use, no other slot changes, and `mode` and `svr` may be used on
  -- it.
  unfoldable pub Made : W → Result → W → Type 0
  Made w (pushed c) w' =
      (used w c.c ≡ false) × ((i : ℕ) → used w' i ≡ (c.c == i || used w i)) × IsKept k c.all_rights
  Made w nil w' = ⊥
  Made w raised w' = Unit {0}
  Made w old w' = ⊥

  -- The call of the factory with a slot that was allocated.
  in_lem :
      (n : Cap) (t : ℤ) (args : List Value) (o : ℕ) (w w1 : W)
      → used w o ≡ false
      → ((i : ℕ) → used w1 i ≡ (o == i || used w i))
      → let r = create_in k l4re create n t args o w1 in Made w r.0 r.1
  unfolding create_in Made set
  in_lem n t args o w w1 new h =
      let r = (create n.c o t (items args) w1).0 in
      elim (Bool-cases (is_neg r)) [
        | inl e ↦ rw e tt
        | inr e ↦ rw e (
          new,
          λ i. create_slots n.c o t (items args) w1 i ∙ h i,
          new_cap-IsKept k l4re.invalid (bits 0),
        )
      ]

  -- A factory call that does not end in an error of LUA takes one slot, and its capability has rights that
  -- `set_rights` keeps.
  pub create_object_lem :
      (n : Cap) (t : ℤ) (args : List Value) (w : W)
      → let r = create_object k l4re create n t args w in Made w r.0 r.1
  unfolding create_object create_in Made set
  create_object_lem n t args w = elim (alloc_lem w) [
    | inl e ↦ rw (Made, e) tt
    | inr (o, e, new, mine, there, others) ↦
        rw (Made, e, create_object) (in_lem n t args o w (l4re.alloc w).1 new there)
  ]
