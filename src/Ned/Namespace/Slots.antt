-- ===== src/Ned/Namespace/Slots.antt =====
-- dom0/dom0-ned/server/src/lua_ns.cc: the slots and the rights of the capabilities that a lookup finds.
use l4re_tmp_fs.Base.{
  ◌≢◌, sym, subst, Bool, true, false, ◌&&◌, ◌||◌, not, ◌==◌, arith, ℕ, ◌≡◌, ◌⊎◌, inl, inr, refl,
  ◌∙◌, Bool-cases, List, none, some, pos, ◌+ℤ◌, is_zero, is_neg,
}
use l4re_tmp_fs.Ned.Cap.{Rights, CapFpage, set, set_rights}
use l4re_tmp_fs.Ned.Cap.Modes.{kept, IsKept, kept-IsKept}
use l4re_tmp_fs.Ned.Namespace.{L4re, Result, raised, nil, pushed, old, Lookup, lookup_in, lookup}

-- The slots in use, those that an object of LUA refers to, and what the calls do to them. The collector gives
-- back slots at most to which only objects of LUA refer; a slot that is in use may be freed.
pub record Slots {W : Type 0} (l4re : L4re W) : Type 0 where
  pub used : W → ℕ → Bool
  pub owned : W → ℕ → Bool
  pub alloc_lem :
      (w : W)
      → ((l4re.alloc w).0 ≡ none)
        ⊎ ((o : ℕ) × ((l4re.alloc w).0 ≡ some o)
            × (used w o ≡ false)
            × (owned (l4re.alloc w).1 o ≡ false)
            × ((i : ℕ) → used (l4re.alloc w).1 i ≡ (o == i || used w i))
            × ((i : ℕ) → i ≢ o → owned (l4re.alloc w).1 i ≡ owned w i))
  pub free_lem :
      (o : ℕ) (w : W)
      → used w o ≡ true
      → (i : ℕ) → used (l4re.free o w) i ≡ (used w i && not (o == i))
  pub collect_lem :
      (w : W) (i : ℕ)
      → (used (l4re.collect w) i ≡ true → used w i ≡ true)
        × (used w i ≡ true → owned w i ≡ false → used (l4re.collect w) i ≡ true)
  pub query_lem :
      (ns : ℕ) (name : List ℕ) (o : ℕ) (w : W) (i : ℕ)
      → used (l4re.query ns name o w).1 i ≡ used w i

module _ {W : Type 0} (l4re : L4re W) (slots : Slots l4re) where
  open slots use {used, owned}

  -- Beside the slot `o` there is none in use that was not, and all are that were and to which no object of LUA
  -- refers.
  unfoldable pub KeepsSlots : ℕ → W → W → Type 0
  KeepsSlots o w w' =
      (i : ℕ)
      → i ≢ o
      → (used w' i ≡ true → used w i ≡ true)
        × (used w i ≡ true → owned w i ≡ false → used w' i ≡ true)

  -- What a lookup has done: with a capability, a slot is in use that was not, and holds it, and its rights are
  -- those that were asked for; with nil, no slot is in use that was not.
  unfoldable pub Looked : CapFpage → Rights → W → Result → W → Type 0
  Looked k r w (pushed c) w' =
      (used w c.c ≡ false)
      × (used w' c.c ≡ true)
      × KeepsSlots c.c w w'
      × ((i : ℕ) → c.all_rights i ≡ kept k r i)
      × IsKept k c.all_rights
  Looked k r w nil w' = (o : ℕ) × (used w o ≡ false) × (used w' o ≡ false) × KeepsSlots o w w'
  Looked k r w raised w' = Unit {0}
  Looked k r w old w' = ⊥

module _ {W : Type 0} (k : CapFpage) (l4re : L4re W) (slots : Slots l4re) where
  open slots use {used, owned, alloc_lem, free_lem, collect_lem, query_lem}

  -- The slot `o` has been allocated, and is still there behind the collector and the query.
  queried :
      (up : Lookup) (o : ℕ) (w : W)
      → (l4re.alloc w).0 ≡ some o
      → used w o ≡ false
      → owned (l4re.alloc w).1 o ≡ false
      → ((i : ℕ) → used (l4re.alloc w).1 i ≡ (o == i || used w i))
      → ((i : ℕ) → i ≢ o → owned (l4re.alloc w).1 i ≡ owned w i)
      → let w' = (l4re.query up.ns.c up.name o (l4re.collect (l4re.alloc w).1)).1 in
        (used w' o ≡ true) × KeepsSlots l4re slots o w w'
  unfolding KeepsSlots
  queried up o w e new mine there others =
      let a = (l4re.alloc w).1 in
      let same = query_lem up.ns.c up.name o (l4re.collect a) in
      (
        same o ∙ (collect_lem a o).1 (there o ∙ ground arith) mine,
        λ i ne. (
          λ u. ground (arith, there i, (collect_lem a i).0 (sym (same i) ∙ u)),
          λ u c. same i ∙ (collect_lem a i).1 (there i ∙ ground (arith, u)) (others i ne ∙ c),
        ),
      )

  freed :
      (o : ℕ) (w w' : W)
      → used w' o ≡ true
      → KeepsSlots l4re slots o w w'
      → (used (l4re.free o w') o ≡ false) × KeepsSlots l4re slots o w (l4re.free o w')
  unfolding KeepsSlots
  freed o w w' u keeps = (
    free_lem o w' u o ∙ ground arith,
    λ i ne. (
      λ v. (keeps i ne).0 (ground (arith, free_lem o w' u i, v)),
      λ v c. free_lem o w' u i ∙ ground (arith, (keeps i ne).1 v c),
    ),
  )

  -- A lookup that does not end in an error of LUA leaves in use the slots that were, but for those that the
  -- collector may take, and one more exactly if it puts a capability on the stack; this is in that slot, and its
  -- rights are what `set_rights` keeps of those that were asked for.
  pub lookup_lem :
      (up : Lookup) (w : W) → let r = lookup k l4re up w in Looked l4re slots k up.rights w r.0 r.1
  unfolding lookup lookup_in Looked set_rights set kept IsKept
  lookup_lem up w = elim (alloc_lem w) [
    | inl e ↦ rw (Looked, e) tt
    | inr (o, e, new, mine, there, others) ↦
        let a = (l4re.alloc w).1 in
        let (u, keeps) = queried up o w e new mine there others in
        let w' = (l4re.query up.ns.c up.name o (l4re.collect a)).1 in
        let r = (l4re.query up.ns.c up.name o (l4re.collect a)).0 in
        let whole : lookup k l4re up w ≡ lookup_in k l4re up o a = rw (lookup, e) refl in
        subst (λ t. Looked l4re slots k up.rights w t.0 t.1) (sym whole)
          (elim (Bool-cases (is_zero (r +ℤ pos l4re.enoent))) [
            | inl z ↦ let (gone, kept') = freed o w w' u keeps in rw z (o, new, gone, kept')
            | inr z ↦ elim (Bool-cases (is_neg r)) [
              | inl n ↦ rw (z, n) tt
              | inr n ↦ rw (z, n) (new, u, keeps, λ i. refl, kept-IsKept k up.rights)
            ]
          ])
  ]
