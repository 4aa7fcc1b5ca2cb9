-- ===== src/Kernel/Regions/Faults.antt =====
-- dom0/dom0-l4re_kernel/server/src/region.cc: page faults, and what is freed of a dataspace.
use l4re_tmp_fs.Base.{
  ℕ, ◌+◌, ◌-◌, ◌%◌, ◌≤◌, ◌<◌, ◌≡◌, refl, subst, ◌∙◌, Bool, true, false, some, none, pos, neg, arith,
  ◌⊎◌, inl, inr, Bool-cases, Option-cases,
}
use native.Mathlib.Nat.{mod-eq_of_lt, add-mod_right}
use l4re_tmp_fs.Kernel.Regions.{Region, RegionHandler, Paging, map, free}

offsets :
    (limit s a o : ℕ) → s ≤ a → o + (a - s) < limit → (a + limit - s + o) % limit ≡ o + (a - s)
offsets limit s a o h k =
    subst (λ n. n % limit ≡ o + (a - s)) (omega arith)
      (add-mod_right (o + (a - s)) limit ∙ mod-eq_of_lt k)

module _ {W : Type 0} (limit enoent : ℕ) (paging : Paging W) where
  -- The answers to a fault in the byte `i` of a region, and to freeing bytes from its place on.
  abbrev pub Served : RegionHandler → Region → ℕ → Bool → W → Type 0
  Served h r i writable w =
      let a = r.start + i in
      let m = map limit enoent paging h a r writable w in
      let f = λ (size : ℕ). free limit enoent paging h i size w in
      (((h.is_reserved ≡ true) ⊎ (h.memory ≡ none))
        × (m ≡ (neg enoent, w))
        × ((size : ℕ) → f size ≡ w))
      ⊎ ((cap : ℕ) × (h.memory ≡ some cap)
          × (h.is_reserved ≡ false)
          × (h.is_pager ≡ true)
          × (m ≡ (pos 0, paging.page_fault cap a writable w))
          × ((size : ℕ) → f size ≡ w))
      ⊎ ((cap : ℕ) × (h.memory ≡ some cap)
          × (h.is_reserved ≡ false)
          × (h.is_pager ≡ false)
          × (m ≡ paging.map cap (h.offset + i) writable a r.start r.end w)
          × ((size : ℕ) → f size ≡ paging.clear cap (h.offset + i) size w))

  -- Where nothing is mapped, a page fault fails and freeing does nothing; a pager is asked to map the
  -- page, and keeps what it has; and a dataspace maps the byte that freeing the byte's place clears.
  pub map-free :
      (h : RegionHandler) (r : Region) (i : ℕ) (writable : Bool) (w : W)
      → h.offset + i < limit
      → Served h r i writable w
  unfolding map free
  map-free h r i writable w k = elim (Option-cases h.memory) [
    | inl absent ↦ rw (map, free, absent) (inl (inr refl, refl, λ size. refl))
    | inr (cap, held) ↦ elim (Bool-cases h.is_reserved) [
      | inl kept ↦ rw (map, free, held, kept) (inl (inl refl, refl, λ size. refl))
      | inr open_ ↦ elim (Bool-cases h.is_pager) [
        | inl paged ↦
            rw (map, free, held, open_, paged)
              (inr (inl (cap, refl, refl, refl, refl, λ size. refl)))
        | inr plain ↦
            rw (map, free, held, open_, plain)
              (inr (inr (cap, refl, refl, refl, rw at_ refl, λ size. rw (mod-eq_of_lt k) refl)))
      ]
    ]
  ]
    where
      at_ : (r.start + i + limit - r.start + h.offset) % limit ≡ h.offset + i
      at_ =
          offsets limit r.start (r.start + i) h.offset (omega arith) (omega (arith, k))
          ∙ omega arith
