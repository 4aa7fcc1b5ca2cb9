-- ===== src/Kernel/Pages/Heap.antt =====
-- What `mmap` of dom0/dom0-l4re_kernel/server/src/mem.cc gives out.
use native.Mathlib.Nat.{mul-div_cancel}
use l4re_tmp_fs.Base.{
  ℕ, ◌+◌, ◌-◌, ◌*◌, ◌/◌, ◌<◌, ◌≡◌, refl, ap, ◌∙◌, ◌⊎◌, inl, inr, Bool, Bool-cases, Option-cases,
  not, none, some, ℤ, arith, is_neg, ◌==◌,
}
use l4re_tmp_fs.Kernel.Pages.{
  Machine, ItemAlloc, State, heap_base, heap_pages, alloc, free, round_page, mmap,
}

-- An address that starts a page of the heap, and the number of this page.
abbrev pub IsPage : Machine → ℕ → ℕ → Type 0
IsPage m addr n = (addr ≡ heap_base + n * m.page_size) × (n < heap_pages)

module _ {H : Type 0} (m : Machine) (items : ItemAlloc H) (s : State H) where
  index : (n : ℕ) → (heap_base + n * m.page_size - heap_base) / m.page_size ≡ n
  index n =
      let offset : heap_base + n * m.page_size - heap_base ≡ n * m.page_size = omega arith in
      ap (λ k. k / m.page_size) offset ∙ mul-div_cancel n m.page_size_pos

  -- `mmap` either fails or gives out exactly one page: the length rounds up to a page, the address
  -- starts a page inside of the heap, and the allocator has handed out this page.
  pub mmap_lem :
      (length : ℕ) (map_anon : Bool) (offset : ℤ)
      → let r = mmap m items length map_anon offset s in
        (r.0 ≡ none)
        ⊎ ((n addr : ℕ) × (r.0 ≡ some addr)
            × IsPage m addr n
            × ((items.alloc s.heap).0 ≡ some n)
            × (round_page m items length ≡ m.page_size))
  unfolding mmap alloc
  mmap_lem length map_anon offset = elim (Bool-cases (is_neg offset)) [
    | inl behind ↦ rw behind (inl refl)
    | inr offset_ok ↦ elim (Bool-cases (not map_anon)) [
      | inl file_backed ↦ rw (offset_ok, file_backed) (inl refl)
      | inr anon ↦ elim (Bool-cases (round_page m items length == m.page_size)) [
        | inr longer ↦ rw (offset_ok, anon, longer) (inl refl)
        | inl one ↦
            let size : round_page m items length ≡ m.page_size = ground arith in
            elim (Option-cases (items.alloc s.heap).0) [
              | inl full ↦ rw (offset_ok, anon, one, full) (inl refl)
              | inr (n, got) ↦
                  let below = items.alloc_below s.heap n got in
                  rw (offset_ok, anon, one, got)
                    (inr (n, heap_base + n * m.page_size, refl, (refl, below), refl, size))
            ]
      ]
    ]
  ]

  -- Freeing what `mmap` gave out frees the page that the allocator had handed out.
  pub free-alloc :
      (n : ℕ)
      → (items.alloc s.heap).0 ≡ some n
      → let r = alloc m items s in
        (addr : ℕ) × (r.0 ≡ some addr)
        × ((free m items addr r.1).heap ≡ items.free n (items.alloc s.heap).1)
  unfolding alloc free
  free-alloc n got =
      rw got
        (heap_base + n * m.page_size, refl, ap (λ k. items.free k (items.alloc s.heap).1) (index n))
