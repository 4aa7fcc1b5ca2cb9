-- ===== src/Kernel/Pages.antt =====
-- dom0/dom0-l4re_kernel/server/src/page_alloc.cc and mem.cc: a heap of 64 pages, and the `mmap` of the
-- C library on it.
pub mod Heap
use l4re_tmp_fs.Base.{
  ℕ, ◌+◌, ◌-◌, ◌*◌, ◌/◌, ◌%◌, ◌<◌, ◌==◌, ◌≡◌, Bool, true, false, not, Option, none, some, ℤ, pos,
  neg, is_neg, if◌then◌else◌,
}
use l4re_tmp_fs.Libfs.Svr.{Method}

-- L4's page size, which is a power of two, the values of a machine word, and the error numbers.
pub record Machine : Type 0 where
  pub page_size : ℕ
  pub word_mod : ℕ
  pub einval : ℕ
  pub enomem : ℕ
  pub page_size_pos : 0 < page_size

abbrev pub heap_pages : ℕ
heap_pages = 64

abbrev pub heap_base : ℕ
heap_base = 2953838592

-- Item_alloc: a number below the number of the pages, or none.
pub record ItemAlloc (H : Type 0) : Type 0 where
  pub alloc : Method H (Option ℕ)
  pub free : ℕ → H → H
  pub alloc_below : (h : H) (n : ℕ) → (alloc h).0 ≡ some n → n < heap_pages

-- The allocator and `errno`.
pub record State (H : Type 0) : Type 0 where
  pub heap : H
  pub errno : ℤ

module _ {H : Type 0} (m : Machine) (items : ItemAlloc H) where
  -- _alloc(); none is the null pointer.
  unfoldable pub alloc : Method (State H) (Option ℕ)
  alloc s =
      let (p, h) = items.alloc s.heap in
      (elim p [ some n ↦ some (heap_base + n * m.page_size) | none ↦ none ], record s { heap = h })

  -- _free(p)
  unfoldable pub free : ℕ → State H → State H
  free p s = record s { heap = items.free ((p - heap_base) / m.page_size) s.heap }

  -- (length + (L4_PAGESIZE - 1)) & ~(L4_PAGESIZE - 1)
  unfoldable pub round_page : ℕ → ℕ
  round_page length = let n = (length + (m.page_size - 1)) % m.word_mod in n - n % m.page_size

  abbrev fail : ℤ → State H → Option ℕ × State H
  fail e s = (none, record s { errno = e })

  -- `none` is MAP_FAILED. `map_anon` says whether the flags have MAP_ANON.
  unfoldable pub mmap : ℕ → Bool → ℤ → Method (State H) (Option ℕ)
  mmap length map_anon offset s =
      let r = alloc s in
      if is_neg offset
      then fail (neg m.einval) s
      else if not map_anon
      then fail (neg m.einval) s
      else if not (round_page length == m.page_size)
      then fail (pos m.enomem) s
      else elim r.0 [ some addr ↦ (some addr, r.1) | none ↦ fail (pos m.enomem) r.1 ]

  unfoldable pub munmap : State H → ℤ × State H
  munmap s = (neg 1, record s { errno = pos m.einval })

  unfoldable pub mremap : Method (State H) (Option ℕ)
  mremap s = fail (pos m.einval) s
