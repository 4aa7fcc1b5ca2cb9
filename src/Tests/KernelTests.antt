-- ===== src/Tests/KernelTests.antt =====
-- A concrete machine for the pages of dom0/dom0-l4re_kernel.
use l4re_tmp_fs.Base.{ℕ, suc, refl, ◌^◌, ◌<◌, ◌≡◌, arith, ltb, true, none, some, pos, if◌then◌else◌}
use l4re_tmp_fs.Kernel.Pages.{Machine, ItemAlloc, State, heap_pages, round_page, mmap, alloc}

large : 0 < 4096
large = omega arith

abbrev machine : Machine
machine = record {
  page_size = 4096;
  word_mod = 2 ^ 32;
  einval = 22;
  enomem = 12;
  page_size_pos = large;
}

below : (h n : ℕ) → (if ltb h heap_pages then some h else none) ≡ some n → n < heap_pages
below h n e = ground arith

-- An allocator that hands out the pages one after the other.
abbrev counter : ItemAlloc ℕ
counter = record {
  alloc = λ h. ((if ltb h heap_pages then some h else none), suc h);
  free = λ n h. h;
  alloc_below = below;
}

abbrev state : State ℕ
state = record { heap = 3; errno = pos 0 }

-- A request for less than a page takes one.
one_page : (mmap machine counter 100 true (pos 0) state).1.heap ≡ 4
unfolding mmap alloc round_page
one_page = refl

-- A request for more fails.
two_pages : (mmap machine counter 4097 true (pos 0) state).0 ≡ none
unfolding mmap alloc round_page
two_pages = refl
