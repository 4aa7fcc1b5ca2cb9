-- ===== src/Kernel/Dispatch.antt =====
-- dom0/dom0-l4re_kernel/server/src/dispatcher.cc: the requests that the loader's kernel answers; and
-- page_alloc.cc, where the heap of the kernel is attached.
use l4re_tmp_fs.Base.{
  ℕ, ◌*◌, Bool, true, false, List, [], ◌∷◌, Option, ℤ, pos, neg, is_neg, if◌then◌else◌,
}
use l4re_tmp_fs.Libfs.Svr.{Method}
use l4re_tmp_fs.Kernel.Pages.{heap_pages, heap_base}

-- The protocol of a request; for the debugger with the function that is asked for.
pub data Label : Type 0 where
  rm exception page_fault unknown : Label
  debug : ℕ → Label

-- What the library's region map does with a request or a page fault.
pub record Handlers (W : Type 0) : Type 0 where
  pub handle_rm_request : Method W ℤ
  pub handle_pagefault : Method W ℤ
  pub debug_dump : ℕ → W → W

module _ {W : Type 0} (enoreply enosys : ℕ) (handlers : Handlers W) where
  -- Dispatcher::handle_exception: the answer, and the words that are written to the stream.
  unfoldable pub handle_exception : Method W (ℤ × List ℕ)
  handle_exception w = ((neg enoreply, 0 ∷ 0 ∷ []), w)

  abbrev answer : ℤ × W → (ℤ × List ℕ) × W
  answer (e, w) = ((e, []), w)

  -- Dispatcher::dispatch
  unfoldable pub dispatch : Label → Method W (ℤ × List ℕ)
  dispatch rm w = answer (handlers.handle_rm_request w)
  dispatch (debug func) w = ((pos 0, []), handlers.debug_dump func w)
  dispatch exception w = handle_exception w
  dispatch page_fault w = answer (handlers.handle_pagefault w)
  dispatch unknown w = ((neg enosys, 0 ∷ 0 ∷ []), w)

-- The calls of `init` and `init_local_rm`; a capability is none where L4's is not valid.
pub record HeapCalls (W : Type 0) : Type 0 where
  pub alloc_cap : Method W (Option ℕ)
  pub alloc : ℕ → Option ℕ → Method W ℤ
  pub attach : ℕ → ℕ → Option ℕ → Method W ℤ
  pub attach_local : ℕ → ℕ → Option ℕ → W → W

module _ {W : Type 0} (page_size : ℕ) (calls : HeapCalls W) where
  open calls use {alloc_cap, alloc, attach, attach_local}

  -- Single_page_alloc_base::init: whether there was no error, and the static `heap`.
  unfoldable pub init : Method W (Bool × Option ℕ)
  init w =
      let (heap, w1) = alloc_cap w in
      let (e, w2) = alloc (heap_pages * page_size) heap w1 in
      let (e', w3) = attach heap_base (heap_pages * page_size) heap w2 in
      if is_neg e
      then ((false, heap), w2)
      else if is_neg e'
      then ((false, heap), w3)
      else ((true, heap), w3)

  -- Single_page_alloc_base::init_local_rm, which does not look at the answer.
  unfoldable pub init_local_rm : Option ℕ → W → W
  init_local_rm heap w = attach_local heap_base (heap_pages * page_size) heap w
