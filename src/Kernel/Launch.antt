-- ===== src/Kernel/Launch.antt =====
-- dom0/dom0-l4re_kernel/server/src/loader.cc: what the loader does in the address space of the program, and how
-- its thread gives up its own stack and goes over to the program.
pub mod Switch
use l4re_tmp_fs.Base.{
  ℕ, zero, suc, ◌+◌, ◌-◌, ◌≡◌, Bool, true, false, List, [], ◌∷◌, Option, none, some, ℤ, is_neg,
  if◌then◌else◌,
}
use l4re_tmp_fs.Libfs.Svr.{Method}
use l4re_tmp_fs.Kernel.Memory.{Word}
use l4re_tmp_fs.Kernel.Stack
use l4re_tmp_fs.Kernel.Stack.{L4reStack, set_target_stack, set_local_addr}
use l4re_tmp_fs.Kernel.Loader.{trunc_page}

-- Where the thread is: in the loader, in `unmap_stack_and_start`, in the program, or at its end.
pub data Code : Type 0 where
  loader unmap exited : Code
  program : ℕ → Code

-- Entry_data
pub record EntryData : Type 0 where
  pub entry : ℕ
  pub stack : ℕ
  pub pager : ℕ

-- The thread, with the static variables of the file, the stack of the program, and what `add_env` sets in the
-- environment.
pub record Thread (W : Type 0) : Type 0 where
  pub code : Code
  pub sp : ℕ
  pub loader_stack : ℕ
  pub loader_stack_p : ℕ
  pub loader_entry : EntryData
  pub app_thread : ℕ
  pub app : Stack.State
  pub env_rm : ℕ
  pub env_main_thread : ℕ
  pub world : W

-- The flags of `ldr_flags`.
pub record LdrFlags : Type 0 where
  pub pinned_segs : Bool
  pub eager_map : Bool
  pub all_segs_cow : Bool

-- The calls of L4Re; a capability is none where L4's is not valid, and `attach` gives the address that it
-- chose. `set_bits` is a bitwise or.
pub record Target (W : Type 0) : Type 0 where
  pub pinned : ℕ
  pub eager : ℕ
  pub search : ℕ
  pub set_bits : ℕ → ℕ → ℕ
  pub alloc_cap : Method W (Option ℕ)
  pub free_cap : ℕ → W → W
  pub alloc : ℕ → ℕ → ℕ → Method W ℤ
  pub attach : ℕ → ℕ → ℕ → Option ℕ → ℕ → Method W (ℤ × ℕ)
  pub detach : ℕ → W → W

module _ {W : Type 0} (target : Target W) (ldr : LdrFlags) where
  open target use {pinned, eager, search, set_bits, alloc_cap, free_cap, alloc, attach, detach}

  -- L4Re_app_model::alloc_ds; none is an error that was thrown.
  unfoldable pub alloc_ds : ℕ → Method W (Option ℕ)
  alloc_ds size w =
      let (cap, w1) = alloc_cap w in
      elim cap [
        | none ↦ (none, w1)
        | some mem ↦
            let (e, w2) = alloc size mem (if ldr.pinned_segs then pinned else 0) w1 in
            (if is_neg e then none else some mem, w2)
      ]

  -- L4Re_app_model::prog_attach_ds; false is an error that was thrown.
  unfoldable pub prog_attach_ds : ℕ → ℕ → Option ℕ → ℕ → ℕ → Method W Bool
  prog_attach_ds addr size ds offset flags w =
      let flags' = if ldr.eager_map then set_bits flags eager else flags in
      let (r, w') = attach addr size flags' ds offset w in (if is_neg r.0 then false else true, w')

  -- The end of `alloc_app_stack`, with the stack's capability.
  unfoldable pub place_stack : Word → ℕ → Thread W → Option ℕ × Thread W
  place_stack word stack t =
      let size = t.app.stack.size in
      let (e, w1) = alloc size stack 0 t.world in
      let (r, w2) = attach t.app.stack.addr size search (some stack) 0 w1 in
      if is_neg e
      then (none, record t { world = w1 })
      else if is_neg r.0
      then (none, record t { world = w2 })
      else (
        some stack,
        record t { app = set_local_addr word r.1 (set_target_stack r.1 size t.app); world = w2 },
      )

  -- L4Re_app_model::alloc_app_stack
  unfoldable pub alloc_app_stack : Word → Thread W → Option ℕ × Thread W
  alloc_app_stack word t =
      let (cap, w1) = alloc_cap t.world in
      elim cap [
        | none ↦ (none, record t { world = w1 })
        | some stack ↦ place_stack word stack (record t { world = w1 })
      ]

  -- L4Re_app_model::add_env
  unfoldable pub add_env : Thread W → Thread W
  add_env t = record t { env_rm = t.loader_entry.pager; env_main_thread = t.app_thread }

  -- switch_stack
  unfoldable pub switch_stack : ℕ → Code → Thread W → Thread W
  switch_stack stack func t = record t { sp = stack; code = func }

  -- L4Re_app_model::start_prog, with the entry of the program.
  unfoldable pub start_prog : ℕ → Thread W → Thread W
  start_prog entry t =
      let data' = record (t.loader_entry) { stack = t.app.stack.sp; entry = entry } in
      switch_stack (t.app.stack.sp) unmap (record t { loader_entry = data' })

  unfoldable pub unmap_stack_and_start : Thread W → Thread W
  unmap_stack_and_start t =
      let w = free_cap t.loader_stack (detach (t.loader_stack_p - 1) t.world) in
      switch_stack t.loader_entry.stack (program t.loader_entry.entry) (record t { world = w })

  -- Loader::__start and loader_thread, where `launch` is what the ELF loader of the library does up to
  -- `start_prog`: the entry of the program, or none for an error that was thrown. `start_prog` does not
  -- return.
  unfoldable pub loader_thread : (Thread W → Option ℕ × Thread W) → Thread W → Thread W
  loader_thread launch t =
      let (entry, t') = launch t in
      elim entry [ none ↦ record t' { code = exited } | some e ↦ start_prog e t' ]
