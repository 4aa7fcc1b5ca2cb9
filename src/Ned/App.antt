-- ===== src/Ned/App.antt =====
-- dom0/dom0-ned/server/src/remote_mem.h, remote_mem.cc and app_model.cc: the stack of a program that Ned fills,
-- and what Ned does in the address space of the program.
pub mod Touched
use l4re_tmp_fs.Base.{
  ℕ, zero, suc, ◌+◌, ◌-◌, ◌*◌, ◌%◌, ◌==◌, Bool, true, false, List, [], ◌∷◌, Option, none, some, ℤ,
  is_neg, if◌then◌else◌,
}
use l4re_tmp_fs.Libfs.Svr.{Method}
use l4re_tmp_fs.Ned.Model
use l4re_tmp_fs.Ned.Model.{Value, Strings, push_argv_strings, push_env_strings}

abbrev pub trunc_page : ℕ → ℕ → ℕ
trunc_page p a = a - a % p

abbrev pub round_page : ℕ → ℕ → ℕ
round_page p a = trunc_page p (a + p - 1)

-- The object: the dataspace of the stack, the address at which Ned has attached it, the page of the last
-- access, and the address up to which it is filled from above.
pub record Stack : Type 0 where
  pub stack_ds : Option ℕ
  pub vma : ℕ
  pub last_checked : ℕ
  pub local_top : ℕ
  pub stack_size : ℕ

-- The constructor; the size is that of the library's class.
unfoldable pub new_stack : ℕ → Stack
new_stack size = record {
  stack_ds = none;
  vma = 0;
  last_checked = 0;
  local_top = 0;
  stack_size = size;
}

-- The calls of L4Re. A dataspace and a capability are none where L4's are not valid; an address is attached
-- at a place that is handed out, or at the one that is given.
pub record Space (W : Type 0) : Type 0 where
  pub page_size : ℕ
  pub reserved : ℕ
  pub addr_mask : ℕ → ℕ
  pub alloc_cap : Method W (Option ℕ)
  pub alloc : ℕ → ℕ → ℕ → Method W ℤ
  pub attach_local : ℕ → Option ℕ → Method W (ℤ × ℕ)
  pub attach_prog : ℕ → ℕ → ℕ → Option ℕ → ℕ → Method W ℤ
  pub reserve_area : ℕ → ℕ → ℕ → ℕ → Method W (ℤ × ℕ)
  pub allocate : Option ℕ → ℕ → ℕ → Method W ℤ
  pub set_bits : ℕ → ℕ → ℕ

-- What a call hands back, or none for an error that was thrown.
abbrev pub Thrown : Type 0 → Type 0 → Type 0
Thrown W A = W → Option A × W

module _ {W : Type 0} (space : Space W) where
  open space use {
    page_size, reserved, addr_mask, alloc_cap, alloc, attach_local, attach_prog, reserve_area,
    allocate, set_bits,
  }

  -- Stack_base::check_access, in front of an access to `sz` bytes at `addr`; false is an error that is
  -- thrown. No access is in front of `_vma`.
  unfoldable pub check_access : ℕ → ℕ → Stack × W → Bool × (Stack × W)
  check_access addr sz (s, w) =
      let offs = trunc_page page_size (addr - s.vma) in
      let end = round_page page_size (addr + sz - s.vma) in
      let (e, w') = allocate s.stack_ds offs (end - offs) w in
      if s.last_checked == trunc_page page_size addr
      then (true, (s, w))
      else if is_neg e
      then (false, (s, w'))
      else (true, (record s { last_checked = trunc_page page_size addr }, w'))

  -- Stack::set_stack
  unfoldable pub set_stack : Option ℕ → ℕ → Stack × W → Bool × (Stack × W)
  set_stack ds size (s, w) =
      let (r, w') = attach_local size ds w in
      if is_neg r.0
      then (false, (record s { vma = r.1 }, w'))
      else (true, (record s { vma = r.1; stack_ds = ds; local_top = r.1 + size }, w'))

  -- App_model::prog_attach_ds
  unfoldable pub prog_attach_ds : ℕ → ℕ → Option ℕ → ℕ → ℕ → Thrown W (Unit {0})
  prog_attach_ds addr size ds offset flags w =
      let rh_flags : ℕ = elim ds [ some d ↦ flags | none ↦ set_bits flags reserved ] in
      let (e, w') = attach_prog addr size rh_flags ds offset w in
      (if is_neg e then none else some tt, w')

  -- App_model::prog_reserve_area: the answer, and the address.
  unfoldable pub prog_reserve_area : ℕ → ℕ → ℕ → ℕ → Method W (ℤ × ℕ)
  prog_reserve_area start size flags align w = reserve_area start size flags align w

  -- The end of `alloc_app_stack`, with the capability of the dataspace.
  unfoldable pub fill_stack : ℕ → ℕ → Stack × W → Option ℕ × (Stack × W)
  fill_stack mem_alloc stack (s, w) =
      let (e, w') = alloc (addr_mask mem_alloc) s.stack_size stack w in
      elim (is_neg e) [
        | true ↦ (none, (s, w'))
        | false ↦
            let (ok, t) = set_stack (some stack) s.stack_size (s, w') in
            (if ok then some stack else none, t)
      ]

  -- App_model::alloc_app_stack, where `mem_alloc` is the one of the program's information.
  unfoldable pub alloc_app_stack : ℕ → Stack × W → Option ℕ × (Stack × W)
  alloc_app_stack mem_alloc (s, w) =
      let (cap, w') = alloc_cap w in
      elim cap [ none ↦ (none, (s, w')) | some stack ↦ fill_stack mem_alloc stack (s, w') ]

-- App_model::init_prog: the arguments, and then the environment, unless there was an error.
unfoldable pub init_prog :
    {S : Type 0}
    → Model.Stack S
    → List Value
    → Option (List (Value × Value))
    → Strings
    → Strings
    → S
    → (Bool × (Strings × Strings)) × S
init_prog stack args env argv envp s =
    let (r, s') = push_argv_strings stack args argv s in
    elim (r.0) [
      | false ↦ ((false, (r.1, envp)), s')
      | true ↦ let (t, s'') = push_env_strings stack env envp s' in ((t.0, (r.1, t.1)), s'')
    ]
