-- ===== src/Kernel/Loader.antt =====
-- dom0/dom0-l4re_kernel/server/src/loader.cc: the loader's thread, the dataspaces that it attaches for a
-- while, which dom0/dom0-ned/server/src/app_model.cc does alike, and the first thread-local storage of
-- main.cc.
pub mod Start
pub mod Windows
use l4re_tmp_fs.Base.{
  ℕ, zero, suc, ◌+◌, ◌-◌, ◌*◌, ◌/◌, ◌%◌, ◌<◌, ◌==◌, ◌≡◌, Bool, true, false, Option, none, some,
  if◌then◌else◌, ℤ, pos, neg, is_neg,
}
use l4re_tmp_fs.Libfs.Svr.{Method}

-- A call returns, or it throws the error that `chksys` met.
pub data Result {ℓ} (A : Type ℓ) : Type ℓ where
  returned : A → Result A
  thrown : ℤ → Result A

-- L4Re::Env.
pub record Env : Type 0 where
  pub first_free_cap : ℕ
  pub first_free_utcb : ℕ

-- The environment, the capability of the application's thread, and the rest of the world.
pub record State (W : Type 0) : Type 0 where
  pub env : Env
  pub app_thread : ℕ
  pub world : W

abbrev pub M : Type 0 → Type 0 → Type 0
M W A = State W → Result A × State W

infixl 5 ◌>>=◌ ◌>>◌
abbrev pub ◌>>=◌ : {W A B : Type 0} → M W A → (A → M W B) → M W B
◌>>=◌ m f s = elim ((m s).0) [ returned a ↦ f a (m s).1 | thrown e ↦ (thrown e, (m s).1) ]

abbrev pub ◌>>◌ : {W A B : Type 0} → M W A → M W B → M W B
m >> k = m >>= λ _. k

abbrev pub return : {W A : Type 0} → A → M W A
return a s = (returned a, s)

-- A call of L4, and one whose error is thrown.
abbrev pub call : {W A : Type 0} → Method W A → M W A
call f s = let (a, w) = f s.world in (returned a, record s { world = w })

abbrev pub chksys : {W : Type 0} → Method W ℤ → M W ℤ
chksys f s =
    let (e, w) = f s.world in (if is_neg e then thrown e else returned e, record s { world = w })

abbrev pub loader_stack_size : ℕ
loader_stack_size = 8192

abbrev pub chksys_at : {W : Type 0} → Method W (ℤ × ℕ) → M W ℕ
chksys_at f s =
    let (r, w) = f s.world in
    let (e, a) = r in (if is_neg e then thrown e else returned a, record s { world = w })

-- The constants of L4 and of the memory layout, and the calls of L4Re: a capability and an address are none
-- where L4's are not valid. `attach` of the environment's region map answers an error and the address.
pub record Platform (W : Type 0) : Type 0 where
  pub word_size : ℕ
  pub cap_mod : ℕ
  pub utcb_offset : ℕ
  pub page_size : ℕ
  pub addr_mod : ℕ
  pub loader_vma_start : ℕ
  pub tls_address : ℕ
  pub alloc_cap : Method W (Option ℕ)
  pub alloc : ℕ → Option ℕ → Method W ℤ
  pub attach_local : ℕ → ℕ → Option ℕ → Method W (Option ℕ)
  pub attach : ℕ → ℕ → Option ℕ → ℕ → Method W (ℤ × ℕ)
  pub detach : ℕ → Method W ℤ
  pub store_word : ℕ → ℕ → W → W
  pub create_thread : ℕ → Method W ℤ
  pub control : ℕ → ℕ → Method W ℤ
  pub run_thread : ℕ → ℕ → Method W ℤ
  pub ex_regs : ℕ → ℕ → Method W ℤ
  pub adjust_sp : ℕ → ℕ
  pub copy_in : ℕ → ℕ → ℕ → ℕ → ℕ → Method W ℤ

module _ {W : Type 0} (platform : Platform W) where
  open platform use {
    word_size, cap_mod, utcb_offset, page_size, addr_mod, loader_vma_start, tls_address, alloc_cap,
    alloc, attach_local, attach, detach, store_word, create_thread, control, run_thread, ex_regs,
    adjust_sp, copy_in,
  }

  -- `app_thread` is the first free capability, which is then used. A capability is its number, shifted by
  -- the bits that `cap_mod` counts.
  unfoldable pub take_cap : M W ℕ
  take_cap s =
      let cap = s.env.first_free_cap * cap_mod in
      (
        returned cap,
        record s { env = record (s.env) { first_free_cap = cap / cap_mod + 1 }; app_thread = cap },
      )

  unfoldable pub take_utcb : M W ℕ
  take_utcb s =
      let utcb = s.env.first_free_utcb in
      (returned utcb, record s { env = record (s.env) { first_free_utcb = utcb + utcb_offset } })

  -- The part of `start` behind the tests of the stack, which is at `p`.
  unfoldable pub start_thread : Option ℕ → ℕ → M W Bool
  start_thread stack p = do
    (e, p') ← call (attach p loader_stack_size stack 0)
    let sp = p' + loader_stack_size - word_size
    _ ← call (λ w. (tt, store_word sp 0 w))
    thread ← take_cap
    _ ← chksys (create_thread thread)
    utcb ← take_utcb
    _ ← chksys (control thread utcb)
    _ ← chksys (run_thread thread 2)
    _ ← chksys (ex_regs thread (adjust_sp sp))
    return true

  unfoldable pub start_at : Option ℕ → Option ℕ → M W Bool
  start_at stack none = return false
  start_at stack (some p) = start_thread stack p

  -- Its tests: the answer of `alloc` is not looked at.
  unfoldable pub start_on : Option ℕ → M W Bool
  start_on none = return false
  start_on (some cap) = do
    p ← call (attach_local loader_vma_start loader_stack_size (some cap))
    start_at (some cap) p

  -- Loader::start
  unfoldable pub start : M W Bool
  start = do stack ← call alloc_cap; _ ← call (alloc loader_stack_size stack); start_on stack

  -- __libc_alloc_initial_tls: the address, or none for NULL.
  unfoldable pub alloc_initial_tls : ℕ → M W (Option ℕ)
  alloc_initial_tls size s =
      let cap = s.env.first_free_cap * cap_mod in
      let env' = record (s.env) { first_free_cap = s.env.first_free_cap + 1 } in
      let (e, w) = alloc size (some cap) s.world in
      let (r, w') = attach tls_address size (some cap) 0 w in
      if is_neg e
      then (returned none, record s { env = env'; world = w })
      else (returned (if is_neg r.0 then none else some r.1), record s { env = env'; world = w' })

  -- An address is a word of `addr_mod` values.
  abbrev pub trunc_page : ℕ → ℕ
  trunc_page a = a - a % page_size

  abbrev pub round_page : ℕ → ℕ
  round_page a = trunc_page ((a + page_size - 1) % addr_mod)

  unfoldable pub local_attach_ds : ℕ → ℕ → ℕ → M W ℕ
  local_attach_ds ds size offset = do
    let pg_offset = trunc_page offset
    let in_pg_offset = offset - pg_offset
    let pg_size = round_page ((size + in_pg_offset) % addr_mod)
    vaddr ← chksys_at (attach 0 pg_size (some ds) pg_offset)
    return ((vaddr + in_pg_offset) % addr_mod)

  unfoldable pub local_detach_ds : ℕ → M W ℤ
  local_detach_ds addr = chksys (detach (trunc_page addr))

  unfoldable pub copy_failed : Bool → ℕ → ℕ → ℕ → M W (Unit {0})
  copy_failed false src src_offs size = return tt
  copy_failed true src src_offs size = do
    region ← chksys_at (attach 0 size (some src) src_offs)
    _ ← call (detach region)
    return tt

  -- A failed copy attaches the source, which is detached at the end of the block.
  unfoldable pub copy_ds : ℕ → ℕ → ℕ → ℕ → ℕ → M W (Unit {0})
  copy_ds dst dst_offs src src_offs size = do
    e ← call (copy_in dst dst_offs src src_offs size)
    copy_failed (is_neg e) src src_offs size
