-- ===== src/Kernel/Loader/Start.antt =====
-- dom0/dom0-l4re_kernel/server/src/loader.cc: what `Loader::start` and a failed copy leave behind.
use l4re_tmp_fs.Base.{ℕ, ◌+◌, ◌*◌, ◌≡◌, refl, Bool, true, false, Option, none, some, is_neg}
use l4re_tmp_fs.Kernel.Loader.{
  Result, returned, thrown, State, Platform, copy_ds, copy_failed, loader_stack_size, ◌>>=◌,
}

module _ {W : Type 0} (platform : Platform W) where
  -- The stack that a thread could run on: the address where it was attached, where there was a capability for
  -- it and it could be attached.
  unfoldable pub stack_at : Option ℕ → W → Option ℕ
  stack_at none w = none
  stack_at (some c) w =
      (platform.attach_local platform.loader_vma_start loader_stack_size (some c) w).0

  unfoldable pub stack_of : State W → Option ℕ
  stack_of s =
      let (cap, w) = platform.alloc_cap s.world in
      stack_at cap (platform.alloc loader_stack_size cap w).1

  -- What `start` does, by the stack: it returns true with one capability and one place for a UTCB used up, and
  -- false, with no thread, where it had no stack. Where a call of L4 fails it throws that call's error. It tries
  -- to create a thread only where it has a stack.
  abbrev pub Started : Option ℕ → State W → Result Bool → State W → Type 0
  Started stack s (returned true) s' =
      ((p : ℕ) × (stack ≡ some p))
      × (s'.env.first_free_cap ≡ s.env.first_free_cap + 1)
      × (s'.app_thread ≡ s.env.first_free_cap * platform.cap_mod)
      × (s'.env.first_free_utcb ≡ s.env.first_free_utcb + platform.utcb_offset)
  Started stack s (returned false) s' =
      (stack ≡ none) × (s'.env ≡ s.env) × (s'.app_thread ≡ s.app_thread)
  Started stack s (thrown e) s' =
      ((p : ℕ) × (stack ≡ some p))
      × (is_neg e ≡ true)
      × (s'.env.first_free_cap ≡ s.env.first_free_cap + 1)
      × (s'.app_thread ≡ s.env.first_free_cap * platform.cap_mod)

  -- The capability and the place for a UTCB, once they are taken.
  abbrev Taken : State W → State W → Type 0
  Taken s t =
      (t.env.first_free_cap ≡ s.env.first_free_cap + 1)
      × (t.app_thread ≡ s.env.first_free_cap * platform.cap_mod)

  -- Where `copy_in` fails, `copy_ds` returns like after a copy, if the source can be attached.
  pub copy_ds_silent :
      (dst dst_offs src src_offs size : ℕ) (s : State W)
      → is_neg (platform.copy_in dst dst_offs src src_offs size s.world).0 ≡ true
      → let w = (platform.copy_in dst dst_offs src src_offs size s.world).1 in
        let r = platform.attach 0 size (some src) src_offs w in
        is_neg r.0.0 ≡ false
        → copy_ds platform dst dst_offs src src_offs size s
          ≡ (returned tt, record s { world = (platform.detach r.0.1 r.1).1 })
  unfolding copy_ds copy_failed
  copy_ds_silent dst dst_offs src src_offs size s h k = rw (h) (rw (◌>>=◌, k) refl)
