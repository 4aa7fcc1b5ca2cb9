-- ===== src/Kernel/Launch/Switch.antt =====
-- dom0/dom0-l4re_kernel/server/src/loader.cc: the loader's stack is gone when the program runs.
use l4re_tmp_fs.Base.{ℕ, ◌+◌, ◌-◌, ◌≤◌, ◌<◌, ◌≡◌, ◌⊎◌, refl, arith}
use l4re_tmp_fs.Kernel.Launch.{
  Thread, Target, LdrFlags, program, start_prog, switch_stack, unmap_stack_and_start,
}

-- The mapped bytes of the address space: detaching an address of a region unmaps the region and nothing else,
-- and giving a capability back unmaps none of them.
pub record Mapping {W : Type 0} (target : Target W) : Type 1 where
  pub Mapped : W → ℕ → Type 0
  pub Region : W → ℕ → ℕ → Type 0
  pub detach_in :
      (w : W) (b n a x : ℕ)
      → Region w b n
      → b ≤ a
      → a < b + n
      → b ≤ x
      → x < b + n
      → ¬ Mapped (target.detach a w) x
  pub detach_out :
      (w : W) (b n a x : ℕ)
      → Region w b n
      → b ≤ a
      → a < b + n
      → (x < b) ⊎ (b + n ≤ x)
      → Mapped w x
      → Mapped (target.detach a w) x
  pub free_in : (c : ℕ) (w : W) (x : ℕ) → Mapped (target.free_cap c w) x → Mapped w x
  pub free_out : (c : ℕ) (w : W) (x : ℕ) → Mapped w x → Mapped (target.free_cap c w) x

module _ {W : Type 0} (target : Target W) (ldr : LdrFlags) (mapping : Mapping target) where
  open mapping use {Mapped, Region, detach_in, detach_out, free_in, free_out}

  -- When the stack pointer of the loader is where Loader::start put it, one word below the end of its region,
  -- then the program begins at its entry and on its own stack, no byte of the loader's stack is mapped, and
  -- every other byte is mapped that was.
  pub start_prog-unmap :
      (entry b n word_size : ℕ) (t : Thread W)
      → Region t.world b n
      → 0 < word_size
      → word_size < n
      → t.loader_stack_p ≡ b + n - word_size
      → let t' = unmap_stack_and_start target ldr (start_prog target ldr entry t) in
        (t'.code ≡ program entry)
        × (t'.sp ≡ t.app.stack.sp)
        × ((x : ℕ) → b ≤ x → x < b + n → ¬ Mapped t'.world x)
        × ((x : ℕ) → (x < b) ⊎ (b + n ≤ x) → Mapped t.world x → Mapped t'.world x)
  unfolding unmap_stack_and_start start_prog switch_stack
  start_prog-unmap entry b n word_size t region some_word small at =
      let a = t.loader_stack_p - 1 in
      (
        refl,
        refl,
        λ x p q m.
            detach_in t.world b n a x region (omega (arith, at)) (omega (arith, at)) p q
              (free_in t.loader_stack (target.detach a t.world) x m),
        λ x out m.
            free_out t.loader_stack (target.detach a t.world) x
              (detach_out t.world b n a x region (omega (arith, at)) (omega (arith, at)) out m),
      )
