-- ===== src/Kernel/Stack.antt =====
-- dom0/dom0-l4re_kernel/server/src/loader.h and loader.cc: the stack that the arguments of a program are
-- laid out on; and main.cc, like dom0/dom0-ned/server/src/main.cc, which finds the AUX vector behind them.
pub mod Frame
pub mod Align
use l4re_tmp_fs.Base.{
  ℕ, zero, suc, ◌+◌, ◌-◌, ◌*◌, ◌%◌, ◌^◌, ◌==◌, ◌≡◌, Bool, true, false, List, [], ◌∷◌, Option, none,
  some, length, leb, if◌then◌else◌,
}
use l4re_tmp_fs.Kernel.Memory.{Memory, Word, store, load_word}

-- L4Re_stack: `_addr`, `_size` and `sp`.
pub record L4reStack : Type 0 where
  pub addr : ℕ
  pub size : ℕ
  pub sp : ℕ

-- The stack, and the memory that `sp` points into.
pub record State : Type 0 where
  pub stack : L4reStack
  pub memory : Memory

abbrev pub set_sp : ℕ → State → State
set_sp p s = record s { stack = record (s.stack) { sp = p } }

unfoldable pub set_target_stack : ℕ → ℕ → State → State
set_target_stack addr size s = record s { stack = record (s.stack) { addr = addr; size = size } }

-- The loop of `align`, from `bits` on.
unfoldable pub align_bits : ℕ → ℕ → ℕ → ℕ
align_bits zero bits size = bits
align_bits (suc rounds) bits size =
    let rest = align_bits rounds (suc bits) size in if leb (2 ^ bits) size then rest else bits

-- `rounds` is the number of the bits of a word.
unfoldable pub align : ℕ → ℕ → State → State
align rounds size s = set_sp (s.stack.sp - s.stack.sp % 2 ^ align_bits rounds 0 size) s

module _ (word : Word) where
  unfoldable pub set_local_addr : ℕ → State → State
  set_local_addr addr s = set_sp ((addr + s.stack.size) % word.limit) s

  unfoldable pub push_object : List ℕ → State → State
  push_object src s =
      let sp = (s.stack.sp + word.limit - length src) % word.limit in
      record (set_sp sp s) { memory = store sp src s.memory }

  unfoldable pub push : ℕ → State → State
  push v s = push_object (word.encode v) s

  -- The loop of `push_envp`, over the pointers up to the null pointer.
  unfoldable pub push_all : List ℕ → State → State
  push_all [] s = s
  push_all (e ∷ es) s = push_all es (push e s)

  unfoldable pub push_envp : List ℕ → State → State
  push_envp envp s = push_all envp (push 0 s)

  -- The loop of `push_argv`, which begins at the last argument.
  unfoldable pub push_args : List ℕ → State → State
  push_args [] s = s
  push_args (a ∷ as_) s = push a (push_args as_ s)

  unfoldable pub push_argv : List ℕ → State → State
  push_argv argv s = push (length argv) (push_args argv (push 0 s))

  -- while (*auxp) ++auxp
  unfoldable pub skip_words : ℕ → ℕ → Memory → Option ℕ
  skip_words zero a m = none
  skip_words (suc rounds) a m =
      let rest = skip_words rounds (a + word.size) m in
      if load_word word a m == 0 then some a else rest

  abbrev pub aux_tag : ℕ
  aux_tag = 240

  -- The loop over the pairs of the AUX vector. `found` is what `l4re_aux` holds.
  unfoldable pub scan_aux : ℕ → ℕ → ℕ → Memory → Option ℕ
  scan_aux zero found a m = none
  scan_aux (suc rounds) found a m =
      let tag = load_word word a m in
      let value = load_word word (a + word.size) m in
      let rest =
        scan_aux rounds (if tag == aux_tag then value else found) (a + word.size + word.size) m in
      if tag == 0 then some found else rest

  -- What `main` makes of `argc` and `argv`. `rounds` bounds each loop; `found` is what `l4re_aux` holds
  -- in front of them.
  unfoldable pub find_aux : ℕ → ℕ → ℕ → ℕ → Memory → Option ℕ
  find_aux rounds found argc argv m =
      elim (skip_words rounds (argv + argc * word.size + word.size) m) [
        | none ↦ none
        | some a ↦ scan_aux rounds found (a + word.size) m
      ]
