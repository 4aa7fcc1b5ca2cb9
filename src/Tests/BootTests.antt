-- ===== src/Tests/BootTests.antt =====
-- The theorems on the start of dom0/dom0-ned, and on the stack that it fills, applied.
use l4re_tmp_fs.Base.{
  ℕ, ◌+◌, ◌≤◌, ◌<◌, ◌≡◌, ◌==◌, refl, Bool, true, false, ◌&&◌, ◌||◌, List, [], ◌∷◌, some, pos, arith,
  ltb, leb, length, drop,
}
use l4re_tmp_fs.Ned.Lua.{insert_all}
use l4re_tmp_fs.Ned.Boot.{opt_i, lua}
use l4re_tmp_fs.Ned.Boot.Trace.{
  Event, file, recorder, startup, ending, serves, is_interactive, lua_lem,
}
use l4re_tmp_fs.Ned.App.{Stack, Space, check_access}
use l4re_tmp_fs.Ned.App.Touched.{Backing, AllHave, Downward, check_all, check_all_lem}

-- The second file fails.
abbrev second_fails : Event → Bool
second_fails (file (b ∷ [])) = b == b'b'
second_fails _ = false

abbrev argv : List (List ℕ)
argv = (b'n' ∷ []) ∷ (b'-' ∷ b'i' ∷ []) ∷ (b'b' ∷ []) ∷ (b'c' ∷ []) ∷ []

lua_example :
    lua (recorder second_fails) (insert_all ((1, 3) ∷ (0, 4) ∷ []) []) argv (opt_i ∷ []) 2 []
    ≡ ending
        (serves (opt_i ∷ []))
        (is_interactive (length argv) (opt_i ∷ []) 2)
        (startup (insert_all ((1, 3) ∷ (0, 4) ∷ []) []) (drop 2 argv))
lua_example =
    lua_lem second_fails (insert_all ((1, 3) ∷ (0, 4) ∷ []) []) argv (opt_i ∷ []) 2 refl refl

-- A dataspace that knows which of its bytes have memory.
abbrev space : Space (ℕ → Bool)
space = record {
  page_size = 4096;
  reserved = 8;
  addr_mask = λ a. a;
  alloc_cap = λ w. (some 5, w);
  alloc = λ m n c w. (pos 0, w);
  attach_local = λ n ds w. ((pos 0, 8192), w);
  attach_prog = λ a n f ds o w. (pos 0, w);
  reserve_area = λ a n f l w. ((pos 0, a), w);
  allocate = λ ds o n w. (pos 0, λ x. (leb o x && ltb x (o + n)) || w x);
  set_bits = λ a b. a + b;
}

abbrev stack : Stack
stack = record {
  stack_ds = some 5;
  vma = 8192;
  last_checked = 0;
  local_top = 16384;
  stack_size = 8192;
}

gives_lem :
    (o n : ℕ) (w : ℕ → Bool) (x : ℕ)
    → o ≤ x
    → x < o + n
    → ((leb o x && ltb x (o + n)) || w x) ≡ true
gives_lem o n w x a b = ground arith

keeps_lem : (a b : Bool) → b ≡ true → (a || b) ≡ true
keeps_lem true b h = refl
keeps_lem false b h = h

abbrev backing : Backing space (some 5)
backing = record {
  Has = λ w x. w x ≡ true;
  keeps = λ o n w x h. keeps_lem (leb o x && ltb x (o + n)) (w x) h;
  gives = λ o n w good x a b. gives_lem o n w x a b;
}

abbrev pushes : List (ℕ × ℕ)
pushes = (16380, 4) ∷ (16300, 80) ∷ (12280, 4000) ∷ []

no_error : (check_all space pushes (stack, λ x. false)).0 ≡ true
unfolding check_all check_access
no_error = refl

downward : Downward 8192 16384 pushes
downward = (omega arith, omega arith, (omega arith, omega arith, (omega arith, omega arith, tt)))

check_all_example :
    AllHave space stack backing pushes (check_all space pushes (stack, λ x. false)).1.1
check_all_example =
    check_all_lem space stack backing (omega arith) (omega arith) refl pushes 16384 (λ x. false)
      downward no_error

-- An access that goes on behind its page is let through when it begins where the last one began.
let_through :
    (check_all space ((16380, 4) ∷ (16380, 4096) ∷ []) (stack, λ x. false)).1.1 8192 ≡ false
unfolding check_all check_access
let_through = refl
