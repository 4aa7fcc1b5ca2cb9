-- ===== src/Kernel/Stack/Frame.antt =====
-- dom0/dom0-l4re_kernel/server/src/loader.cc and main.cc: the arguments that a program is started with are
-- those that it finds.
use l4re_tmp_fs.Base.{
  ℕ, zero, suc, ◌+◌, ◌-◌, ◌*◌, ◌%◌, ◌<◌, ◌==◌, ◌≡◌, ◌≢◌, refl, ap, ◌∙◌, subst, List, [], ◌∷◌, ◌++◌,
  append_assoc, some, length, arith, if◌then◌else◌,
}
use native.Mathlib.Nat.{mod-eq_of_lt, add-mod_right}
use l4re_tmp_fs.Kernel.Memory.{Memory, Word, Words, load_word, load_word-store, store-Words}
use l4re_tmp_fs.Kernel.Stack.{
  State, push_object, push, push_all, push_envp, push_args, push_argv, skip_words, scan_aux,
  find_aux, aux_tag,
}

abbrev pub All {ℓ κ} : {A : Type ℓ} → (A → Type κ) → List A → Type κ
All P [] = Unit
All P (x ∷ xs) = P x × All P xs

abbrev pub reverse_onto : List ℕ → List ℕ → List ℕ
reverse_onto [] ws = ws
reverse_onto (e ∷ es) ws = reverse_onto es (e ∷ ws)

reverse_onto-append : (es xs ws : List ℕ) → reverse_onto es (xs ++ ws) ≡ reverse_onto es xs ++ ws
reverse_onto-append [] xs ws = refl
reverse_onto-append (e ∷ es) xs ws = reverse_onto-append es (e ∷ xs) ws

length-reverse_onto : (es xs : List ℕ) → length (reverse_onto es xs) ≡ length es + length xs
length-reverse_onto [] xs = omega arith
length-reverse_onto (e ∷ es) xs = omega (arith, length-reverse_onto es (e ∷ xs))

All-reverse_onto {κ} :
    (P : ℕ → Type κ) (es xs : List ℕ) → All P es → All P xs → All P (reverse_onto es xs)
All-reverse_onto P [] xs h k = k
All-reverse_onto P (e ∷ es) xs h k = All-reverse_onto P es (e ∷ xs) h.1 (h.0, k)

wrap : (p w m : ℕ) → p < m → (p + w + m - w) % m ≡ p
wrap p w m h = subst (λ n. n % m ≡ p) (omega arith) (add-mod_right p m ∙ mod-eq_of_lt h)

row : (p n w : ℕ) → p + suc n * w ≡ p + n * w + w
row p n w = grind arith

module _ (word : Word) where
  open word use {size, limit, encode, length-encode}

  -- The stack pointer is `p`, and the words from there on are `ws`.
  abbrev pub Frame : State → ℕ → List ℕ → Type 0
  Frame s p ws = (s.stack.sp ≡ p) × (p < limit) × Words word p ws s.memory

  push-Frame :
      (v p : ℕ) (ws : List ℕ) (s : State)
      → v < limit
      → Frame s (p + size) ws
      → Frame (push word v s) p (v ∷ ws)
  unfolding push push_object
  push-Frame v p ws s h (at, below, holds) =
      let sp : (s.stack.sp + limit - length (encode v)) % limit ≡ p =
        rw (at, length-encode v) (wrap p size limit (omega arith)) in
      (
        sp,
        omega arith,
        (
          rw sp (load_word-store word p v s.memory h),
          rw sp (
              store-Words word p (p + size) (encode v) ws s.memory
                (rw (length-encode v) (omega arith)) holds),
        ),
      )

  push_all-Frame :
      (es : List ℕ) (p : ℕ) (ws : List ℕ) (s : State)
      → All (λ e. e < limit) es
      → Frame s (p + length es * size) ws
      → Frame (push_all word es s) p (reverse_onto es ws)
  unfolding push_all
  push_all-Frame [] p ws s h f = subst (λ n. Frame s n ws) (grind arith) f
  push_all-Frame (e ∷ es) p ws s h f = push_all-Frame es p (e ∷ ws) (push word e s) h.1 (
      push-Frame e (p + length es * size) ws s h.0
        (subst (λ n. Frame s n ws) (row p (length es) size) f))

  push_args-Frame :
      (as_ : List ℕ) (p : ℕ) (ws : List ℕ) (s : State)
      → All (λ a. a < limit) as_
      → Frame s (p + length as_ * size) ws
      → Frame (push_args word as_ s) p (as_ ++ ws)
  unfolding push_args
  push_args-Frame [] p ws s h f = subst (λ n. Frame s n ws) (grind arith) f
  push_args-Frame (a ∷ as_) p ws s h f = push-Frame a p (as_ ++ ws) (push_args word as_ s) h.0 (
      push_args-Frame as_ (p + size) ws s h.1
        (subst (λ n. Frame s n ws) (row p (length as_) size ∙ omega arith) f))

  -- The words that `push_envp` and `push_argv` leave on the stack.
  abbrev pub layout : List ℕ → List ℕ → List ℕ → List ℕ
  layout argv envp aux = length argv ∷ argv ++ (0 ∷ reverse_onto envp (0 ∷ aux))

  pub push_argv-push_envp :
      (argv envp aux : List ℕ) (p : ℕ) (s : State)
      → All (λ a. a < limit) argv
      → All (λ e. e < limit) envp
      → length argv < limit
      → Frame s (p + size + length argv * size + size + length envp * size + size) aux
      → Frame (push_argv word argv (push_envp word envp s)) p (layout argv envp aux)
  unfolding push_argv push_envp
  push_argv-push_envp argv envp aux p s ha he n f =
      push-Frame (length argv) p (argv ++ (0 ∷ reverse_onto envp (0 ∷ aux))) _ n (
        push_args-Frame argv (p + size) (0 ∷ reverse_onto envp (0 ∷ aux)) _ ha (
          push-Frame 0 (p + size + length argv * size) (reverse_onto envp (0 ∷ aux)) _
            (positive f.1)
            (push_all-Frame envp (p + size + length argv * size + size) (0 ∷ aux) _ he (
              push-Frame 0 (p + size + length argv * size + size + length envp * size) aux s
                (positive f.1) f))))
    where
      positive : {m n : ℕ} → m < n → 0 < n
      positive h = omega arith

  skip_words_lem :
      (es ws : List ℕ) (rounds a : ℕ) (m : Memory)
      → All (λ e. e ≢ 0) es
      → Words word a (es ++ 0 ∷ ws) m
      → length es < rounds
      → (skip_words word rounds a m ≡ some (a + length es * size))
        × Words word (a + length es * size + size) ws m
  unfolding skip_words
  skip_words_lem es ws zero a m z h r = absurd (omega arith)
  skip_words_lem [] ws (suc rounds) a m z h r =
      (rw h.0 (ap some (grind arith)), subst (λ n. Words word n ws m) (grind arith) h.1)
  skip_words_lem (e ∷ es) ws (suc rounds) a m z h r =
      let (found, rest) = skip_words_lem es ws rounds (a + size) m z.1 h.1 (omega arith) in
      let step : a + size + length es * size ≡ a + suc (length es) * size = grind arith in
      (
        ground (arith, found, step, h.0, z.0),
        subst (λ n. Words word n ws m) (ap (λ n. n + size) step) rest,
      )

  -- The AUX vector: pairs of a tag, which is not 0, and a value, and a tag 0.
  abbrev pub aux_words : List (ℕ × ℕ) → List ℕ → List ℕ
  aux_words [] ws = 0 ∷ ws
  aux_words ((tag, value) ∷ ps) ws = tag ∷ value ∷ aux_words ps ws

  -- The last value under L4Re's tag.
  abbrev pub last_aux : ℕ → List (ℕ × ℕ) → ℕ
  last_aux found [] = found
  last_aux found ((tag, value) ∷ ps) = last_aux (if tag == aux_tag word then value else found) ps

  scan_aux_lem :
      (ps : List (ℕ × ℕ)) (ws : List ℕ) (rounds found a : ℕ) (m : Memory)
      → All (λ (p : ℕ × ℕ). p.0 ≢ 0) ps
      → Words word a (aux_words ps ws) m
      → length ps < rounds
      → scan_aux word rounds found a m ≡ some (last_aux found ps)
  unfolding scan_aux
  scan_aux_lem ps ws zero found a m z h r = absurd (omega arith)
  scan_aux_lem [] ws (suc rounds) found a m z h r = rw h.0
  scan_aux_lem ((tag, value) ∷ ps) ws (suc rounds) found a m z h r =
      let found' : ℕ = if tag == aux_tag word then value else found in
      rw (h.0, h.1.0)
        (ground (
          arith,
          scan_aux_lem ps ws rounds found' (a + size + size) m z.1 h.1.1 (omega arith),
          z.0,
        ))

  Words-drop :
      (xs ys : List ℕ) (a : ℕ) (m : Memory)
      → Words word a (xs ++ ys) m
      → Words word (a + length xs * size) ys m
  Words-drop [] ys a m h = subst (λ n. Words word n ys m) (grind arith) h
  Words-drop (x ∷ xs) ys a m h =
      subst (λ n. Words word n ys m) (grind arith) (Words-drop xs ys (a + size) m h.1)

  Words-take : (xs ys : List ℕ) (a : ℕ) (m : Memory) → Words word a (xs ++ ys) m → Words word a xs m
  Words-take [] ys a m h = tt
  Words-take (x ∷ xs) ys a m h = (h.0, Words-take xs ys (a + size) m h.1)

  -- What the kernel of the loader pushes for a program, on top of an AUX vector, leads the program to its
  -- arguments and to the last entry of the vector under L4Re's tag: both loops of its `main` end.
  pub find_aux-push :
      (argv envp ws : List ℕ) (ps : List (ℕ × ℕ)) (p rounds found : ℕ) (s : State)
      → All (λ a. a < limit) argv
      → All (λ e. e < limit) envp
      → All (λ e. e ≢ 0) envp
      → All (λ (q : ℕ × ℕ). q.0 ≢ 0) ps
      → length argv < limit
      → length envp < rounds
      → length ps < rounds
      → Frame s (p + size + length argv * size + size + length envp * size + size) (aux_words ps ws)
      → let t = push_argv word argv (push_envp word envp s) in
        (t.stack.sp ≡ p)
        × Words word (p + size) (argv ++ 0 ∷ []) t.memory
        × (find_aux word rounds found (load_word word p t.memory) (p + size) t.memory
            ≡ some (last_aux found ps))
  unfolding find_aux
  find_aux-push argv envp ws ps p rounds found s ha he hz hp n r q f = (
    frame.0,
    Words-take (argv ++ 0 ∷ []) (reverse_onto envp (0 ∷ aux_words ps ws)) (p + size) t.memory
        (rw (append_assoc) frame.2.1),
    rw (frame.2.0, find_aux, skipped.0) (scan_aux_lem ps ws rounds found _ t.memory hp skipped.1 q),
  )
    where
      t : State
      t = push_argv word argv (push_envp word envp s)

      frame : Frame t p (layout argv envp (aux_words ps ws))
      frame = push_argv-push_envp argv envp (aux_words ps ws) p s ha he n f

      envp_at : ℕ
      envp_at = p + size + length argv * size + size

      behind : Words word envp_at (reverse_onto envp [] ++ 0 ∷ aux_words ps ws) t.memory
      behind =
          subst (λ vs. Words word envp_at vs t.memory)
            (reverse_onto-append envp [] (0 ∷ aux_words ps ws))
            (Words-drop argv (0 ∷ reverse_onto envp (0 ∷ aux_words ps ws)) (p + size) t.memory
              frame.2.1).1

      skipped :
          (skip_words word rounds envp_at t.memory
            ≡ some (envp_at + length (reverse_onto envp []) * size))
          × Words word
              (envp_at + length (reverse_onto envp []) * size + size)
              (aux_words ps ws)
              t.memory
      skipped =
          skip_words_lem (reverse_onto envp []) (aux_words ps ws) rounds envp_at t.memory
            (All-reverse_onto (λ e. e ≢ 0) envp [] hz tt) behind
            (omega (arith, length-reverse_onto envp []))
