-- ===== src/TmpFs/Dataspace.antt =====
-- `dataspace` of dom0/fs_srv/server/src/main.cc: a file is copied into a new dataspace.
use native.Mathlib.Nat.{mod-eq_of_lt, le_antisymm}
use l4re_tmp_fs.Base.{
  ℕ, zero, suc, ◌+◌, ◌*◌, ◌-◌, ◌%◌, ◌≤◌, ◌<◌, ◌≡◌, refl, sym, ap, ◌∙◌, inl, inr, Bool-cases, List,
  [], ◌∷◌, ◌++◌, arith, some, true, false, ltb, ltb→lt, lt→ltb, le→ltb, ℤ, pos, negsuc, to_word,
  length, take, drop, put_at, length-take, length-drop, length-put_at, take-append-take,
  take-put_at_add, take_all,
}
use l4re_tmp_fs.Libfs.Platform.{L4, Stat64}
use l4re_tmp_fs.Libfs.Connection.{to_int-to_word}
use l4re_tmp_fs.TmpFs.{Libc, Server, copy_loop, dataspace, int_mod, to_size}

-- In state `f` the file `fh` holds the bytes `d`: a read in front of its end gives some of them, and
-- changes nothing.
abbrev pub Holds : {F : Type 0} → Libc F → F → ℤ → List ℕ → Type 0
Holds libc f fh d =
    (n off : ℕ)
    → 0 < n
    → off < length d
    → (k : ℕ) × (0 < k)
      × (k ≤ n)
      × (off + k ≤ length d)
      × (libc.pread64 fh n (pos off) f ≡ ((pos k, take k (drop off d)), f))

filled_lem :
    (read k : ℕ) (d memory : List ℕ)
    → read + k ≤ length d
    → read ≤ length memory
    → take read memory ≡ take read d
    → take (read + k) (put_at read (take k (drop read d)) memory) ≡ take (read + k) d
filled_lem read k d memory k_fits fits same =
    let bs : List ℕ = take k (drop read d) in
    let len : length bs ≡ k = omega (arith, length-take k (drop read d), length-drop read d) in
    ap (λ t. take (read + t) (put_at read bs memory)) (sym len)
    ∙ take-put_at_add read bs memory fits
    ∙ ap (λ xs. xs ++ bs) same
    ∙ take-append-take read k d

module _ {F : Type 0} (l4 : L4) (libc : Libc F) (fh : ℤ) (d : List ℕ) (f : F)
    (small : length d < l4.word_mod) (reads : Holds libc f fh d) where
  copy_loop_lem :
      (fuel read : ℕ) (memory : List ℕ)
      → read ≤ length d
      → length d ≤ length memory
      → take read memory ≡ take read d
      → length d - read < fuel
      → (m : List ℕ) × (copy_loop l4 libc fuel fh (length d) read memory f ≡ some (m, f))
        × (take (length d) m ≡ d)
        × (length m ≡ length memory)
  unfolding copy_loop to_word
  copy_loop_lem zero read memory le fits same fuel = absurd (omega arith)
  copy_loop_lem (suc n) read memory le fits same fuel = elim (Bool-cases (ltb read (length d))) [
    | inr done ↦
        let ended : length d ≤ read = ground arith in
        let at_end = λ (h : length d ≤ read). le_antisymm le h in
        let all : take (length d) memory ≡ d =
          ap (λ t. take t memory) (sym (at_end ended))
          ∙ same
          ∙ ap (λ t. take t d) (at_end ended)
          ∙ take_all (length d) d (omega arith) in
        rw done (memory, refl, all, refl)
    | inl more ↦
        let ahead : read < length d = ltb→lt _ _ more in
        let (k, some_byte, k_le, k_fits, e) = reads (length d) read (omega arith) ahead in
        let bs : List ℕ = take k (drop read d) in
        let len : length bs ≡ k = omega (arith, length-take k (drop read d), length-drop read d) in
        let next : (read + k % l4.word_mod) % l4.word_mod ≡ read + k =
          ap (λ t. (read + t) % l4.word_mod) (mod-eq_of_lt {n = k} {m = l4.word_mod} (omega arith))
          ∙ mod-eq_of_lt (omega arith) in
        let filled : take (read + k) (put_at read bs memory) ≡ take (read + k) d =
          filled_lem read k d memory k_fits (omega arith) same in
        let same_size : length (put_at read bs memory) ≡ length memory =
          length-put_at read bs memory (omega arith) in
        let (m, runs, content, size) =
          copy_loop_lem n (read + k) (put_at read bs memory) k_fits (omega arith) filled
            (omega arith) in
        rw (more, e, next) (m, runs, content, size ∙ same_size)
  ]

to_size_lem : (l4 : L4) (n : ℕ) → n < l4.word_mod → 2 * n < int_mod → to_size l4 (pos n) ≡ n
unfolding to_size to_word
to_size_lem l4 n small int =
    ap (to_word l4.word_mod) (to_int-to_word int_mod (pos n) (int, omega arith))
    ∙ mod-eq_of_lt small

dataspace_run :
    {F : Type 0} (l4 : L4) (libc : Libc F) (fh : ℤ) (n : ℕ) (s : Server F) (st : ℤ × Stat64)
    (m : List ℕ)
    → n < l4.word_mod
    → 2 * n < int_mod
    → libc.fstat64 fh s.files ≡ (st, s.files)
    → st.1.st_size ≡ pos n
    → copy_loop l4 libc (suc n) fh n 0 (libc.alloc_ds n) s.files ≡ some (m, s.files)
    → let ds = libc.alloc_cap s.spaces in
      dataspace l4 libc fh s ≡ ((pos 0, some ds), record s { spaces = (ds, m) ∷ s.spaces })
unfolding dataspace
dataspace_run l4 libc fh n s st m small int stat size runs =
    let words = to_size_lem l4 n small int in rw (dataspace, stat, size, words, runs) refl

-- The dataspace that `dataspace` hands out holds the file: given that `fstat` tells its size, every
-- read in front of the end makes progress, and the size fits in an `int` and in a machine word.
pub dataspace_lem :
    {F : Type 0} (l4 : L4) (libc : Libc F) (fh : ℤ) (d : List ℕ) (s : Server F) (st : ℤ × Stat64)
    → length d < l4.word_mod
    → 2 * length d < int_mod
    → Holds libc s.files fh d
    → libc.fstat64 fh s.files ≡ (st, s.files)
    → st.1.st_size ≡ pos (length d)
    → let ds = libc.alloc_cap s.spaces in
      (m : List ℕ) × (dataspace l4 libc fh s
        ≡ ((pos 0, some ds), record s { spaces = (ds, m) ∷ s.spaces }))
      × (take (length d) m ≡ d)
      × (length m ≡ length (libc.alloc_ds (length d)))
dataspace_lem l4 libc fh d s st small int reads stat size =
    let (m, runs, content, sized) =
      copy_loop_lem l4 libc fh d s.files small reads (suc (length d)) 0 (libc.alloc_ds (length d))
        (omega arith) (libc.length-alloc_ds (length d)) refl (omega arith) in
    (m, dataspace_run l4 libc fh (length d) s st m small int stat size runs, content, sized)

-- The loop adds the -1 of a failed first read to `read`, which wraps to the greatest word.
copy_loop_error :
    {F : Type 0} (l4 : L4) (libc : Libc F) (fh : ℤ) (n : ℕ) (memory : List ℕ) (f f' : F)
    → suc n < l4.word_mod
    → libc.pread64 fh (suc n) (pos 0) f ≡ ((negsuc 0, []), f')
    → copy_loop l4 libc (suc (suc n)) fh (suc n) 0 memory f ≡ some (memory, f')
unfolding copy_loop to_word put_at
copy_loop_error l4 libc fh n memory f f' small e =
    let w = l4.word_mod in
    let zero_mod : 0 % w ≡ 0 = mod-eq_of_lt (omega arith) in
    let top : 0 + (w - 1 - 0) ≡ w - 1 = omega arith in
    let back : (0 + (w - 1 - 0 % w)) % w ≡ w - 1 =
      ap (λ t. (0 + (w - 1 - t)) % w) zero_mod ∙ ap (λ t. t % w) top ∙ mod-eq_of_lt (omega arith) in
    let first : ltb 0 (suc n) ≡ true = lt→ltb 0 (suc n) (omega arith) in
    let over : ltb (w - 1) (suc n) ≡ false = le→ltb _ _ (omega arith) in
    rw (first, e, back, over) refl

-- When the first read of a file that is not empty fails, `dataspace` still answers with success, and
-- hands out a dataspace to which nothing was copied.
pub dataspace-read_error :
    {F : Type 0} (l4 : L4) (libc : Libc F) (fh : ℤ) (n : ℕ) (s : Server F) (st : ℤ × Stat64) (f : F)
    → suc n < l4.word_mod
    → 2 * suc n < int_mod
    → libc.fstat64 fh s.files ≡ (st, s.files)
    → st.1.st_size ≡ pos (suc n)
    → libc.pread64 fh (suc n) (pos 0) s.files ≡ ((negsuc 0, []), f)
    → let ds = libc.alloc_cap s.spaces in
      dataspace l4 libc fh s
      ≡ ((pos 0, some ds), record s { spaces = (ds, libc.alloc_ds (suc n)) ∷ s.spaces; files = f })
unfolding dataspace
dataspace-read_error l4 libc fh n s st f small int stat size e =
    let words = to_size_lem l4 (suc n) small int in
    rw
      (
        dataspace,
        stat,
        size,
        words,
        copy_loop_error l4 libc fh n (libc.alloc_ds (suc n)) s.files f small e,
      )
      refl
