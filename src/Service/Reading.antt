-- ===== src/Service/Reading.antt =====
-- `preadv` on the mounted file system, down to the reads of the server's tmpfs.
use native.Mathlib.Nat.{mod-eq_of_lt}
use l4re_tmp_fs.Base.{
  ℕ, ◌*◌, signed_small, zero, suc, length-append, ◌+◌, ◌%◌, ◌≤◌, ◌<◌, ◌≡◌, refl, sym, ap, ◌∙◌, List,
  [], ◌∷◌, arith, false, not, length, take, drop, put_at, take-put_at_zero, take-append-take,
  drop-drop, length-take, length-drop, ℤ, pos, to_word, ◌+ℤ◌, if◌then◌else◌, ◌==◌,
}
use l4re_tmp_fs.Libfs.Platform.{L4}
use l4re_tmp_fs.Libfs.Protocol.{max_rw_buffer_size}
use l4re_tmp_fs.Libfs.Client
use l4re_tmp_fs.Libfs.Connection
use l4re_tmp_fs.Libfs.Connection.{Side}
use l4re_tmp_fs.TmpFs
use l4re_tmp_fs.TmpFs.{Libc, Server, server}
use l4re_tmp_fs.Backend.File.{preadv_from, preadv}
use l4re_tmp_fs.Service.{tmp_remote}

-- In state `f` the file `fh` holds the bytes `d`, and a read gives all that it asks for, up to the
-- end of the file.
abbrev pub Reads : {F : Type 0} → Libc F → F → ℤ → List ℕ → Type 0
Reads libc f fh d =
    (n off : ℕ)
    → let bytes = take n (drop off d) in
      libc.pread64 fh n (pos off) f ≡ ((pos (length bytes), bytes), f)

-- The bytes of a file, dealt out to buffers of the given lengths.
unfoldable pub scatter : List ℕ → List ℕ → List (List ℕ)
scatter [] xs = []
scatter (n ∷ ns) xs = take n xs ∷ scatter ns (drop n xs)

abbrev pub sum : List ℕ → ℕ
sum [] = 0
sum (n ∷ ns) = n + sum ns

abbrev pub AllBelow : ℕ → List ℕ → Type 0
AllBelow m [] = Unit {0}
AllBelow m (n ∷ ns) = (n ≤ m) × AllBelow m ns

pub pos_add : (a b : ℕ) → pos a +ℤ pos b ≡ pos (a + b)
unfolding ◌+ℤ◌
pos_add a b = ground arith

drop-length-take : (n : ℕ) (xs : List ℕ) → drop (length (take n xs)) xs ≡ drop n xs
drop-length-take zero xs = refl
drop-length-take (suc n) [] = refl
drop-length-take (suc n) (x ∷ xs) = drop-length-take n xs

-- Where a read has come to, when it was cut short only by the end.
advance :
    (n off : ℕ) (d : List ℕ) → drop (off + length (take n (drop off d))) d ≡ drop n (drop off d)
advance n off d = sym (drop-drop off _ d) ∙ drop-length-take n (drop off d)

total_lem :
    (n m done off : ℕ) (d : List ℕ)
    → let k = length (take n (drop off d)) in
      done + k + length (take m (drop (off + k) d)) ≡ done + length (take (n + m) (drop off d))
total_lem n m done off d = rw (advance n off d) (
    omega (
      arith,
      ap length (take-append-take n m (drop off d)),
      length-append (take n (drop off d)) (take m (drop n (drop off d))),
    ))

-- What `preadv` copies from the shared buffer behind a read.
copied :
    (bytes old : List ℕ)
    → (if not (length bytes == 0) then take (length bytes) (put_at 0 bytes old) else []) ≡ bytes
copied [] old = refl
copied (b ∷ bytes) old =
    let more : (suc (length bytes) == 0) ≡ false = ground arith in
    rw more (take-put_at_zero (b ∷ bytes) old)

module _ {F : Type 0} (l4 : L4) (libc : Libc F) (fh : ℤ) (d : List ℕ) (f : F)
    (small : 2 * length d < l4.word_mod) (reads : Reads libc f fh d) where
  abbrev Filled : Server F → List ℕ → Server F
  Filled s bytes = record s { rw_buf = put_at 0 bytes s.rw_buf; files = f }

  pread_lem :
      (n off : ℕ) (c : Side (Server F))
      → n ≤ max_rw_buffer_size
      → c.server.files ≡ f
      → let bytes = take n (drop off d) in
        let r = Client.pread l4 (tmp_remote l4 libc).call fh n (pos off) c in
        (r.0 ≡ (pos 0, length bytes)) × (r.1.server ≡ Filled c.server bytes)
  unfolding TmpFs.pread server to_word
  pread_lem n off c le here =
      let bytes : List ℕ = take n (drop off d) in
      let (ret, left) = Connection.pread_lem l4 (server l4 libc) c fh n (pos off) le in
      let got : libc.pread64 fh n (pos off) c.server.files ≡ ((pos (length bytes), bytes), f) =
        rw here (reads n off) in
      let count : length bytes % l4.word_mod ≡ length bytes =
        mod-eq_of_lt (omega (arith, length-take n (drop off d), length-drop off d)) in
      (ret ∙ rw (got, count) refl, left ∙ rw got refl)

  preadv_from_lem :
      (iov : List ℕ) (off done : ℕ) (c : Side (Server F))
      → AllBelow max_rw_buffer_size iov
      → c.server.files ≡ f
      → 2 * (done + length (drop off d)) < l4.word_mod
      → let r = preadv_from l4 (tmp_remote l4 libc) fh iov (pos off) done c in
        (r.0.0 ≡ pos (done + length (take (sum iov) (drop off d))))
        × (r.0.1 ≡ scatter iov (drop off d))
        × (r.1.server.files ≡ f)
  unfolding preadv_from scatter
  preadv_from_lem [] off done c fit here short =
      (signed_small l4.word_mod done (omega arith) ∙ ap pos (omega arith), refl, here)
  preadv_from_lem (n ∷ iov) off done c fit here short =
      let bytes : List ℕ = take n (drop off d) in
      let (ret, left) = pread_lem n off c fit.0 here in
      let c' = (Client.pread l4 (tmp_remote l4 libc).call fh n (pos off) c).1 in
      let got : length bytes ≤ length (drop off d) = omega (arith, length-take n (drop off d)) in
      let words : (done + length bytes) % l4.word_mod ≡ done + length bytes =
        mod-eq_of_lt (omega arith) in
      let left_over : length (drop (off + length bytes) d) + length bytes ≤ length (drop off d) =
        omega (arith, length-drop (off + length bytes) d, length-drop off d) in
      let (total, chunks, files) =
        preadv_from_lem iov (off + length bytes) (done + length bytes) c' fit.1
          (ap (λ s. s.files) left) (omega arith) in
      rw (ret, pos_add off (length bytes), words)
        (
          total ∙ ap pos (total_lem n (sum iov) done off d),
          rw (ap (λ s. s.rw_buf) left, copied bytes c.server.rw_buf, chunks, advance n off d) refl,
          files,
        )

-- On the mounted file system `preadv` deals the bytes of the server's file out to the buffers, returns
-- how many there were, and changes no file: given that the file holds `d`, that a read gives all that
-- it asks for, up to the end of the file, that no buffer is longer than the shared one, and that an ssize_t can count
-- the bytes of the file.
pub preadv_local :
    {F : Type 0} (l4 : L4) (libc : Libc F) (fh : ℤ) (d iov : List ℕ) (off : ℕ) (c : Side (Server F))
    → 2 * length d < l4.word_mod
    → Reads libc c.server.files fh d
    → AllBelow max_rw_buffer_size iov
    → let r = preadv l4 (tmp_remote l4 libc) fh iov (pos off) c in
      (r.0.0 ≡ pos (length (take (sum iov) (drop off d))))
      × (r.0.1 ≡ scatter iov (drop off d))
      × (r.1.server.files ≡ c.server.files)
unfolding preadv
preadv_local l4 libc fh d iov off c small reads fit =
    let (total, chunks, files) =
      preadv_from_lem l4 libc fh d c.server.files small reads iov off 0 c fit refl
        (omega (arith, length-drop off d)) in
    (total ∙ ap pos (omega arith), chunks, files)
