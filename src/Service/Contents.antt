-- ===== src/Service/Contents.antt =====
-- A file that is written and read through the mounted file system: `pwritev` and `preadv` of
-- dom0/libfs/lib/libc_backend/l4fs.cc, one after the other.
use l4re_tmp_fs.Base.{
  ℕ, ◌*◌, length-append, ◌+◌, ◌≤◌, ◌<◌, ◌≡◌, refl, sym, ap, ap₂, ◌∙◌, List, [], ◌∷◌, ◌++◌,
  append_assoc, arith, length, take, drop, put_at, length-put_at-min, drop-put_at, take-append,
  subst, drop-append, put_at_nil, put_at-put_at, ℤ, pos, ◌==◌, true,
}
use l4re_tmp_fs.Libfs.Platform.{L4}
use l4re_tmp_fs.Libfs.Protocol.{max_rw_buffer_size}
use l4re_tmp_fs.Libfs.Connection.{Side}
use l4re_tmp_fs.TmpFs.{Libc, Server}
use l4re_tmp_fs.Backend.File.{preadv, pwritev}
use l4re_tmp_fs.Service.{tmp_remote}
use l4re_tmp_fs.Service.Reading.{Reads, pos_add, scatter, sum, AllBelow, preadv_local}
use l4re_tmp_fs.Service.Writing.{AllFit, total, write_all, pwritev_local}

-- The regular file of the handle `fh`. In the states `IsOpen` it is open under that handle for reading and
-- writing, and has room to grow up to `room` bytes. A read then gives what there is and leaves the file as it
-- is; a write in the file, or at its end, that does not pass `room` replaces the bytes there and makes the file
-- longer if it has to.
pub record Open {F : Type 0} (libc : Libc F) (fh : ℤ) : Type 1 where
  pub content : F → List ℕ
  pub IsOpen : F → Type 0
  pub room : ℕ
  pub reads : (f : F) → IsOpen f → Reads libc f fh (content f)
  pub writes :
      (bs : List ℕ) (p : ℕ) (f : F)
      → IsOpen f
      → p ≤ length (content f)
      → p + length bs ≤ room
      → let r = libc.pwrite64 fh bs (pos p) f in
        (r.0 ≡ pos (length bs)) × (content r.1 ≡ put_at p bs (content f)) × IsOpen r.1

-- The bytes of the buffers, one buffer after the other.
unfoldable pub joined : List (List ℕ) → List ℕ
joined [] = []
joined (b ∷ bs) = b ++ joined bs

abbrev pub lengths : List (List ℕ) → List ℕ
lengths [] = []
lengths (b ∷ bs) = length b ∷ lengths bs

sum-lengths : (bs : List (List ℕ)) → sum (lengths bs) ≡ length (joined bs)
unfolding joined
sum-lengths [] = refl
sum-lengths (b ∷ bs) = omega (arith, sum-lengths bs, length-append b (joined bs))

AllBelow-lengths : (m : ℕ) (bs : List (List ℕ)) → AllFit m bs → AllBelow m (lengths bs)
AllBelow-lengths m [] h = tt
AllBelow-lengths m (b ∷ bs) h = (h.0, AllBelow-lengths m bs h.1)

scatter-joined :
    (bs : List (List ℕ)) (rest : List ℕ) → scatter (lengths bs) (joined bs ++ rest) ≡ bs
unfolding scatter joined
scatter-joined [] rest = refl
scatter-joined (b ∷ bs) rest = rw (append_assoc) (
    ap₂ (◌∷◌) (take-append b (joined bs ++ rest))
      (ap (scatter (lengths bs)) (drop-append b (joined bs ++ rest)) ∙ scatter-joined bs rest))

put_at_end : (p : ℕ) (bs d : List ℕ) → p ≤ length d → p + length bs ≤ length (put_at p bs d)
put_at_end p bs d h = omega (arith, length-put_at-min p bs d)

module _ {F : Type 0} (libc : Libc F) (fh : ℤ) (file : Open libc fh) where
  open file use {content, IsOpen, room, writes}

  -- The buffers end up in the file as one write of all their bytes.
  write_all_lem :
      (iov : List (List ℕ)) (p done : ℕ) (f : F)
      → IsOpen f
      → p ≤ length (content f)
      → p + length (joined iov) ≤ room
      → let t = write_all libc fh iov (pos p) done f in
        (t.0 ≡ pos (done + length (joined iov)))
        × (content t.1 ≡ put_at p (joined iov) (content f))
        × IsOpen t.1
  unfolding write_all joined
  write_all_lem [] p done f o h fits = (ap pos (omega arith), sym (put_at_nil p (content f)), o)
  write_all_lem (b ∷ iov) p done f o h fits =
      let len = length-append b (joined iov) in
      let w = writes b p f o h (omega (arith, len)) in
      let f' = (libc.pwrite64 fh b (pos p) f).1 in
      let end : p + length b ≤ length (content f') = rw w.1 (put_at_end p b (content f) h) in
      let rest =
        write_all_lem iov (p + length b) (done + length b) f' w.2 end (omega (arith, len)) in
      let whole : (length b == length b) ≡ true = ground arith in
      rw (w.0, pos_add p (length b), whole)
        (
          rest.0 ∙ ap pos (omega (arith, length-append b (joined iov))),
          rest.1
              ∙ ap (put_at (p + length b) (joined iov)) w.1
              ∙ put_at-put_at p b (joined iov) (content f) h,
          rest.2,
        )

total-lengths : (bs : List (List ℕ)) → total bs ≡ length (joined bs)
unfolding joined
total-lengths [] = refl
total-lengths (b ∷ bs) = omega (arith, total-lengths bs, length-append b (joined bs))

-- What `pwritev` writes to a file of the mounted file system `preadv` reads back: into buffers of the same
-- lengths at the same offset it gives the same bytes, and both return the number of all bytes. The file is
-- open and has room for the bytes, the offset is not behind its end, no buffer is longer than the shared one,
-- and an ssize_t can count the bytes of the file.
pub preadv-pwritev :
    {F : Type 0} (l4 : L4) (libc : Libc F) (fh : ℤ) (file : Open libc fh) (iov : List (List ℕ))
    (p : ℕ) (c : Side (Server F))
    → max_rw_buffer_size < l4.word_mod
    → AllFit max_rw_buffer_size iov
    → file.IsOpen c.server.files
    → p ≤ length (file.content c.server.files)
    → p + length (joined iov) ≤ file.room
    → 2 * length (put_at p (joined iov) (file.content c.server.files)) < l4.word_mod
    → let w = pwritev l4 (tmp_remote l4 libc) fh iov (pos p) c in
      let r = preadv l4 (tmp_remote l4 libc) fh (lengths iov) (pos p) w.1 in
      (w.0 ≡ pos (length (joined iov))) × (r.0 ≡ (pos (length (joined iov)), iov))
preadv-pwritev l4 libc fh file iov p c small fit open_ le fits short =
    let d = file.content c.server.files in
    let end = put_at_end p (joined iov) d le in
    let written =
      pwritev_local l4 libc fh iov (pos p) c small fit (omega (arith, total-lengths iov)) in
    let all = write_all_lem libc fh file iov p 0 c.server.files open_ le fits in
    let w = pwritev l4 (tmp_remote l4 libc) fh iov (pos p) c in
    let after : file.content w.1.server.files ≡ put_at p (joined iov) d =
      ap file.content written.1 ∙ all.1 in
    let read =
      preadv_local l4 libc fh (put_at p (joined iov) d) (lengths iov) p w.1 short
        (subst (Reads libc w.1.server.files fh) after
          (file.reads w.1.server.files (subst (file.IsOpen) (sym written.1) all.2)))
        (AllBelow-lengths max_rw_buffer_size iov fit) in
    let there : drop p (put_at p (joined iov) d) ≡ joined iov ++ drop (p + length (joined iov)) d =
      drop-put_at p (joined iov) d le in
    let count : length (take (sum (lengths iov)) (drop p (put_at p (joined iov) d)))
        ≡ length (joined iov) =
      rw (sum-lengths iov, there) (ap length (take-append (joined iov) _)) in
    (
      written.0 ∙ all.0 ∙ ap pos (omega arith),
      λ i. (
        (read.0 ∙ ap pos count) i,
        (read.1 ∙ ap (scatter (lengths iov)) there ∙ scatter-joined iov _) i,
      ),
    )
