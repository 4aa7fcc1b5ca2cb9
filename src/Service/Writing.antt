-- ===== src/Service/Writing.antt =====
-- `pwritev` on the mounted file system, down to the writes of the server's tmpfs.
use native.Mathlib.Nat.{mod-eq_of_lt}
use l4re_tmp_fs.Base.{
  ℕ, ◌+◌, ◌*◌, signed_small, ◌%◌, ◌≤◌, ◌<◌, ◌≡◌, refl, ap, ◌∙◌, inl, inr, List, [], ◌∷◌, arith,
  length, take-put_at_zero, ℤ, pos, pos_part, is_neg, to_word, ◌+ℤ◌, if◌then◌else◌, ◌==◌,
  Bool-cases,
}
use l4re_tmp_fs.Libfs.Platform.{L4}
use l4re_tmp_fs.Libfs.Protocol.{max_rw_buffer_size}
use l4re_tmp_fs.Libfs.Svr.{Method}
use l4re_tmp_fs.Libfs.Client
use l4re_tmp_fs.Libfs.Connection
use l4re_tmp_fs.Libfs.Connection.{Side}
use l4re_tmp_fs.TmpFs
use l4re_tmp_fs.TmpFs.{Libc, Server, server}
use l4re_tmp_fs.Backend.File.{pwritev_from, pwritev}
use l4re_tmp_fs.Service.{tmp_remote, write_buffer}

abbrev pub AllFit : ℕ → List (List ℕ) → Type 0
AllFit m [] = Unit {0}
AllFit m (b ∷ bs) = (length b ≤ m) × AllFit m bs

-- The number of all bytes.
abbrev pub total : List (List ℕ) → ℕ
total [] = 0
total (b ∷ bs) = length b + total bs

module _ {F : Type 0} (libc : Libc F) (fh : ℤ) where
  -- The buffers written one after the other with the C library, until one is cut short or fails.
  unfoldable pub write_all : List (List ℕ) → ℤ → ℕ → Method F ℤ
  write_all [] p done f = (pos done, f)
  write_all (b ∷ bs) p done f =
      let (ret, f') = libc.pwrite64 fh b p f in
      let k = pos_part ret in
      let rest = write_all bs (p +ℤ pos k) (done + k) f' in
      if is_neg ret then (ret, f') else if k == length b then rest else (pos (done + k), f')

module _ {F : Type 0} (l4 : L4) (libc : Libc F) (fh : ℤ)
    (small : max_rw_buffer_size < l4.word_mod) where
  pwrite_lem :
      (b : List ℕ) (p : ℤ) (c : Side (Server F))
      → length b ≤ max_rw_buffer_size
      → let t = libc.pwrite64 fh b p c.server.files in
        let r = Client.pwrite l4 (tmp_remote l4 libc).call fh (length b) p (write_buffer b c) in
        (r.0 ≡ ((if is_neg t.0 then t.0 else pos 0), to_word l4.word_mod t.0))
        × (r.1.server.files ≡ t.1)
  unfolding TmpFs.pwrite server
  pwrite_lem b p c le =
      let (ret, left) =
        Connection.pwrite_lem l4 (server l4 libc) (write_buffer b c) fh (length b) p le in
      let sent = take-put_at_zero b c.server.rw_buf in
      (ret ∙ rw sent refl, ap (λ s. s.files) left ∙ rw sent refl)

  pwritev_from_lem :
      (iov : List (List ℕ)) (p : ℤ) (done : ℕ) (c : Side (Server F))
      → AllFit max_rw_buffer_size iov
      → 2 * (done + total iov) < l4.word_mod
      → let t = write_all libc fh iov p done c.server.files in
        let r = pwritev_from l4 (tmp_remote l4 libc) fh iov p done c in
        (r.0 ≡ t.0) × (r.1.server.files ≡ t.1)
  unfolding pwritev_from write_all to_word
  pwritev_from_lem [] p done c fit short = (signed_small l4.word_mod done (omega arith), refl)
  pwritev_from_lem (b ∷ iov) p done c fit short =
      let (ret, files) = pwrite_lem b p c fit.0 in
      let c' = (Client.pwrite l4 (tmp_remote l4 libc).call fh (length b) p (write_buffer b c)).1 in
      elim (libc.pwrite64_count fh b p c.server.files) [
        | inr e ↦ rw (ret, e) (refl, files)
        | inl (k, e, k_le) ↦
            let words : k % l4.word_mod ≡ k = mod-eq_of_lt (omega (arith, fit.0)) in
            let count : (done + k) % l4.word_mod ≡ done + k = mod-eq_of_lt (omega arith) in
            elim (Bool-cases (k == length b)) [
              | inr cut ↦
                  rw (ret, e, words, cut, count)
                    (signed_small l4.word_mod (done + k) (omega arith), files)
              | inl whole ↦
                  rw (ret, e, words, whole, count)
                    (rw (← files)
                      (pwritev_from_lem iov (p +ℤ pos k) (done + k) c' fit.1 (omega arith)))
            ]
      ]

-- On the mounted file system `pwritev` is the sequence of writes to the server's file, buffer by buffer
-- at rising offsets, that stops at the first write that fails or is cut short: given that no buffer is
-- longer than the shared one, and that an ssize_t can count all the bytes.
pub pwritev_local :
    {F : Type 0} (l4 : L4) (libc : Libc F) (fh : ℤ) (iov : List (List ℕ)) (p : ℤ)
    (c : Side (Server F))
    → max_rw_buffer_size < l4.word_mod
    → AllFit max_rw_buffer_size iov
    → 2 * total iov < l4.word_mod
    → let t = write_all libc fh iov p 0 c.server.files in
      let r = pwritev l4 (tmp_remote l4 libc) fh iov p c in (r.0 ≡ t.0) × (r.1.server.files ≡ t.1)
unfolding pwritev
pwritev_local l4 libc fh iov p c small fit short =
    pwritev_from_lem l4 libc fh small iov p 0 c fit (omega arith)
