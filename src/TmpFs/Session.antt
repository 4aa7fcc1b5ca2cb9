-- ===== src/TmpFs/Session.antt =====
-- dom0/fs_srv/server/src/main.cc: the server from its start through the requests of its clients.
use l4re_tmp_fs.Base.{
  take, pos_part, ℕ, ◌+◌, ◌≤◌, ◌≡◌, refl, ap, ap₂, subst, ◌∙◌, Bool-cases, List, [], ◌∷◌, ◌++◌,
  length, drop, put_at, terminated, IsString, ℤ, is_zero, arith, inl, inr, length-put_at,
  take-put_at_zero,
}
use l4re_tmp_fs.Libfs.Platform.{L4, Stat64}
use l4re_tmp_fs.Libfs.Protocol.{max_rw_buffer_size}
use l4re_tmp_fs.Libfs.Svr.{Method}
use l4re_tmp_fs.TmpFs
use l4re_tmp_fs.TmpFs.{Libc, Server, tmp_dir, path_len, new_server}
use l4re_tmp_fs.TmpFs.Paths.{IsReady}
use l4re_tmp_fs.TmpFs.Local.{
  Local, mkdir-Local, unlink-Local, rmdir-Local, open_file-Local, rename-Local,
}
use l4re_tmp_fs.TmpFs.Start.{Outcome, returned, serving, Start, main, register}

-- A call of a client for which the server calls the C library but for `dataspace`, with what it has put in the shared buffer in front of it.
pub data Call : Type 0 where
  open_file : List ℕ → ℤ → ℕ → Call
  mkdir : List ℕ → ℕ → Call
  unlink rmdir : List ℕ → Call
  rename : List ℕ → List ℕ → Call
  close : ℤ → Call
  pwrite : ℤ → List ℕ → ℤ → Call
  pread : ℤ → ℕ → ℤ → Call
  fstat64 : ℤ → Call

-- What it has for an answer: a number, a number and bytes in the shared buffer, or a number and a record.
pub data Answer : Type 0 where
  number : ℤ → Answer
  read : ℤ → List ℕ → Answer
  stat : ℤ → Stat64 → Answer

-- The names are strings, and fit behind the mount point in the path buffer, and in the memory that `rename` gets
-- for its target; what is read or written fits in the shared buffer.
abbrev Fits : List ℕ → Type 0
Fits name = IsString name × (length name + 6 ≤ path_len)

abbrev pub AllFit : List Call → Type 0
AllFit [] = Unit {0}
AllFit (open_file name flags mode ∷ calls) = Fits name × AllFit calls
AllFit (mkdir name mode ∷ calls) = Fits name × AllFit calls
AllFit (unlink name ∷ calls) = Fits name × AllFit calls
AllFit (rmdir name ∷ calls) = Fits name × AllFit calls
AllFit (rename from to ∷ calls) = (Fits from × Fits to) × AllFit calls
AllFit (close fh ∷ calls) = AllFit calls
AllFit (pwrite fh bytes offset ∷ calls) = (length bytes ≤ max_rw_buffer_size) × AllFit calls
AllFit (pread fh n offset ∷ calls) = (n ≤ max_rw_buffer_size) × AllFit calls
AllFit (fstat64 fh ∷ calls) = AllFit calls

module _ {F : Type 0} (l4 : L4) (libc : Libc F) where
  abbrev filled : List ℕ → Server F → Server F
  filled bytes s = record s { rw_buf = put_at 0 bytes s.rw_buf }

  abbrev numbered : {S : Type 0} → ℤ × S → Answer × S
  numbered (n, s) = (number n, s)

  -- What the server does for a call.
  abbrev serve : Call → Method (Server F) Answer
  serve (open_file name flags mode) s =
      let (r, t) = TmpFs.open_file l4 libc name flags mode s in (number (r.0), t)
  serve (mkdir name mode) s = numbered (TmpFs.mkdir l4 libc name mode s)
  serve (unlink name) s = numbered (TmpFs.unlink l4 libc name s)
  serve (rmdir name) s = numbered (TmpFs.rmdir l4 libc name s)
  serve (rename from to) s = numbered (TmpFs.rename l4 libc from (filled (terminated to) s))
  serve (close fh) s = numbered ((TmpFs.server l4 libc).close fh s)
  serve (pwrite fh bytes offset) s =
      numbered (TmpFs.pwrite l4 libc fh (length bytes) offset (filled bytes s))
  serve (pread fh n offset) s =
      let (r, t) = TmpFs.pread l4 libc fh n offset s in (read r (take (pos_part r) t.rw_buf), t)
  serve (fstat64 fh) s = let (r, t) = (TmpFs.server l4 libc).fstat64 fh s in (stat (r.0) (r.1), t)

  -- What the C library does for it, under the mount point.
  abbrev pub call : Call → Method F Answer
  call (open_file name flags mode) f = numbered (libc.open_file (tmp_dir ++ name) flags mode f)
  call (mkdir name mode) f = numbered (libc.mkdir (tmp_dir ++ name) mode f)
  call (unlink name) f = numbered (libc.unlink (tmp_dir ++ name) f)
  call (rmdir name) f = numbered (libc.rmdir (tmp_dir ++ name) f)
  call (rename from to) f = numbered (libc.rename (tmp_dir ++ from) (tmp_dir ++ to) f)
  call (close fh) f = numbered (libc.close fh f)
  call (pwrite fh bytes offset) f = numbered (libc.pwrite64 fh bytes offset f)
  call (pread fh n offset) f = let (r, g) = libc.pread64 fh n offset f in (read (r.0) (r.1), g)
  call (fstat64 fh) f = let (r, g) = libc.fstat64 fh f in (stat (r.0) (r.1), g)

  -- The answer and the files are those of the C library, and the server is ready for the next call.
  abbrev Same : Answer × Server F → Answer × F → Type 0
  Same r t = (r.0 ≡ t.0) × (r.1.files ≡ t.1) × IsReady r.1

  numbered-Same : (r : ℤ × Server F) (t : ℤ × F) → Local r t → Same (numbered r) (numbered t)
  numbered-Same r t h = (ap number h.0, h.1, h.2)

  pread-Same :
      (fh offset : ℤ) (n : ℕ) (s : Server F)
      → IsReady s
      → Same (serve (pread fh n offset) s) (call (pread fh n offset) s.files)
  unfolding TmpFs.pread
  pread-Same fh offset n s v =
      let r = (libc.pread64 fh n offset s.files).0 in
      let front : take (pos_part r.0) (put_at 0 r.1 s.rw_buf) ≡ r.1 =
        elim (libc.pread64_count fh n offset s.files) [
          | inl (e, _) ↦ rw e (take-put_at_zero r.1 s.rw_buf)
          | inr (e, none) ↦ rw (e, none) refl
        ] in
      (ap (read r.0) front, refl, record { sized = v.sized; prefix = v.prefix })

  unfoldable pub serve_all : List Call → Method (Server F) (List Answer)
  serve_all [] s = ([], s)
  serve_all (c ∷ cs) s = let (r, s') = serve c s in let (rs, s'') = serve_all cs s' in (r ∷ rs, s'')

  unfoldable pub call_all : List Call → Method F (List Answer)
  call_all [] f = ([], f)
  call_all (c ∷ cs) f = let (r, f') = call c f in let (rs, f'') = call_all cs f' in (r ∷ rs, f'')

  serve-Local :
      (c : Call) (cs : List Call) (s : Server F)
      → AllFit (c ∷ cs)
      → IsReady s
      → Same (serve c s) (call c s.files) × AllFit cs
  unfolding TmpFs.server TmpFs.pwrite
  serve-Local (open_file name flags mode) cs s (h, rest) v =
      let r = open_file-Local l4 libc name s h.0 h.1 v flags mode in
      ((ap (λ p. number (p.0)) r.0, r.1, r.2), rest)
  serve-Local (mkdir name mode) cs s (h, rest) v =
      (numbered-Same _ _ (mkdir-Local l4 libc name s h.0 h.1 v mode), rest)
  serve-Local (unlink name) cs s (h, rest) v =
      (numbered-Same _ _ (unlink-Local l4 libc name s h.0 h.1 v), rest)
  serve-Local (rmdir name) cs s (h, rest) v =
      (numbered-Same _ _ (rmdir-Local l4 libc name s h.0 h.1 v), rest)
  serve-Local (rename from to) cs s (h, rest) v =
      let ready : IsReady (filled (terminated to) s) = record {
        sized = v.sized;
        prefix = v.prefix;
      } in
      (
        numbered-Same _ _ (
            rename-Local l4 libc from (filled (terminated to) s) h.0.0 h.0.1 ready to s.rw_buf h.1.0
              refl),
        rest,
      )
  serve-Local (close fh) cs s rest v =
      ((refl, refl, record { sized = v.sized; prefix = v.prefix }), rest)
  serve-Local (pwrite fh bytes offset) cs s (h, rest) v = (
    rw (take-put_at_zero bytes s.rw_buf)
        (refl, refl, record { sized = v.sized; prefix = v.prefix }),
    rest,
  )
  serve-Local (pread fh n offset) cs s (h, rest) v = (pread-Same fh offset n s v, rest)
  serve-Local (fstat64 fh) cs s rest v =
      ((refl, refl, record { sized = v.sized; prefix = v.prefix }), rest)

  serve_all_lem :
      (cs : List Call) (s : Server F)
      → AllFit cs
      → IsReady s
      → let r = serve_all cs s in
        let t = call_all cs s.files in (r.0 ≡ t.0) × (r.1.files ≡ t.1) × IsReady r.1
  unfolding serve_all call_all
  serve_all_lem [] s h v = (refl, refl, v)
  serve_all_lem (c ∷ cs) s h v =
      let (here, rest) = serve-Local c cs s h v in
      let all = serve_all_lem cs (serve c s).1 rest here.2 in
      (
        ap₂ ◌∷◌ here.0 (all.0 ∙ ap (λ f. (call_all cs f).0) here.1),
        all.1 ∙ ap (λ f. (call_all cs f).1) here.1,
        all.2,
      )

  new_server-IsReady :
      (memory : List ℕ) (f : F) → length memory ≡ path_len → IsReady (new_server l4 libc memory f)
  unfolding new_server put_at
  new_server-IsReady memory f h = record {
    sized = length-put_at 0 (terminated tmp_dir) memory (omega (arith, h)) ∙ h;
    prefix = refl;
  }

  -- What `main` hands to the loop is ready.
  abbrev Ready : Outcome F → Type 0
  Ready (returned n f) = Unit {0}
  Ready (serving s) = IsReady s

  register-Ready : (start : Start F) (s : Server F) → IsReady s → Ready (register l4 libc start s)
  unfolding register
  register-Ready start s v = elim (Bool-cases (start.register_obj s s.files).0) [
    | inl e ↦ rw (Ready, e) (record { sized = v.sized; prefix = v.prefix })
    | inr e ↦ rw (Ready, e) tt
  ]

  main-Ready :
      (start : Start F) (memory : List ℕ) (f : F)
      → length memory ≡ path_len
      → Ready (main l4 libc start memory f)
  unfolding main
  main-Ready start memory f h =
      elim (Bool-cases (is_zero (start.mount_tmpfs (b'/' ∷ []) (drop 1 tmp_dir) f).0)) [
        | inl e ↦ rw (Ready, e) (register-Ready start _ (new_server-IsReady memory _ h))
        | inr e ↦ rw (Ready, e) tt
      ]

  -- When `main` has come to its loop, any of these calls of clients, one after the other, with names that fit in
  -- the path buffer and bytes that fit in the shared one, have the answers of the same calls of the C library on
  -- the names under /tmp/, leave the files that those leave, and the server ready for the next call.
  pub session_lem :
      (start : Start F) (memory : List ℕ) (f : F) (svr : Server F) (cs : List Call)
      → length memory ≡ path_len
      → main l4 libc start memory f ≡ serving svr
      → AllFit cs
      → let r = serve_all cs svr in
        let t = call_all cs svr.files in (r.0 ≡ t.0) × (r.1.files ≡ t.1) × IsReady r.1
  session_lem start memory f svr cs h e fit =
      serve_all_lem cs svr fit (subst Ready e (main-Ready start memory f h))
