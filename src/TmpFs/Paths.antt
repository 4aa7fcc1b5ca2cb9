-- ===== src/TmpFs/Paths.antt =====
-- The translation of paths: `getActualPath` and `rename` of dom0/fs_srv/server/src/main.cc.
use l4re_tmp_fs.Base.{
  ℕ, ◌+◌, ◌≤◌, ◌≡◌, ◌↔◌, refl, ◌∙◌, List, [], ◌∷◌, ◌++◌, append_assoc, arith, length, take, put_at,
  length-append, length-put_at, length-put_at-min, c_string-put_at_zero, take-put_at, c_string,
  c_string-append, terminated, IsString,
}
use l4re_tmp_fs.Libfs.Platform.{L4}
use l4re_tmp_fs.TmpFs.{Libc, Server, tmp_dir, path_len, get_actual_path, target}

-- The path buffer has its size, and begins with the mount point.
pub record IsReady {F : Type 0} (s : Server F) : Type 0 where
  pub sized : length s.actual_path ≡ path_len
  pub prefix : take (length tmp_dir) s.actual_path ≡ tmp_dir

IsString-tmp : (name : List ℕ) → IsString name → IsString (tmp_dir ++ name)
IsString-tmp name h = (omega arith, (omega arith, (omega arith, (omega arith, (omega arith, h)))))

-- What `strcpy(buf + 5, name)` makes of a buffer that begins with "/tmp/".
c_string-put_at :
    (name buf : List ℕ)
    → IsString name
    → take (length tmp_dir) buf ≡ tmp_dir
    → c_string (put_at (length tmp_dir) (terminated name) buf) ≡ tmp_dir ++ name
unfolding put_at
c_string-put_at name buf h e =
    rw (e, append_assoc name (0 ∷ [])) (c_string-append (tmp_dir ++ name) _ (IsString-tmp name h))

prefix_lem : (m : List ℕ) → take (length tmp_dir) (put_at 0 (terminated tmp_dir) m) ≡ tmp_dir
unfolding put_at
prefix_lem m = refl

module _ {F : Type 0} (l4 : L4) (libc : Libc F) where
  -- A name is translated to "/tmp/" and the name, whatever calls came before.
  pub get_actual_path_lem :
      (name : List ℕ) (s : Server F)
      → IsString name
      → IsReady s
      → (get_actual_path l4 libc name s).0 ≡ tmp_dir ++ name
  unfolding get_actual_path
  get_actual_path_lem name s h v = c_string-put_at name s.actual_path h v.prefix

  pub get_actual_path-IsReady :
      (name : List ℕ) (s : Server F)
      → length name + 6 ≤ path_len
      → IsReady s
      → IsReady (get_actual_path l4 libc name s).1
  unfolding get_actual_path
  get_actual_path-IsReady name s h v = record {
    sized =
        length-put_at 5 (terminated name) s.actual_path
          (omega (arith, length-append name (0 ∷ []), v.sized))
        ∙ v.sized;
    prefix = take-put_at 5 (terminated name) s.actual_path (omega (arith, v.sized)) ∙ v.prefix;
  }

  -- The path buffer keeps its size exactly when the name, its NUL and the mount point fit in.
  pub get_actual_path_within :
      (name : List ℕ) (s : Server F)
      → IsReady s
      → (length (get_actual_path l4 libc name s).1.actual_path ≡ path_len)
        ↔ (length name + 6 ≤ path_len)
  unfolding get_actual_path
  get_actual_path_within name s v = (
    λ e. omega (
      arith,
      e,
      length-put_at-min 5 (terminated name) s.actual_path,
      length-append name (0 ∷ []),
      v.sized,
    ),
    λ h. (get_actual_path-IsReady name s h v).sized,
  )

  pub target_lem :
      (to rest : List ℕ)
      → IsString to
      → target l4 libc (put_at 0 (terminated to) rest) ≡ tmp_dir ++ to
  unfolding target
  target_lem to rest h =
      rw (c_string-put_at_zero to rest h)
        (c_string-put_at to _ h (prefix_lem (libc.malloc path_len)))
