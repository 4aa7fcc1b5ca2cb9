-- ===== src/Service/Names.antt =====
-- Calls that name files: what a program asks of a directory of the mounted file system reaches the
-- server's tmpfs as the same call under "/tmp/".
use l4re_tmp_fs.Base.{
  ℕ, ◌+◌, ◌≤◌, ◌<◌, ◌≡◌, refl, ap, ◌∙◌, List, [], ◌∷◌, ◌++◌, arith, length, le→ltb, ℤ, ◌≢◌, true,
  some, pos, terminated, IsString, if◌then◌else◌,
}
use l4re_tmp_fs.Libfs.Platform.{L4}
use l4re_tmp_fs.Libfs.Protocol.{max_path_size}
use l4re_tmp_fs.Libfs.Connection
use l4re_tmp_fs.Libfs.Connection.{Side, Relays, IsInt}
use l4re_tmp_fs.TmpFs.{Libc, Server, tmp_dir, path_len, server}
use l4re_tmp_fs.TmpFs.Paths.{IsReady}
use l4re_tmp_fs.TmpFs.Local.{
  Local, mkdir-Local, rmdir-Local, unlink-Local, open_file-Local, rename-Local,
}
use l4re_tmp_fs.Libfs.Client
use l4re_tmp_fs.Backend.Dir
use l4re_tmp_fs.Backend.Dir.{Modes, Entry, directory, file}
use l4re_tmp_fs.Service.{tmp_remote, write_buffer}

-- The call returns what the C library's call returns and leaves the files that it leaves, and the
-- server's path buffer is ready for the next call.
abbrev pub Does : {A F : Type 0} → A × Side (Server F) → A × F → Type 0
Does r t = (r.0 ≡ t.0) × (r.1.server.files ≡ t.1) × IsReady r.1.server

through :
    {A F : Type 0} (r : A × Side (Server F)) {m : A × Server F} {t : A × F}
    → Relays r m
    → Local m t
    → Does r t
through r relays local =
    (relays.0 ∙ local.0, ap (λ s. s.files) relays.1 ∙ local.1, rw relays.1 local.2)

module _ {F : Type 0} (l4 : L4) (libc : Libc F) (c : Side (Server F)) (ready : IsReady c.server)
    (fits_buf : max_path_size l4 + 5 ≤ path_len) where
  module _ (name : List ℕ) (h : IsString name) (short : length name < max_path_size l4) where
    -- `mkdir(name)`, `rmdir(name)` and `unlink(name)` on the mounted file system are the calls on
    -- "/tmp/" and the name: their results come back, no other file is touched, and the server's path
    -- buffer is ready for the next call.
    pub names_local :
        (mode : ℕ)
        → let remote = tmp_remote l4 libc in
          let f = c.server.files in
          Does (Dir.mkdir l4 remote name mode c) (libc.mkdir (tmp_dir ++ name) mode f)
          × Does (Dir.rmdir l4 remote name c) (libc.rmdir (tmp_dir ++ name) f)
          × Does (Dir.unlink l4 remote name c) (libc.unlink (tmp_dir ++ name) f)
    unfolding Dir.mkdir Dir.rmdir Dir.unlink server
    names_local mode =
        let svr = server l4 libc in
        let room : length name + 6 ≤ path_len = omega arith in
        (
          through (Dir.mkdir l4 (tmp_remote l4 libc) name mode c)
              (Connection.mkdir_lem l4 svr c name h short mode)
              (mkdir-Local l4 libc name c.server h room ready mode),
          through (Dir.rmdir l4 (tmp_remote l4 libc) name c)
              (Connection.rmdir_lem l4 svr c name h short)
              (rmdir-Local l4 libc name c.server h room ready),
          through (Dir.unlink l4 (tmp_remote l4 libc) name c)
              (Connection.unlink_lem l4 svr c name h short)
              (unlink-Local l4 libc name c.server h room ready),
        )

    -- Opening a name on the mounted file system is opening "/tmp/" and the name, with the same flags
    -- and mode, and the caller gets the handle that the C library gave, or its error.
    pub open_local :
        (flags : ℤ) (mode : ℕ)
        → IsInt l4.word_mod flags
        → let t = libc.open_file (tmp_dir ++ name) flags mode c.server.files in
          Does (Client.open_file l4 (tmp_remote l4 libc).call name flags mode c) ((t.0, mode), t.1)
    unfolding server
    open_local flags mode int =
        through (Client.open_file l4 (tmp_remote l4 libc).call name flags mode c)
          (Connection.open_file_lem l4 (server l4 libc) c name h short flags mode int)
          (open_file-Local l4 libc name c.server h (omega arith) ready flags mode)

  -- Renaming on the mounted file system is renaming under "/tmp/": the source reaches the server in
  -- the request, the target in the shared buffer.
  pub rename_local :
      (from to : List ℕ)
      → IsString from
      → IsString to
      → length from < max_path_size l4
      → length to < max_path_size l4
      → Does
          (Dir.rename l4 (tmp_remote l4 libc) from to c)
          (libc.rename (tmp_dir ++ from) (tmp_dir ++ to) c.server.files)
  unfolding Dir.rename server
  rename_local from to h h' short short' =
      let filled = write_buffer (terminated to) c in
      let room : length from + 6 ≤ path_len = omega arith in
      let ready' : IsReady filled.server = record { sized = ready.sized; prefix = ready.prefix } in
      rw (le→ltb (max_path_size l4) (length to + 1) (omega arith)) (
        through (Client.rename l4 (tmp_remote l4 libc).call from filled)
          (Connection.rename_lem l4 (server l4 libc) filled from h short)
          (rename-Local l4 libc from filled.server h room ready' to c.server.rw_buf h' refl))

  -- `get_entry` on the mounted file system takes what was opened for a directory exactly if the mode
  -- that the caller passed says so, whatever the name stands for.
  pub get_entry_local :
      (modes : Modes) (name : List ℕ) (flags : ℤ) (mode fh : ℕ)
      → IsString name
      → length name < max_path_size l4
      → name ≢ []
      → IsInt l4.word_mod flags
      → (libc.open_file (tmp_dir ++ name) flags mode c.server.files).0 ≡ pos fh
      → let entry =
          if modes.s_isdir mode
          then directory (record { fh = pos fh; position = pos 0 })
          else file (pos fh) in
        (Dir.get_entry l4 (tmp_remote l4 libc) modes true name flags mode c).0 ≡ (pos 0, some entry)
  unfolding Dir.get_entry
  get_entry_local modes [] flags mode fh h short named int opened = absurd (named refl)
  get_entry_local modes (b ∷ name) flags mode fh h short named int opened =
      rw ((open_local (b ∷ name) h short flags mode int).0, opened) refl
