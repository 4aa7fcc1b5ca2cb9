-- ===== src/Libfs/Connection.antt =====
-- A client of dom0/libfs/lib/src/l4fs.cc that talks to a server of dom0/libfs/lib/server/svr.cc:
-- the kernel hands the request to `dispatch`, and its answer to the client.
use l4re_tmp_fs.Base.{
  ℕ, ◌+◌, ◌-◌, ◌*◌, ◌≤◌, ◌<◌, ◌≡◌, refl, ap, List, [], ◌∷◌, ℤ, pos, negsuc, pos_part, neg_part, ◌%◌,
  to_word, ltb, le→ltb, lt→ltb, length, take, put_at, terminated, IsString, c_string, c_string-take,
  take_all, length-append, append_assoc, arith, false,
}
use native.Mathlib.Nat.{mod-eq_of_lt}
use l4re_tmp_fs.Libfs.Platform.{L4}
use l4re_tmp_fs.Libfs.Protocol.{label, value, max_path_size, max_rw_buffer_size}
use l4re_tmp_fs.Libfs.Svr.{Svr}
use l4re_tmp_fs.Libfs.Dispatch.{get_name, handle, dispatch, to_int, status}
use l4re_tmp_fs.Libfs.Client
use l4re_tmp_fs.Libfs.Client.{Channel}

-- The server's side of a connection: its static name buffer and its object.
pub record Side (S : Type 0) : Type 0 where
  pub name_buf : List ℕ
  pub server : S

module _ {S : Type 0} (l4 : L4) (svr : Svr S) where
  unfoldable pub connect : Channel (Side S)
  connect m c =
      let (ret, e) =
        dispatch l4 svr
          (record { request = m; answer = []; name_buf = c.name_buf; server = c.server }) in
      ((ret, e.answer), record { name_buf = e.name_buf; server = e.server })

-- The client has the server's result, and the server is in the state that its method left.
abbrev pub Relays : {S A : Type 0} → A × Side S → A × S → Type 0
Relays r s = (r.0 ≡ s.0) × (r.1.server ≡ s.1)

-- What a transfer returns: the status, and the count as a `size_t`.
abbrev pub counted : {S : Type 0} → L4 → ℤ × S → (ℤ × ℕ) × S
counted l4 r = ((status r.0, to_word l4.word_mod r.0), r.1)

-- What `operator >> (char * &)` leaves in the buffer is the string that was sent, whatever was there.
name_lem :
    (m : ℕ) (name buf : List ℕ)
    → IsString name
    → length name < m
    → c_string (put_at (m - 1) (0 ∷ []) (put_at 0 (take m (terminated name)) buf)) ≡ name
unfolding put_at
name_lem m name buf h fits =
    rw (take_all m (terminated name) (omega (arith, length-append name (0 ∷ []))))
      (rw (append_assoc) (c_string-take (m - 1) name _ _ h (omega arith)))

-- The integers that a word of `w` values holds.
abbrev pub IsInt : ℕ → ℤ → Type 0
IsInt w z = (2 * pos_part z < w) × (2 * neg_part z ≤ w)

pub to_int-to_word : (w : ℕ) (z : ℤ) → IsInt w z → to_int w (to_word w z) ≡ z
unfolding to_int to_word
to_int-to_word w (pos n) h =
    let small : n % w ≡ n = mod-eq_of_lt (omega arith) in rw (small, lt→ltb (2 * n) w h.0)
to_int-to_word w (negsuc n) h =
    let small : n % w ≡ n = mod-eq_of_lt (omega arith) in
    rw (small, le→ltb (2 * (w - 1 - n)) w (omega arith)) (ap negsuc (omega arith))

module _ {S : Type 0} (l4 : L4) (svr : Svr S) (c : Side S) where
  module _ (name : List ℕ) (h : IsString name) (fits : length name < max_path_size l4) where
    short : ltb (max_path_size l4) (length name + 1) ≡ false
    short = le→ltb _ _ (omega arith)

    name_eq :
        (let m = max_path_size l4 in
          c_string (put_at (m - 1) (0 ∷ []) (put_at 0 (take m (terminated name)) c.name_buf)))
        ≡ name
    name_eq = name_lem (max_path_size l4) name c.name_buf h fits

    pub mkdir_lem :
        (m : ℕ) → Relays (Client.mkdir l4 (connect l4 svr) name m c) (svr.mkdir name m c.server)
    unfolding Client.mkdir connect dispatch handle label value get_name
    mkdir_lem m = simp (short, l4.opcode_lem, l4.mode_lem, l4.chars_lem, name_eq) (refl, refl)

    pub rmdir_lem : Relays (Client.rmdir l4 (connect l4 svr) name c) (svr.rmdir name c.server)
    unfolding Client.rmdir connect dispatch handle label value get_name
    rmdir_lem = simp (short, l4.opcode_lem, l4.chars_lem, name_eq) (refl, refl)

    pub rename_lem : Relays (Client.rename l4 (connect l4 svr) name c) (svr.rename name c.server)
    unfolding Client.rename connect dispatch handle label value get_name
    rename_lem = simp (short, l4.opcode_lem, l4.chars_lem, name_eq) (refl, refl)

    pub unlink_lem : Relays (Client.unlink l4 (connect l4 svr) name c) (svr.unlink name c.server)
    unfolding Client.unlink connect dispatch handle label value get_name
    unlink_lem = simp (short, l4.opcode_lem, l4.chars_lem, name_eq) (refl, refl)

    pub link_lem : Relays (Client.link l4 (connect l4 svr) name c) (svr.link name c.server)
    unfolding Client.link connect dispatch handle label value get_name
    link_lem = simp (short, l4.opcode_lem, l4.chars_lem, name_eq) (refl, refl)

    pub symlink_lem : Relays (Client.symlink l4 (connect l4 svr) name c) (svr.symlink name c.server)
    unfolding Client.symlink connect dispatch handle label value get_name
    symlink_lem = simp (short, l4.opcode_lem, l4.chars_lem, name_eq) (refl, refl)

    pub open_file_lem :
        (flags : ℤ) (m : ℕ)
        → IsInt l4.word_mod flags
        → Relays
            (Client.open_file l4 (connect l4 svr) name flags m c)
            (svr.open_file name flags m c.server)
    unfolding Client.open_file connect dispatch handle label value get_name
    open_file_lem flags m int =
        simp
          (
            short,
            l4.opcode_lem,
            l4.ulong-int,
            to_int-to_word l4.word_mod flags int,
            l4.int_lem,
            l4.mode_lem,
            l4.chars_lem,
            name_eq,
          )
          (refl, refl)

  module _ (fh : ℤ) where
    pub close_lem : Relays (Client.close l4 (connect l4 svr) fh c) (svr.close fh c.server)
    unfolding Client.close connect dispatch handle label value
    close_lem = simp (l4.opcode_lem, l4.int_lem) (refl, refl)

    pub fsync_lem : Relays (Client.fsync l4 (connect l4 svr) fh c) (svr.fsync fh c.server)
    unfolding Client.fsync connect dispatch handle label value
    fsync_lem = simp (l4.opcode_lem, l4.int_lem) (refl, refl)

    pub ftruncate64_lem :
        (offset : ℤ)
        → Relays
            (Client.ftruncate64 l4 (connect l4 svr) fh offset c)
            (svr.ftruncate64 fh offset c.server)
    unfolding Client.ftruncate64 connect dispatch handle label value
    ftruncate64_lem offset = simp (l4.opcode_lem, l4.int_lem, l4.off64_lem) (refl, refl)

    pub fstat64_lem : Relays (Client.fstat64 l4 (connect l4 svr) fh c) (svr.fstat64 fh c.server)
    unfolding Client.fstat64 connect dispatch handle label value
    fstat64_lem = simp (l4.opcode_lem, l4.int_lem, l4.stat_lem) (refl, refl)

    pub pread_lem :
        (n : ℕ) (offset : ℤ)
        → n ≤ max_rw_buffer_size
        → Relays
            (Client.pread l4 (connect l4 svr) fh n offset c)
            (counted l4 (svr.pread fh n offset c.server))
    unfolding Client.pread connect dispatch handle label value
    pread_lem n offset h =
        simp (le→ltb _ _ h, l4.opcode_lem, l4.int_lem, l4.size_lem, l4.off64_lem, l4.size-ssize)
          (refl, refl)

    pub pwrite_lem :
        (n : ℕ) (offset : ℤ)
        → n ≤ max_rw_buffer_size
        → Relays
            (Client.pwrite l4 (connect l4 svr) fh n offset c)
            (counted l4 (svr.pwrite fh n offset c.server))
    unfolding Client.pwrite connect dispatch handle label value
    pwrite_lem n offset h =
        simp (le→ltb _ _ h, l4.opcode_lem, l4.int_lem, l4.size_lem, l4.off64_lem, l4.size-ssize)
          (refl, refl)

    pub pgetdents_lem :
        (n : ℕ) (offset : ℤ)
        → n ≤ max_rw_buffer_size
        → Relays
            (Client.pgetdents l4 (connect l4 svr) fh n offset c)
            (counted l4 (svr.pgetdents fh n offset c.server))
    unfolding Client.pgetdents connect dispatch handle label value
    pgetdents_lem n offset h =
        simp (le→ltb _ _ h, l4.opcode_lem, l4.int_lem, l4.size_lem, l4.off64_lem, l4.size-ssize)
          (refl, refl)

    pub readlink_lem :
        (n : ℕ)
        → Relays
            (Client.readlink l4 (connect l4 svr) fh n c)
            (counted l4 (svr.readlink fh n c.server))
    unfolding Client.readlink connect dispatch handle label value
    readlink_lem n = simp (l4.opcode_lem, l4.int_lem, l4.size_lem, l4.size-ssize) (refl, refl)
