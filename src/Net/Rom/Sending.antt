-- ===== src/Net/Rom/Sending.antt =====
-- `sendElfBinaryFromMemory` and `sendElfBinaryFromRom` of dom0/dom0-main/server/src/remote_dom0_instance.cc
-- on a connection that loses no byte.
use native.Mathlib.Nat.{mod-eq_of_lt}
use l4re_tmp_fs.Base.{
  ℕ, ◌+◌, ◌*◌, ◌%◌, ◌<◌, ◌≡◌, refl, ap, subst, ◌∙◌, List, [], ◌∷◌, ◌++◌, append_assoc, ℤ, pos,
  negsuc, arith, none, some, false, length, take, terminated, length-append, take-append, drop_all,
  append-nil, to_word, put_at,
}
use l4re_tmp_fs.Libfs.Connection.{IsInt}
use l4re_tmp_fs.Net.Os.{Os, int_mod}
use l4re_tmp_fs.Net.Socket.{below_one, send_int32, send_data, receive_int32}
use l4re_tmp_fs.Net.Socket.Stream.{Reliable, below_one_suc, send_data_stream}
use l4re_tmp_fs.Net.Remote.{RemoteDom0Instance, is_disabled, send_elf_binary_from_memory, to_int32}
use l4re_tmp_fs.Net.Remote.Requests.{to_int32_lem}
use l4re_tmp_fs.Net.Server.Lua.{receive_int32_lem}
use l4re_tmp_fs.Net.Server.Binary.{file_frame}
use l4re_tmp_fs.Net.Rom.{Stdio, load_file, load_open, send_elf_binary_from_rom}

put_at_full : (bs memory : List ℕ) → length memory ≡ length bs → put_at 0 bs memory ≡ bs
unfolding put_at
put_at_full bs memory h =
    ap (λ xs. bs ++ xs) (drop_all (0 + length bs) memory (omega arith)) ∙ append-nil bs

module _ {W : Type 0} (os : Os W) where
  -- The calls of `sendElfBinaryFromMemory`, one after the other, where none of them fails.
  send_steps :
      (i : RemoteDom0Instance) (memory elf name : List ℕ) (n m : ℕ) (z : ℤ) (w : W)
      → is_disabled i.binary_socket ≡ false
      → to_int32 (length name + 1) ≡ pos n
      → to_int32 m ≡ pos m
      → take (m % os.size_mod) memory ≡ elf
      → let fd = i.binary_socket.target_socket in
        (send_data os (os.encode (pos n)) fd w).0 ≡ pos 4
        → let w1 = (send_data os (os.encode (pos n)) fd w).1 in
          (send_data os (terminated name) fd w1).0 ≡ pos n
          → below_one (pos n) ≡ false
          → let w2 = (send_data os (terminated name) fd w1).1 in
            (send_data os (os.encode (pos m)) fd w2).0 ≡ pos 4
            → let w3 = (send_data os (os.encode (pos m)) fd w2).1 in
              (receive_int32 os fd w3).0 ≡ (pos 4, z)
              → let w4 = (receive_int32 os fd w3).1 in
                (send_data os elf fd w4).0 ≡ pos m
                → below_one (pos m) ≡ false
                → send_elf_binary_from_memory os i memory m name w
                  ≡ (pos m, (send_data os elf fd w4).1)
  unfolding send_elf_binary_from_memory send_int32 to_word
  send_steps i memory elf name n m z w on n_int m_int elf_eq ret1 ret2 n_pos ret3 ret4 ret5 m_pos =
      rw
        (
          send_elf_binary_from_memory, on, n_int, ret1, ret2, n_pos, m_int, elf_eq, ret3, ret4,
          ret5, m_pos,
        )
        refl

-- A file goes out as the messages that the other side's handler reads, its name, its size and its bytes,
-- and one number is taken from the answers: given that the socket is not disabled, that the file is not
-- empty, that the sizes are `int32_t`s, and that a number is there. The number itself is not looked at.
pub send_elf_binary_from_memory_lem :
    {W : Type 0} (os : Os W) (net : Reliable os) (i : RemoteDom0Instance)
    (elf memory name rest : List ℕ) (z : ℤ) (w : W)
    → is_disabled i.binary_socket ≡ false
    → 0 < length elf
    → 2 * length elf < int_mod
    → 2 * (length name + 1) < int_mod
    → IsInt int_mod z
    → let fd = i.binary_socket.target_socket in
      net.incoming fd w ≡ os.encode z ++ rest
      → let fd = i.binary_socket.target_socket in
        let r = send_elf_binary_from_memory os i (elf ++ memory) (length elf) name w in
        (r.0 ≡ pos (length elf))
        × (net.outgoing fd r.1 ≡ net.outgoing fd w ++ file_frame os name elf)
        × (net.incoming fd r.1 ≡ rest)
send_elf_binary_from_memory_lem os net i elf memory name rest z w on some_byte m_small n_small int
      e =
    let fd = i.binary_socket.target_socket in
    let n = length name + 1 in
    let m = length elf in
    let len : length (terminated name) ≡ n = length-append name (0 ∷ []) in
    let n_len = os.length-encode (pos n) in
    let m_len = os.length-encode (pos m) in
    let (ret1, sent1) =
      send_data_stream os net fd (os.encode (pos n)) w (omega (arith, n_len))
        (omega (arith, n_len, os.int_le_size)) in
    let w1 = (send_data os (os.encode (pos n)) fd w).1 in
    let (ret2, sent2) =
      send_data_stream os net fd (terminated name) w1 (omega (arith, len))
        (omega (arith, len, os.int_le_size)) in
    let w2 = (send_data os (terminated name) fd w1).1 in
    let (ret3, sent3) =
      send_data_stream os net fd (os.encode (pos m)) w2 (omega (arith, m_len))
        (omega (arith, m_len, os.int_le_size)) in
    let w3 = (send_data os (os.encode (pos m)) fd w2).1 in
    let (ret4, left, silent, _) =
      receive_int32_lem os net fd z rest w3 int (sent3.2 fd ∙ sent2.2 fd ∙ sent1.2 fd ∙ e) in
    let w4 = (receive_int32 os fd w3).1 in
    let (ret5, sent5) =
      send_data_stream os net fd elf w4 some_byte (omega (arith, os.int_le_size)) in
    let front : take (m % os.size_mod) (elf ++ memory) ≡ elf =
      ap (λ k. take k (elf ++ memory)) (mod-eq_of_lt (omega (arith, os.int_le_size)))
      ∙ take-append elf memory in
    let runs =
      send_steps os i (elf ++ memory) elf name n m z w on (to_int32_lem n n_small)
        (to_int32_lem m m_small) front (ret1 ∙ ap pos n_len) (ret2 ∙ ap pos len)
        (below_one_suc n (omega arith)) (ret3 ∙ ap pos m_len) ret4 ret5
        (below_one_suc m some_byte) in
    (
      ap (λ r. r.0) runs,
      ap (λ r. net.outgoing fd r.1) runs
          ∙ sent5.0
          ∙ ap (λ xs. xs ++ elf)
              (silent fd
                ∙ sent3.0
                ∙ ap (λ xs. xs ++ os.encode (pos m))
                    (sent2.0 ∙ ap (λ xs. xs ++ terminated name) sent1.0))
          ∙ simp append_assoc,
      ap (λ r. net.incoming fd r.1) runs ∙ sent5.2 fd ∙ left,
    )

module _ {W : Type 0} (os : Os W) (stdio : Stdio W) where
  -- The file has these bytes, and there is memory for them.
  abbrev pub HasFile : List ℕ → List ℕ → W → W → Type 0
  HasFile name elf w w' =
      (fp : ℕ) × (v : W) × (memory : List ℕ) × (stdio.fopen name w ≡ (some fp, v))
      × (stdio.size_of fp v ≡ length elf)
      × (stdio.malloc (length elf) ≡ some memory)
      × (length memory ≡ length elf)
      × ((stdio.fread fp (length elf) v).0 ≡ elf)
      × (stdio.fclose fp (stdio.fread fp (length elf) v).1 ≡ w')

  load_file_open :
      (name : List ℕ) (fp : ℕ) (w v : W)
      → stdio.fopen name w ≡ (some fp, v)
      → load_file os stdio name w ≡ load_open os stdio fp v
  unfolding load_file
  load_file_open name fp w v opened = rw (load_file, opened) (rw opened refl)

  load_file_lem :
      (name elf : List ℕ) (w w' : W)
      → HasFile name elf w w'
      → 2 * length elf < int_mod
      → load_file os stdio name w ≡ ((pos (length elf), some elf), w')
  unfolding load_open
  load_file_lem name elf w w' (fp, v, memory, opened, size, room, len, bytes, closed) small =
      load_file_open name fp w v opened
      ∙ rw (load_open, size, room)
          (rw (size, bytes, put_at_full elf memory len, closed, to_int32_lem (length elf) small)
            refl)

  load_missing :
      (name : List ℕ) (w : W)
      → (stdio.fopen name w).0 ≡ none
      → load_file os stdio name w ≡ ((negsuc 0, none), (stdio.fopen name w).1)
  unfolding load_file
  load_missing name w missing = rw (load_file, missing) refl

-- A file that cannot be opened is not reported: what goes out is a file of size -1, from the null pointer.
pub send_missing_file :
    {W : Type 0} (os : Os W) (stdio : Stdio W) (i : RemoteDom0Instance) (local remote : List ℕ)
    (w : W)
    → is_disabled i.binary_socket ≡ false
    → (stdio.fopen local w).0 ≡ none
    → send_elf_binary_from_rom os stdio i local remote w
      ≡ send_elf_binary_from_memory os i []
          (to_word os.size_mod (negsuc 0))
          remote
          (stdio.fopen local w).1
unfolding send_elf_binary_from_rom
send_missing_file os stdio i local remote w on missing =
    rw (send_elf_binary_from_rom, on, load_missing os stdio local w missing) refl

-- A file of the own machine goes out as `sendElfBinaryFromMemory` sends its bytes.
pub send_elf_binary_from_rom_lem :
    {W : Type 0} (os : Os W) (stdio : Stdio W) (net : Reliable os) (i : RemoteDom0Instance)
    (elf local remote rest : List ℕ) (z : ℤ) (w w' : W)
    → is_disabled i.binary_socket ≡ false
    → HasFile os stdio local elf w w'
    → 0 < length elf
    → 2 * length elf < int_mod
    → 2 * (length remote + 1) < int_mod
    → IsInt int_mod z
    → let fd = i.binary_socket.target_socket in
      net.incoming fd w' ≡ os.encode z ++ rest
      → let fd = i.binary_socket.target_socket in
        let r = send_elf_binary_from_rom os stdio i local remote w in
        (r.0 ≡ pos (length elf))
        × (net.outgoing fd r.1 ≡ net.outgoing fd w' ++ file_frame os remote elf)
        × (net.incoming fd r.1 ≡ rest)
unfolding send_elf_binary_from_rom to_word
send_elf_binary_from_rom_lem os stdio net i elf local remote rest z w w' on file some_byte small
      n_small int e =
    let words : length elf % os.size_mod ≡ length elf =
      mod-eq_of_lt (omega (arith, os.int_le_size)) in
    let sent =
      send_elf_binary_from_memory_lem os net i elf [] remote rest z w' on some_byte small n_small
        int e in
    rw (send_elf_binary_from_rom, on, load_file_lem os stdio local elf w w' file small, words)
      (subst
        (λ m.
          let fd = i.binary_socket.target_socket in
          let r = send_elf_binary_from_memory os i m (length elf) remote w' in
          (r.0 ≡ pos (length elf))
          × (net.outgoing fd r.1 ≡ net.outgoing fd w' ++ file_frame os remote elf)
          × (net.incoming fd r.1 ≡ rest))
        (append-nil elf) sent)
