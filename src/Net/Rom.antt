-- ===== src/Net/Rom.antt =====
-- dom0/dom0-main/server/src/remote_dom0_instance.cc: sending a file of the own machine.
pub mod Sending
use l4re_tmp_fs.Base.{
  ℕ, ◌+◌, ◌*◌, ◌/◌, ◌%◌, Bool, List, [], Option, none, some, ℤ, pos, negsuc, to_word, if◌then◌else◌,
  length, put_at,
}
use l4re_tmp_fs.Libfs.Svr.{Method}
use l4re_tmp_fs.Net.Os.{Os}
use l4re_tmp_fs.Net.Remote.{RemoteDom0Instance, is_disabled, send_elf_binary_from_memory, to_int32}

-- The C library's streams and its memory: `fopen` and `malloc` give none for NULL, and `size_of` is what
-- `ftell` says at the end of the file.
pub record Stdio (W : Type 0) : Type 0 where
  pub fopen : List ℕ → Method W (Option ℕ)
  pub size_of : ℕ → W → ℕ
  pub malloc : ℕ → Option (List ℕ)
  pub fread : ℕ → ℕ → Method W (List ℕ)
  pub fclose : ℕ → W → W

module _ {W : Type 0} (os : Os W) (stdio : Stdio W) where
  open stdio use {fopen, size_of, malloc, fread, fclose}

  -- The size, and the buffer, which is the null pointer if it is not set.
  unfoldable pub load_open : ℕ → Method W (ℤ × Option (List ℕ))
  load_open fp w =
      let size = size_of fp w in
      let (bytes, w') = fread fp size w in
      elim (malloc size) [
        | none ↦ ((negsuc 0, none), w)
        | some memory ↦ ((to_int32 size, some (put_at 0 bytes memory)), fclose fp w')
      ]

  unfoldable pub load_file : List ℕ → Method W (ℤ × Option (List ℕ))
  load_file filename w =
      let (file, w') = fopen filename w in
      elim file [ none ↦ ((negsuc 0, none), w') | some fp ↦ load_open fp w' ]

  abbrev pub memory_at : Option (List ℕ) → List ℕ
  memory_at none = []
  memory_at (some bytes) = bytes

  unfoldable pub send_elf_binary_from_rom : RemoteDom0Instance → List ℕ → List ℕ → Method W ℤ
  send_elf_binary_from_rom i local_filename remote_filename w =
      let ((message, elf), w') = load_file local_filename w in
      let sent =
        send_elf_binary_from_memory os i (memory_at elf) (to_word os.size_mod message)
          remote_filename w' in
      if is_disabled i.binary_socket then (pos 0, w) else sent
