-- ===== src/Libfs/Platform.antt =====
-- What the file system service takes from L4: the constants of l4/sys/err.h, fcntl.h and
-- l4/sys/utcb.h, and the values that an IPC stream carries (l4/cxx/ipc_stream).
use l4re_tmp_fs.Base.{ℕ, ◌<◌, ◌≡◌, List, ◌∷◌, Option, ℤ, to_word, take}

-- `st_size` is the one field of `struct stat64` that is read; the others travel along.
pub record Stat64 : Type 0 where
  pub st_size : ℤ
  pub others : List ℕ

-- A value that `operator <<` has put into an IPC stream, by its C++ type.
pub data Item : Type 0 where
  opcode : ℕ → Item
  int : ℤ → Item
  mode : ℕ → Item
  size : ℕ → Item
  ssize : ℤ → Item
  off64 : ℤ → Item
  chars : List ℕ → Item
  stat : Stat64 → Item
  cap : Option ℕ → Item
  small_buf : ℕ → Item

abbrev pub Message : Type 0
Message = List Item

-- The constants, and `operator >>`, which hands out the values in the order in which they were put
-- in. `ulong-int`, `size-ssize` are those of a platform on which `int`, `size_t` and `unsigned long`
-- are one machine word wide, as on x86-32. Nothing is said of a stream that holds another value.
pub record L4 : Type 0 where
  pub word_mod : ℕ
  pub utcb_generic_data_size : ℕ
  pub sizeof_umword : ℕ
  pub enosys : ℕ
  pub enomem : ℕ
  pub enametoolong : ℕ
  pub ebadf : ℕ
  pub einval : ℕ
  pub get_opcode : Message → ℕ × Message
  pub get_int : Message → ℤ × Message
  pub get_ulong : Message → ℕ × Message
  pub get_mode : Message → ℕ × Message
  pub get_size : Message → ℕ × Message
  pub get_off64 : Message → ℤ × Message
  pub get_chars : ℕ → Message → List ℕ × Message
  pub get_stat : Message → Stat64 × Message
  pub get_cap : Message → Option ℕ × Message
  pub word_mod_pos : 0 < word_mod
  pub enosys_pos : 0 < enosys
  pub enomem_pos : 0 < enomem
  pub enametoolong_pos : 0 < enametoolong
  pub ebadf_pos : 0 < ebadf
  pub einval_pos : 0 < einval
  pub opcode_lem : (n : ℕ) (r : Message) → get_opcode (opcode n ∷ r) ≡ (n, r)
  pub int_lem : (z : ℤ) (r : Message) → get_int (int z ∷ r) ≡ (z, r)
  pub ulong-int : (z : ℤ) (r : Message) → get_ulong (int z ∷ r) ≡ (to_word word_mod z, r)
  pub mode_lem : (n : ℕ) (r : Message) → get_mode (mode n ∷ r) ≡ (n, r)
  pub size_lem : (n : ℕ) (r : Message) → get_size (size n ∷ r) ≡ (n, r)
  pub size-ssize : (z : ℤ) (r : Message) → get_size (ssize z ∷ r) ≡ (to_word word_mod z, r)
  pub off64_lem : (z : ℤ) (r : Message) → get_off64 (off64 z ∷ r) ≡ (z, r)
  pub chars_lem : (n : ℕ) (bs : List ℕ) (r : Message) → get_chars n (chars bs ∷ r) ≡ (take n bs, r)
  pub stat_lem : (st : Stat64) (r : Message) → get_stat (stat st ∷ r) ≡ (st, r)
  pub cap_lem : (c : Option ℕ) (r : Message) → get_cap (cap c ∷ r) ≡ (c, r)
