-- ===== src/Tests/Machine.antt =====
-- A platform and a C library that meet what is assumed of them: a 32-bit machine, whose streams are
-- the lists of the values put in, and a file system that holds one file.
use l4re_tmp_fs.Base.{
  ℕ, suc, ◌+◌, ◌-◌, ◌≤◌, ◌<◌, ◌^◌, refl, inl, inr, List, [], ◌∷◌, ◌++◌, Option, none, arith, false,
  ℤ, pos, negsuc, pos_part, to_word, length, take, drop, replicate, length-replicate, length-take,
  put_at, IsString,
}
use l4re_tmp_fs.Libfs.Platform.{
  L4, Stat64, opcode, int, mode, size, ssize, off64, chars, stat, cap, Message,
}
use l4re_tmp_fs.Libfs.Protocol.{max_path_size}
use l4re_tmp_fs.Libfs.Connection.{Side, IsInt}
use l4re_tmp_fs.TmpFs.Paths.{IsReady}
use l4re_tmp_fs.TmpFs.{Libc, Server, tmp_dir}

abbrev pub word : ℕ
word = 2 ^ 32

abbrev pub get_opcode : Message → ℕ × Message
get_opcode (opcode n ∷ r) = (n, r)
get_opcode _ = (99, [])

abbrev pub get_int : Message → ℤ × Message
get_int (int z ∷ r) = (z, r)
get_int _ = (pos 0, [])

abbrev pub get_ulong : Message → ℕ × Message
get_ulong (int z ∷ r) = (to_word word z, r)
get_ulong _ = (0, [])

abbrev pub get_mode : Message → ℕ × Message
get_mode (mode n ∷ r) = (n, r)
get_mode _ = (0, [])

abbrev pub get_size : Message → ℕ × Message
get_size (size n ∷ r) = (n, r)
get_size (ssize z ∷ r) = (to_word word z, r)
get_size _ = (0, [])

abbrev pub get_off64 : Message → ℤ × Message
get_off64 (off64 z ∷ r) = (z, r)
get_off64 _ = (pos 0, [])

abbrev pub get_chars : ℕ → Message → List ℕ × Message
get_chars n (chars bs ∷ r) = (take n bs, r)
get_chars n _ = ([], [])

abbrev pub get_stat : Message → Stat64 × Message
get_stat (stat st ∷ r) = (st, r)
get_stat _ = (record { st_size = pos 0; others = [] }, [])

abbrev pub get_cap : Message → Option ℕ × Message
get_cap (cap c ∷ r) = (c, r)
get_cap _ = (none, [])

pub positive : (n : ℕ) → 0 < suc n
positive n = omega arith

abbrev pub x86 : L4
x86 = record {
  word_mod = word;
  utcb_generic_data_size = 63;
  sizeof_umword = 4;
  enosys = 38;
  enomem = 12;
  enametoolong = 36;
  ebadf = 9;
  einval = 22;
  get_opcode = get_opcode;
  get_int = get_int;
  get_ulong = get_ulong;
  get_mode = get_mode;
  get_size = get_size;
  get_off64 = get_off64;
  get_chars = get_chars;
  get_stat = get_stat;
  get_cap = get_cap;
  word_mod_pos = positive (2 ^ 32 - 1);
  enosys_pos = positive 37;
  enomem_pos = positive 11;
  enametoolong_pos = positive 35;
  ebadf_pos = positive 8;
  einval_pos = positive 21;
  opcode_lem = λ n r. refl;
  int_lem = λ z r. refl;
  ulong-int = λ z r. refl;
  mode_lem = λ n r. refl;
  size_lem = λ n r. refl;
  size-ssize = λ z r. refl;
  off64_lem = λ z r. refl;
  chars_lem = λ n bs r. refl;
  stat_lem = λ st r. refl;
  cap_lem = λ c r. refl;
}

-- The contents of the file, and the paths of the calls so far, the last one first.
pub record Disk : Type 0 where
  pub content : List ℕ
  pub log : List (List ℕ)

abbrev pub logged : List ℕ → Disk → Disk
logged path f = record f { log = path ∷ f.log }

abbrev pub bytes_at : ℕ → ℤ → Disk → List ℕ
bytes_at n offset f = take n (drop (pos_part offset) f.content)

pub bytes_at-le : (n : ℕ) (offset : ℤ) (f : Disk) → length (bytes_at n offset f) ≤ n
bytes_at-le n offset f = omega (arith, length-take n (drop (pos_part offset) f.content))

pub zeros-le : (n : ℕ) → n ≤ length (replicate {A = ℕ} n 0)
zeros-le n = omega (arith, length-replicate {A = ℕ} n 0)

pub refl_le : (n : ℕ) → n ≤ n
refl_le n = omega arith

abbrev pub libc : Libc Disk
libc = record {
  open_file = λ path flags m f. (pos 3, logged path f);
  mkdir = λ path m f. (pos 0, logged path f);
  rename = λ from to f. (pos 0, logged to (logged from f));
  unlink = λ path f. (pos 0, logged path f);
  rmdir = λ path f. (pos 0, logged path f);
  close = λ fh f. (pos 0, f);
  pread64 = λ fh n offset f. ((pos (length (bytes_at n offset f)), bytes_at n offset f), f);
  pwrite64 = λ fh bs offset f.
      (pos (length bs), record f { content = put_at (pos_part offset) bs f.content });
  fstat64 = λ fh f. ((pos 0, record { st_size = pos (length f.content); others = [] }), f);
  malloc = λ n. replicate n 0;
  alloc_cap = λ used. length used + 7;
  alloc_ds = λ n. replicate n 0;
  length-malloc = λ n. length-replicate n 0;
  length-alloc_ds = zeros-le;
  pread64_count = λ fh n offset f. inl (refl, bytes_at-le n offset f);
  pwrite64_count = λ fh bs offset f. inl (length bs, refl, refl_le (length bs));
}

-- The same, but for the reads, which all fail.
abbrev pub broken_libc : Libc Disk
broken_libc = record libc {
  pread64 = λ fh n offset f. ((negsuc 0, []), f);
  pread64_count = λ fh n offset f. inr (refl, refl);
}

abbrev pub disk : Disk
disk = record { content = 5 ∷ 6 ∷ 7 ∷ 8 ∷ []; log = [] }

-- A server as the constructor leaves it, but for a shared buffer of eight bytes.
abbrev pub tmp_server : Server Disk
tmp_server = record {
  rw_buf_ds = 7;
  rw_buf = replicate 8 0;
  actual_path = tmp_dir ++ replicate 250 0;
  spaces = [];
  stuck = false;
  files = disk;
}

abbrev pub side : Side (Server Disk)
side = record { name_buf = replicate 232 0; server = tmp_server }

abbrev pub name : List ℕ
name = b'a' ∷ b'b' ∷ []

pub name-IsString : IsString name
name-IsString = (omega arith, (omega arith, tt))

pub name_short : length name < max_path_size x86
unfolding max_path_size
name_short = omega arith

pub flags-IsInt : IsInt word (pos 2)
flags-IsInt = (omega arith, omega arith)

pub tmp_server-IsReady : IsReady tmp_server
tmp_server-IsReady = record { sized = refl; prefix = refl }
