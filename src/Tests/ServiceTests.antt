-- ===== src/Tests/ServiceTests.antt =====
-- The theorems on the mounted file system and its backend, applied.
use l4re_tmp_fs.Base.{
  ℕ, ◌*◌, put_at, ◌+ℤ◌, ◌/◌, ◌%◌, ◌+◌, ◌≤◌, ◌<◌, ◌≡◌, ◌≢◌, refl, List, [], ◌∷◌, ◌++◌, arith, pos,
  negsuc, length, replicate, ◌==◌, length-replicate,
}
use l4re_tmp_fs.Libfs.Protocol.{max_path_size, max_rw_buffer_size}
use l4re_tmp_fs.Libfs.Client
use l4re_tmp_fs.TmpFs.{tmp_dir, path_len}
use l4re_tmp_fs.Backend.Defs.{Remote}
use l4re_tmp_fs.Backend.Dir
use l4re_tmp_fs.Backend.Dir.{Modes, Dir, directory, file, seek_set, seek_end, lseek64}
use l4re_tmp_fs.Backend.File.{preadv, pwritev}
use l4re_tmp_fs.Service.{tmp_remote}
use l4re_tmp_fs.Service.Names.{Does, names_local, rename_local}
use l4re_tmp_fs.Service.Contents.{Open, joined, lengths, preadv-pwritev}
use l4re_tmp_fs.Service.Reading.{scatter, preadv_local}
use l4re_tmp_fs.Service.Writing.{write_all, AllFit, pwritev_local}
use l4re_tmp_fs.Tests.Machine.{
  x86, libc, disk, side, name, name-IsString, name_short, tmp_server-IsReady,
}

fits_buf : max_path_size x86 + 5 ≤ path_len
unfolding max_path_size
fits_buf = omega arith

abbrev to : List ℕ
to = b'c' ∷ []

to_short : length to < max_path_size x86
unfolding max_path_size
to_short = omega arith

rename_local_example :
    Does
      (Dir.rename x86 (tmp_remote x86 libc) name to side)
      (libc.rename (tmp_dir ++ name) (tmp_dir ++ to) disk)
rename_local_example =
    rename_local x86 libc side tmp_server-IsReady fits_buf name to name-IsString (omega arith, tt)
      name_short to_short

names_local_example :
    Does (Dir.rmdir x86 (tmp_remote x86 libc) name side) (libc.rmdir (tmp_dir ++ name) disk)
names_local_example =
    (names_local x86 libc side tmp_server-IsReady fits_buf name name-IsString name_short 7).1

-- O_DIRECTORY is bit 16, and the modes that say "directory" are those of the type 4 in bits 12 to 15.
abbrev modes : Modes
modes = record { or_directory = λ z. z +ℤ pos 65536; s_isdir = λ m. (m / 4096) % 16 == 4 }

named : name ≢ []
named h = ground arith

preadv_local_example :
    (preadv x86 (tmp_remote x86 libc) (pos 3) (1 ∷ 2 ∷ 5 ∷ []) (pos 1) side).0.1
    ≡ ((6 ∷ []) ∷ (7 ∷ 8 ∷ []) ∷ [] ∷ [])
unfolding scatter
preadv_local_example =
    (preadv_local x86 libc (pos 3) (disk.content) (1 ∷ 2 ∷ 5 ∷ []) 1 side (omega arith)
      (λ n off. refl) (omega arith, (omega arith, (omega arith, tt)))).1

pwritev_local_example :
    (pwritev x86
      (tmp_remote x86 libc)
      (pos 3)
      ((1 ∷ []) ∷ (2 ∷ 3 ∷ []) ∷ [])
      (pos 2)
      side).1.server.files
    ≡ record { content = 5 ∷ 6 ∷ 1 ∷ 2 ∷ 3 ∷ []; log = [] }
unfolding write_all put_at ◌+ℤ◌
pwritev_local_example =
    (pwritev_local x86 libc (pos 3) ((1 ∷ []) ∷ (2 ∷ 3 ∷ []) ∷ []) (pos 2) side (omega arith)
      (omega arith, (omega arith, tt)) (omega arith)).1

-- A file system whose server is gone: every call answers -9, and the state is the shared buffer.
abbrev gone : Remote (List ℕ)
gone = record {
  call = λ m c. ((negsuc 8, []), c);
  rw_buffer = λ c. c;
  write = λ bs c. put_at 0 bs c;
  rw_buffer-write = λ bs c. refl;
}

abbrev dir : Dir
dir = record { fh = pos 3; position = pos 5 }

fstat64_gone :
    Client.fstat64 x86 gone.call (pos 3) []
    ≡ ((negsuc 8, record { st_size = pos 0; others = [] }), [])
unfolding Client.fstat64
fstat64_gone = refl

-- A buffer of so many zeros, with its length.
zeros : (n : ℕ) → (xs : List ℕ) × (length xs ≡ n)
zeros n = (replicate n 0, length-replicate n 0)

abbrev shared : List ℕ
shared = (zeros max_rw_buffer_size).0

abbrev too_long : List ℕ
too_long = (zeros (max_rw_buffer_size + 1)).0

too_long_lem : max_rw_buffer_size < length too_long
too_long_lem = omega (arith, (zeros (max_rw_buffer_size + 1)).1)

-- The file of the disk is open under every handle, and is never closed.
abbrev open_file : Open libc (pos 3)
open_file = record {
  content = λ f. f.content;
  IsOpen = λ f. Unit {0};
  room = 100;
  reads = λ f o n off. refl;
  writes = λ bs p f o h fits. (refl, refl, tt);
}

abbrev two_buffers : List (List ℕ)
two_buffers = (1 ∷ 2 ∷ []) ∷ (3 ∷ 4 ∷ 5 ∷ []) ∷ []

buffers_fit : AllFit max_rw_buffer_size two_buffers
buffers_fit = (omega arith, (omega arith, tt))

short_after : 2 * length (put_at 3 (joined two_buffers) side.server.files.content) < 4294967296
unfolding put_at joined
short_after = omega arith

preadv-pwritev_example :
    let w = pwritev x86 (tmp_remote x86 libc) (pos 3) two_buffers (pos 3) side in
    let r = preadv x86 (tmp_remote x86 libc) (pos 3) (lengths two_buffers) (pos 3) w.1 in
    (w.0 ≡ pos 5) × (r.0 ≡ (pos 5, two_buffers))
unfolding joined
preadv-pwritev_example =
    preadv-pwritev x86 libc (pos 3) open_file two_buffers 3 side (omega arith) buffers_fit tt
      (omega arith) (omega arith) short_after
