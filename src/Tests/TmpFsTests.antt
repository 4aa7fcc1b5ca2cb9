-- ===== src/Tests/TmpFsTests.antt =====
-- The theorems on dom0/fs_srv, applied.
use l4re_tmp_fs.Base.{
  ℕ, zero, suc, ap, ◌+◌, ◌≤◌, ◌<◌, ◌≡◌, ◌↔◌, refl, List, [], ◌∷◌, arith, pos, some, length, take,
  drop, length-take, length-drop,
}
use l4re_tmp_fs.TmpFs.{path_len, get_actual_path, dataspace}
use l4re_tmp_fs.TmpFs.Paths.{get_actual_path_within}
use l4re_tmp_fs.TmpFs.Dataspace.{Holds, dataspace_lem}
use l4re_tmp_fs.Tests.Machine.{x86, libc, disk, tmp_server, name, tmp_server-IsReady}

get_actual_path_within_example :
    (length (get_actual_path x86 libc name tmp_server).1.actual_path ≡ path_len)
    ↔ (length name + 6 ≤ path_len)
get_actual_path_within_example = get_actual_path_within x86 libc name tmp_server tmp_server-IsReady

positive_drop : (n off : ℕ) (d : List ℕ) → 0 < n → off < length d → 0 < length (take n (drop off d))
positive_drop n off d some_byte ahead = omega (arith, length-take n (drop off d), length-drop off d)

take-length : (n : ℕ) (xs : List ℕ) → take (length (take n xs)) xs ≡ take n xs
take-length zero xs = refl
take-length (suc n) [] = refl
take-length (suc n) (x ∷ xs) = ap (λ t. x ∷ t) (take-length n xs)

disk-Holds : Holds libc disk (pos 3) (disk.content)
disk-Holds n off some_byte ahead = (
  length (take n (drop off disk.content)),
  positive_drop n off disk.content some_byte ahead,
  omega (arith, length-take n (drop off disk.content)),
  omega (arith, length-take n (drop off disk.content), length-drop off disk.content),
  rw (take-length n (drop off disk.content)) refl,
)

dataspace_example :
    (m : List ℕ) × (dataspace x86 libc (pos 3) tmp_server
      ≡ ((pos 0, some 7), record tmp_server { spaces = (7, m) ∷ [] }))
    × (take 4 m ≡ disk.content)
    × (length m ≡ 4)
dataspace_example =
    dataspace_lem x86 libc (pos 3) (disk.content) tmp_server _ (omega arith) (omega arith)
      disk-Holds refl refl
