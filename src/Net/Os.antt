-- ===== src/Net/Os.antt =====
-- What dom0/dom0-main/server/src takes from the machine, the C library, the network and L4Re, over a
-- state `W` of the world.
use l4re_tmp_fs.Base.{ℕ, ◌≤◌, ◌≡◌, ◌⊎◌, List, [], ℤ, pos, negsuc, length}
use l4re_tmp_fs.Libfs.Svr.{Method}
use l4re_tmp_fs.Libfs.Connection.{IsInt}

-- The values of an `int` and of an `int32_t`.
abbrev pub int_mod : ℕ
int_mod = 4294967296

-- A read returns the count and the bytes that it stored. `call` is the request to Ned: the opcode, the
-- length and the command go out; an error code and a number come back.
pub record Os (W : Type 0) : Type 0 where
  pub size_mod : ℕ
  pub read : ℤ → ℕ → Method W (ℤ × List ℕ)
  pub write : ℤ → List ℕ → Method W ℤ
  pub errno : W → ℕ
  pub socket : Method W ℤ
  pub connect : ℤ → ℕ → ℕ → Method W ℤ
  pub close : ℤ → Method W (Unit {0})
  pub create : List ℕ → Method W ℤ
  pub malloc : ℕ → List ℕ
  pub call : ℕ → ℕ → List ℕ → Method W (ℤ × ℤ)
  pub encode : ℤ → List ℕ
  pub decode : List ℕ → ℤ
  pub int_le_size : int_mod ≤ size_mod
  pub length-malloc : (n : ℕ) → length (malloc n) ≡ n
  pub length-encode : (z : ℤ) → length (encode z) ≡ 4
  pub decode-encode : (z : ℤ) → IsInt int_mod z → decode (encode z) ≡ z
  pub read_count :
      (fd : ℤ) (n : ℕ) (w : W)
      → let r = (read fd n w).0 in
        ((r.0 ≡ pos (length r.1)) × (length r.1 ≤ n)) ⊎ ((r.0 ≡ negsuc 0) × (r.1 ≡ []))
  pub write_count :
      (fd : ℤ) (bs : List ℕ) (w : W)
      → let r = (write fd bs w).0 in ((k : ℕ) × (r ≡ pos k) × (k ≤ length bs)) ⊎ (r ≡ negsuc 0)
