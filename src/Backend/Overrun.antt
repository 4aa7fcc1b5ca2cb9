-- ===== src/Backend/Overrun.antt =====
-- Where dom0/libfs/lib/libc_backend/l4fs.cc copies to the shared buffer before it checks.
use l4re_tmp_fs.Base.{
  ℕ, ◌<◌, ◌≡◌, refl, List, ◌∷◌, arith, length, length-put_at-min, lt→ltb, ℤ, neg, is_neg, true,
}
use l4re_tmp_fs.Libfs.Platform.{L4}
use l4re_tmp_fs.Libfs.Protocol.{max_rw_buffer_size}
use l4re_tmp_fs.Libfs.Client
use l4re_tmp_fs.Backend.Defs.{Remote}
use l4re_tmp_fs.Backend.File.{pwritev}

is_neg-neg : (n : ℕ) → 0 < n → is_neg (neg n) ≡ true
is_neg-neg n h = ground arith

-- `pwritev` refuses a buffer that is longer than the shared one with -L4_ENOMEM, and sends nothing;
-- but it has copied the whole of it, past the end of the shared buffer.
pub pwritev_overrun :
    {C : Type 0} (l4 : L4) (remote : Remote C) (fh : ℤ) (buf : List ℕ) (iov : List (List ℕ)) (p : ℤ)
    (c : C)
    → length (remote.rw_buffer c) ≡ max_rw_buffer_size
    → max_rw_buffer_size < length buf
    → let r = pwritev l4 remote fh (buf ∷ iov) p c in
      (r ≡ (neg l4.enomem, remote.write buf c)) × (length (remote.rw_buffer r.1) ≡ length buf)
unfolding pwritev Client.pwrite
pwritev_overrun l4 remote fh buf iov p c sized long =
    let refused = lt→ltb max_rw_buffer_size (length buf) long in
    let negative = is_neg-neg l4.enomem l4.enomem_pos in
    rw (refused, negative)
      (
        refl,
        rw (remote.rw_buffer-write buf c)
            (omega (arith, length-put_at-min 0 buf (remote.rw_buffer c))),
      )
