-- ===== src/Backend/Mount.antt =====
-- The constructor of `Svr` and `L4fs_file_system::mount` of dom0/libfs/lib/libc_backend/l4fs.cc.
use l4re_tmp_fs.Base.{ℕ, List, Option, none, some, ℤ, pos, is_neg, if◌then◌else◌}
use l4re_tmp_fs.Libfs.Platform.{L4}
use l4re_tmp_fs.Libfs.Svr.{Method}
use l4re_tmp_fs.Libfs.Client
use l4re_tmp_fs.Backend.Defs.{Remote}
use l4re_tmp_fs.Backend.Dir.{Dir}

-- What the constructor asks of L4Re: the service's capability, a capability slot, and a place for
-- the buffer. A failure is the error number that `chkcap` or `chksys` throws.
pub data Answer (A : Type 0) : Type 0 where
  found : A → Answer A
  failed : ℤ → Answer A

pub record L4Re (C : Type 0) : Type 0 where
  pub query : List ℕ → Method C (Answer (Unit {0}))
  pub alloc_cap : Method C (Answer ℕ)
  pub attach : ℕ → Method C (Answer (Unit {0}))

module _ {C : Type 0} where
  infixl 5 ◌>>=◌
  abbrev ◌>>=◌ :
      {A B : Type 0} → Method C (Answer A) → (A → Method C (Answer B)) → Method C (Answer B)
  ◌>>=◌ m f c = elim (m c).0 [ found a ↦ f a (m c).1 | failed e ↦ (failed e, (m c).1) ]

  infixl 5 ◌>>◌
  abbrev ◌>>◌ :
      {B : Type 0} → Method C (Answer (Unit {0})) → Method C (Answer B) → Method C (Answer B)
  m >> k = m >>= λ _. k

-- chksys(err): an error code is thrown.
abbrev chksys : {C : Type 0} → Method C ℤ → Method C (Answer (Unit {0}))
chksys m c = (if is_neg (m c).0 then failed (m c).0 else found tt, (m c).1)

module _ {C : Type 0} (l4 : L4) (l4re : L4Re C) (remote : Remote C) where
  -- Svr(fs_name)
  unfoldable pub connect : List ℕ → Method C (Answer (Unit {0}))
  connect fs_name = do
    l4re.query fs_name
    ds ← l4re.alloc_cap
    chksys (Client.init l4 remote.call ds)
    l4re.attach ds

  -- `o_directory` is O_DIRECTORY, `fs_name` the literal "l4fs_svr".
  unfoldable pub mount : List ℕ → ℤ → List ℕ → Method C (ℤ × Option Dir)
  unfolding connect
  mount fs_name o_directory source c =
      let (svr, c') = connect fs_name c in
      let ((fh, mode), c'') = Client.open_file l4 remote.call source o_directory 0 c' in
      elim svr [
        | failed e ↦ ((e, none), c')
        | found _ ↦
            if is_neg fh
            then ((fh, none), c'')
            else ((pos 0, some (record { fh = fh; position = pos 0 })), c'')
      ]
