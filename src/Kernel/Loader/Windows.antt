-- ===== src/Kernel/Loader/Windows.antt =====
-- dom0/dom0-l4re_kernel/server/src/loader.cc: the windows through which the loader reads a dataspace.
use l4re_tmp_fs.Base.{
  ℕ, ◌+◌, ◌-◌, ◌%◌, ◌<◌, ◌≤◌, ◌≡◌, refl, ap, some, arith, is_neg, false, round_page_lem, page_of,
}
use native.Mathlib.Nat.{mod-le, mod-lt, mod-eq_of_lt}
use l4re_tmp_fs.Kernel.Loader.{
  returned, State, Platform, local_attach_ds, local_detach_ds, chksys, ◌>>=◌,
}

module _ {W : Type 0} (platform : Platform W) (ds size offset : ℕ) (s : State W) where
  open platform use {page_size, addr_mod, attach, detach}

  -- The window starts at a page, it holds the bytes that were asked for, and the address that is handed
  -- out is that of the byte at `offset`; giving that address back detaches the window. Neither the rounded size
  -- nor the end of the window passes the last address.
  pub local_detach_ds-local_attach_ds :
      0 < page_size
      → size + offset % page_size + page_size ≤ addr_mod
      → let pg_offset = offset - offset % page_size in
        let pg_size =
          (size + offset % page_size + page_size - 1)
          - (size + offset % page_size + page_size - 1) % page_size in
        let r = attach 0 pg_size (some ds) pg_offset s.world in
        is_neg r.0.0 ≡ false
        → r.0.1 % page_size ≡ 0
        → r.0.1 + pg_size < addr_mod
        → let a = r.0.1 + offset % page_size in
          (local_attach_ds platform ds size offset s ≡ (returned a, record s { world = r.1 }))
          × (a + size ≤ r.0.1 + pg_size)
          × (pg_offset + (a - r.0.1) ≡ offset)
          × ((t : State W) → local_detach_ds platform a t ≡ chksys (detach r.0.1) t)
  unfolding local_attach_ds local_detach_ds
  local_detach_ds-local_attach_ds more room good start end =
      let in_page_offset : offset - (offset - offset % page_size) ≡ offset % page_size =
        omega (arith, mod-le offset page_size) in
      let sum : (size + offset % page_size) % addr_mod ≡ size + offset % page_size =
        mod-eq_of_lt (omega arith) in
      let rounded : (size + offset % page_size + page_size - 1) % addr_mod
          ≡ size + offset % page_size + page_size - 1 =
        mod-eq_of_lt (omega arith) in
      let holds = (round_page_lem (size + offset % page_size) page_size more).0 in
      let last = mod-le offset page_size in
      let at =
        attach 0
          ((size + offset % page_size + page_size - 1)
            - (size + offset % page_size + page_size - 1) % page_size)
          (some ds) (offset - offset % page_size) s.world in
      let wraps : (at.0.1 + offset % page_size) % addr_mod ≡ at.0.1 + offset % page_size =
        mod-eq_of_lt (omega (arith, holds)) in
      (
        rw (in_page_offset, sum, rounded) (rw (◌>>=◌, good) (rw wraps refl)),
        omega (arith, holds),
        omega (arith, last),
        λ t. ap (λ n. chksys (detach n) t) (page_of _ _ page_size start (mod-lt offset more)),
      )
