-- ===== src/Libfs/Dispatch.antt =====
-- dom0/libfs/lib/server/svr.cc: a request is taken from the stream, handed to the server, and the
-- answer is put into the stream.
use l4re_tmp_fs.Base.{
  ℕ, ◌-◌, ◌*◌, List, [], ◌∷◌, ◌++◌, Option, none, some, ℤ, neg, pos, negsuc, is_neg, ltb,
  if◌then◌else◌, put_at, c_string,
}
use l4re_tmp_fs.Libfs.Platform.{L4, Item, int, mode, ssize, off64, stat, cap, Message}
use l4re_tmp_fs.Libfs.Protocol.{
  Opcode, init, open_file, close, pread, pwrite, pgetdents, fstat64, ftruncate64, rename, unlink,
  rmdir, mkdir, fsync, get_dataspace, umount, sync, symlink, link, readlink, label, max_path_size,
}
use l4re_tmp_fs.Libfs.Svr.{Method, Svr}

-- The stream, whose two halves are the request and the answer, the static buffer of
-- `operator >> (char * &)`, and the server object.
pub record Env (S : Type 0) : Type 0 where
  pub request : Message
  pub answer : Message
  pub name_buf : List ℕ
  pub server : S

abbrev pub Handler : Type 0 → Type 0 → Type 0
Handler S A = Env S → A × Env S

module _ {S A B : Type 0} where
  infixl 5 ◌>>=◌
  abbrev ◌>>=◌ : Handler S A → (A → Handler S B) → Handler S B
  ◌>>=◌ m f e = f (m e).0 (m e).1

module _ {S B : Type 0} where
  infixl 5 ◌>>◌
  abbrev ◌>>◌ : Handler S (Unit {0}) → Handler S B → Handler S B
  m >> k = m >>= λ _. k

module _ {S A : Type 0} where
  abbrev pure : A → Handler S A
  pure a e = (a, e)

  abbrev get : (Message → A × Message) → Handler S A
  get f e = ((f e.request).0, record e { request = (f e.request).1 })

  abbrev invoke : Method S A → Handler S A
  invoke f e = ((f e.server).0, record e { server = (f e.server).1 })

module _ {S : Type 0} where
  abbrev put : Item → Handler S (Unit {0})
  put i e = (tt, record e { answer = e.answer ++ i ∷ [] })

-- The conversion of `unsigned long` to `int`.
unfoldable pub to_int : ℕ → ℕ → ℤ
to_int w n = if ltb (2 * n) w then pos n else negsuc (w - 1 - n)

-- `return (ret < 0) ? ret : 0;`
abbrev pub status : ℤ → ℤ
status ret = if is_neg ret then ret else pos 0

module _ {S : Type 0} (l4 : L4) (svr : Svr S) where
  -- operator >> (L4::Ipc::Istream &, char * &)
  unfoldable pub get_name : Handler S (List ℕ)
  get_name e =
      let m = max_path_size l4 in
      let (bs, rest) = l4.get_chars m e.request in
      let buf = put_at (m - 1) (0 ∷ []) (put_at 0 bs e.name_buf) in
      (c_string buf, record e { request = rest; name_buf = buf })

  unfoldable pub handle : Option Opcode → Handler S ℤ
  handle (some open_file) = do
    flags ← get l4.get_ulong
    m ← get l4.get_mode
    name ← get_name
    (fh, m') ← invoke (svr.open_file name (to_int l4.word_mod flags) m)
    put (int fh)
    put (mode m')
    pure (pos 0)
  handle (some readlink) = do
    fh ← get l4.get_int
    n ← get l4.get_size
    ret ← invoke (svr.readlink fh n)
    put (ssize ret)
    pure (status ret)
  handle (some pread) = do
    fh ← get l4.get_int
    n ← get l4.get_size
    offset ← get l4.get_off64
    ret ← invoke (svr.pread fh n offset)
    put (ssize ret)
    pure (status ret)
  handle (some pwrite) = do
    fh ← get l4.get_int
    n ← get l4.get_size
    offset ← get l4.get_off64
    ret ← invoke (svr.pwrite fh n offset)
    put (ssize ret)
    pure (status ret)
  handle (some pgetdents) = do
    fh ← get l4.get_int
    n ← get l4.get_size
    offset ← get l4.get_off64
    ret ← invoke (svr.pgetdents fh n offset)
    put (ssize ret)
    put (off64 offset)
    pure (status ret)
  handle (some close) = do fh ← get l4.get_int; invoke (svr.close fh)
  handle (some symlink) = do from ← get_name; invoke (svr.symlink from)
  handle (some link) = do from ← get_name; invoke (svr.link from)
  handle (some fstat64) = do
    fh ← get l4.get_int
    (ret, st) ← invoke (svr.fstat64 fh)
    put (stat st)
    pure ret
  handle (some fsync) = do fh ← get l4.get_int; invoke (svr.fsync fh)
  handle (some ftruncate64) = do
    fh ← get l4.get_int
    offset ← get l4.get_off64
    invoke (svr.ftruncate64 fh offset)
  handle (some get_dataspace) = do
    fh ← get l4.get_int
    (err, ds) ← invoke (svr.dataspace fh)
    put (cap ds)
    pure err
  handle (some rename) = do from ← get_name; invoke (svr.rename from)
  handle (some unlink) = do name ← get_name; invoke (svr.unlink name)
  handle (some rmdir) = do name ← get_name; invoke (svr.rmdir name)
  handle (some mkdir) = do m ← get l4.get_mode; name ← get_name; invoke (svr.mkdir name m)
  handle (some init) = do
    (_, ds) ← invoke svr.init
    put (cap ds)
    pure (elim ds [ some _ ↦ pos 0 | none ↦ neg l4.enomem ])
  handle (some umount) = invoke svr.umount
  handle (some sync) = invoke svr.sync
  handle none = pure (neg l4.enosys)

  unfoldable pub dispatch : Handler S ℤ
  dispatch = do op ← get l4.get_opcode; handle (label op)
