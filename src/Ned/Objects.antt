-- ===== src/Ned/Objects.antt =====
-- dom0/dom0-ned/server/src/server.cc: the list of server objects, which is threaded through the objects.
pub mod Links
pub mod Invariant
pub mod Delete
use l4re_tmp_fs.Base.{
  ℕ, zero, suc, ◌≡◌, Bool, true, false, not, ◌&&◌, Option, none, some, ◌==◌, if◌then◌else◌,
}

-- The links `_n` and `_p` of an object and its list `_l`. An address is a number, 0 the null pointer.
pub record ServerObject : Type 0 where
  pub n : ℕ
  pub p : ℕ
  pub l : ℕ

-- The memory with the objects, and the first object `_f` of the list that is worked on.
pub record State : Type 0 where
  pub object : ℕ → ServerObject
  pub f : ℕ

abbrev pub write : ℕ → ServerObject → State → State
write a v s = record s { object = λ b. if b == a then v else s.object b }

abbrev pub set_n : ℕ → ℕ → State → State
set_n a v s = write a (record (s.object a) { n = v }) s

abbrev pub set_p : ℕ → ℕ → State → State
set_p a v s = write a (record (s.object a) { p = v }) s

abbrev pub unlisted : ServerObject
unlisted = record { n = 0; p = 0; l = 0 }

-- `this` is the address of the list.
unfoldable pub add : ℕ → ℕ → State → State
add this o s =
    let s1 = write o (record { n = s.f; p = 0; l = this }) s in
    let s2 = if s.f == 0 then s1 else set_p s.f o s1 in
    if (s.object o).l == 0 then record s2 { f = o } else s

-- The part under the test of `remove`.
unfoldable pub unlink : ℕ → State → State
unlink o s =
    let before = (s.object o).p in
    let s1 =
      if before == 0 then record s { f = (s.object o).n } else set_n before (s.object o).n s in
    let after = (s1.object o).n in
    let s2 = if after == 0 then s1 else set_p after (s1.object o).p s1 in write o unlisted s2

unfoldable pub remove : ℕ → ℕ → State → ℕ × State
remove this o s =
    let chosen = if o == 0 then s.f else o in
    if not (chosen == 0) && (s.object chosen).l == this then (chosen, unlink chosen s) else (0, s)

-- The loop of ~List(). The first number bounds the rounds; the exception, like its end, is `none`.
unfoldable pub clear_from : ℕ → ℕ → ℕ → State → Option State
clear_from zero this o s = none
clear_from (suc rounds) this o s =
    let next = (s.object o).n in
    let rest = clear_from rounds this next (write o unlisted s) in
    if o == 0 then some s else if (s.object o).l == this then rest else none
