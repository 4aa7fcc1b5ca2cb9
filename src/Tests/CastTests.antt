-- ===== src/Tests/CastTests.antt =====
-- The theorems on the casts of dom0/dom0-ned/server/src/lua_cap.cc, applied.
use l4re_tmp_fs.Base.{[], ◌∷◌, ◌==◌, ◌&&◌, if◌then◌else◌}
use l4re_tmp_fs.Ned.Cap.{bits, CapFpage, Cap}
use l4re_tmp_fs.Tests.LuaMachine.{Machine}

abbrev fpage : CapFpage
fpage = record { ro = bits 4; r = bits 4; w = bits 1; s = bits 2; d = bits 8; rwsd = bits 0xf }

abbrev held : Cap
held = record { c = 0x1000; all_rights = bits 5; flags = bits 1 }

-- The class 6 has the type 97, and 98 holds a capability.
abbrev begun : Machine
begun = record {
  stack = 98 ∷ 97 ∷ [];
  get = λ t k.
      if t == 3 && k == 1
      then 4
      else if t == 4 && k == 1
      then 5
      else if t == 5 && k == 97
      then 6
      else 0;
  env = λ u. 0;
  caps = (98, held) ∷ [];
  next = 17;
}

-- The same machine before init_lua_cap, with a key and an object on its stack.
abbrev blank : Machine
blank = record begun { get = λ t k. 0 }

-- Every key of a class names the method 50, and the environment of the object 98 is the table 10, which names the
-- class 6.
abbrev classy : Machine
classy = record begun {
  stack = 1 ∷ 98 ∷ [];
  get = λ t k.
      if t == 3 && k == 1
      then 4
      else if t == 4 && k == 1
      then 5
      else if t == 5 && k == 1
      then 7
      else if t == 10 && k == 1000
      then 6
      else if t == 6
      then 50
      else 0;
  env = λ u. 10;
}
