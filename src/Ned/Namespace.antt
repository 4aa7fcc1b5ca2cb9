-- ===== src/Ned/Namespace.antt =====
-- dom0/dom0-ned/server/src/lua_ns.cc: the operations of LUA on a name space.
pub mod Slots
use l4re_tmp_fs.Base.{
  ℕ, ◌^◌, ◌≡◌, Bool, true, false, ◌||◌, not, List, Option, none, some, ℤ, is_neg, ◌+ℤ◌, pos,
  is_zero, to_word, if◌then◌else◌,
}
use l4re_tmp_fs.Libfs.Svr.{Method}
use l4re_tmp_fs.Ned.Cap.{Rights, bits, union, rights, CapFpage, Cap, new_cap, set, set_rights}

-- The world around: the capability slots, the collector of LUA, and the name spaces. `unwind` is what
-- happens to the slot of an Auto_cap when an error of LUA leaves its function.
pub record L4re (W : Type 0) : Type 0 where
  pub enoent : ℕ
  pub overwrite : Rights
  pub invalid : ℕ
  pub alloc : Method W (Option ℕ)
  pub free : ℕ → W → W
  pub unwind : ℕ → W → W
  pub collect : W → W
  pub query : ℕ → List ℕ → ℕ → Method W ℤ
  pub unlink : ℕ → List ℕ → Method W ℤ
  pub register_obj : ℕ → List ℕ → ℕ → Rights → Method W ℤ
  pub link : ℕ → List ℕ → ℕ → List ℕ → Rights → Method W ℤ

-- How a function comes back: with an error of LUA, with nil, with a capability, or with what was on top of
-- the stack before.
pub data Result : Type 0 where
  raised : Result
  nil : Result
  pushed : Cap → Result
  old : Result

-- The upvalues of the closure that `__query` makes.
pub record Lookup : Type 0 where
  pub ns : Cap
  pub name : List ℕ
  pub rights : Rights

-- The upvalues of the closure that `__link` makes.
pub record RegisterLink : Type 0 where
  pub src_ns : Cap
  pub src_name : List ℕ
  pub flags : Rights

-- The third argument of `__register`.
pub data Value : Type 0 where
  nil string other : Value
  userdata : Cap → Value

-- `lua_tointeger`, as far as it is used.
unfoldable pub flags_of : ℤ → Rights
flags_of z = bits (to_word (2 ^ 32) z)

module _ {W : Type 0} (k : CapFpage) (l4re : L4re W) where
  open l4re use {enoent, alloc, free, unwind, collect}

  -- `__query`; the third argument may be missing.
  unfoldable pub query : Cap → List ℕ → Option ℤ → Lookup
  query ns name flags = record {
    ns = ns;
    name = name;
    rights = elim flags [ some z ↦ flags_of z | none ↦ k.ro ];
  }

  -- The rest of `__lookup`, from the collection on.
  unfoldable pub lookup_in : Lookup → ℕ → Method W Result
  lookup_in up obj w =
      let (r, w') = l4re.query up.ns.c up.name obj (collect w) in
      if is_zero (r +ℤ pos enoent)
      then (nil, free obj w')
      else if is_neg r
      then (raised, unwind obj w')
      else (pushed (set_rights k up.rights (set obj (new_cap k l4re.invalid (bits 0)))), w')

  unfoldable pub lookup : Lookup → Method W Result
  lookup up w =
      let (obj, w') = alloc w in elim obj [ none ↦ (raised, w') | some o ↦ lookup_in up o w' ]

  -- `__link`
  unfoldable pub link : Cap → List ℕ → ℤ → RegisterLink
  link ns name flags = record { src_ns = ns; src_name = name; flags = flags_of flags }

  unfoldable pub register_link : RegisterLink → Cap → List ℕ → Method W Result
  register_link up ns name w =
      let (r, w') = l4re.link ns.c name up.src_ns.c up.src_name (union up.flags k.ro) (collect w) in
      (if is_neg r then raised else nil, w')

  -- The end of `__register`, with the capability `n`, if there is one.
  unfoldable pub register_obj : Cap → List ℕ → Option Cap → Method W Result
  register_obj ns key n w =
      let (r, w') =
        l4re.register_obj ns.c key (elim n [ some c ↦ c.c | none ↦ l4re.invalid ])
          (union l4re.overwrite (elim n [ some c ↦ rights c | none ↦ bits 0xf ])) w in
      (if is_neg r then raised else old, w')

  unfoldable pub register : Cap → List ℕ → Value → Method W Result
  register ns key nil w =
      let (r, w') = l4re.unlink ns.c key (collect w) in
      (if not (is_neg r) || is_zero (r +ℤ pos enoent) then old else raised, w')
  register ns key string w = register_obj ns key none (collect w)
  register ns key (userdata n) w = register_obj ns key (some n) (collect w)
  register ns key other w = (raised, collect w)
