-- ===== src/Ned/Cap.antt =====
-- dom0/dom0-ned/server/src/lua_cap.h and lua_cap.cc: the capabilities of LUA, with their rights. A set of
-- bits is a function from the position of a bit.
pub mod Modes
use l4re_tmp_fs.Base.{
  ℕ, zero, suc, ◌/◌, ◌%◌, ◌^◌, ◌==◌, Bool, true, false, ◌&&◌, ◌||◌, not, List, [], ◌∷◌, Option,
  none, some, ℤ, to_word, ltb, if◌then◌else◌, c_string,
}

abbrev pub Rights : Type 0
Rights = ℕ → Bool

-- The bits of a number.
unfoldable pub bits : ℕ → Rights
bits n i = n / 2 ^ i % 2 == 1

unfoldable pub union : Rights → Rights → Rights
union r s i = r i || s i

unfoldable pub meet : Rights → Rights → Rights
meet r s i = r i && s i

-- What of a set is kept in an integer of `w` bits.
unfoldable pub field : ℕ → Rights → Rights
field w r i = ltb i w && r i

-- The constants of L4: `ro` is L4_FPAGE_RO, the others are L4_CAP_FPAGE_R, W, S, D and RWSD.
pub record CapFpage : Type 0 where
  pub ro : Rights
  pub r : Rights
  pub w : Rights
  pub s : Rights
  pub d : Rights
  pub rwsd : Rights

-- Lua::Cap: `_c`, `_rights` and `_flags`.
pub record Cap : Type 0 where
  pub c : ℕ
  pub all_rights : Rights
  pub flags : Rights

unfoldable pub fpage : CapFpage → Cap → ℕ × Rights
fpage k cap = (cap.c, meet cap.all_rights k.rwsd)

unfoldable pub ext_rights : Cap → Rights
ext_rights cap = meet cap.all_rights (bits 0xf0)

unfoldable pub rights : Cap → Rights
rights cap = meet cap.all_rights (bits 0xf)

unfoldable pub new_cap : CapFpage → ℕ → Rights → Cap
new_cap k c flags = record { c = c; all_rights = field 16 k.ro; flags = field 16 flags }

unfoldable pub set : ℕ → Cap → Cap
set c cap = record cap { c = c }

unfoldable pub trim_rights : Rights → Cap → Cap
trim_rights keep cap = record cap {
  all_rights = meet cap.all_rights (union keep (λ i. not (ltb i 4)));
}

unfoldable pub set_flags : Rights → Cap → Cap
set_flags flags cap = record cap { flags = field 16 (union cap.flags flags) }

-- The argument is an unsigned char.
unfoldable pub set_rights : CapFpage → Rights → Cap → Cap
set_rights k r cap = record cap { all_rights = field 16 (union (field 8 r) k.ro) }

-- What `this` becomes.
unfoldable pub assign : Cap → Cap → Cap
assign o cap = record cap { c = o.c; all_rights = o.all_rights }

-- What is on top of LUA's stack: the first argument, a new object, a number, or none of a crash.
pub data Top : Type 0 where
  argument : Top
  clone : Cap → Top
  integer : Rights → Top
  crash : Top

-- The comparison of two integers of so many bits.
unfoldable pub same : ℕ → Rights → Rights → Bool
same zero r s = true
same (suc n) r s = (if r n then s n else not (s n)) && same n r s

-- `__set_rights`, with an argument that is an unsigned of 32 bits.
unfoldable pub lua_set_rights : CapFpage → Rights → Cap → Top
lua_set_rights k r n = if same 32 n.all_rights r then argument else clone (set_rights k r n)

-- Two labels of a case.
unfoldable pub is : ℕ → ℕ → ℕ → Bool
is x y b = b == x || b == y

-- What a letter of a mode stands for.
unfoldable pub letter : CapFpage → ℕ → Rights
letter k b =
    if is b'r' b'R' b
    then k.r
    else if is b'w' b'W' b
    then k.w
    else if is b's' b'S' b
    then k.s
    else if is b'd' b'D' b
    then k.d
    else if is b'n' b'N' b
    then bits 0x10
    else if is b'c' b'C' b
    then bits 0x20
    else bits 0

-- The loop over the letters, with the rights so far.
unfoldable pub add_letters : CapFpage → List ℕ → Rights → Rights
add_letters k [] rights = rights
add_letters k (b ∷ s) rights = add_letters k s (union rights (letter k b))

-- A value of LUA: `number` is one for which `lua_isnumber` holds, with its `lua_tointeger`; `string` one
-- that is not a number, as it lies in memory; `other` one for which `lua_tostring` is null.
pub data Value : Type 0 where
  nil : Value
  number : ℤ → Value
  string : List ℕ → Value
  other : Value

-- `__set_mode_call`, whose second argument may be missing.
unfoldable pub set_mode_call : CapFpage → Option Value → Cap → Top
set_mode_call k none c = integer (rights c)
set_mode_call k (some nil) c = integer (rights c)
set_mode_call k (some (number z)) c = lua_set_rights k (bits (to_word (2 ^ 32) z)) c
set_mode_call k (some (string s)) c = lua_set_rights k (add_letters k (c_string s) k.r) c
set_mode_call k (some other) c = crash

-- `__full`
unfoldable pub full : CapFpage → Cap → Top
full k c = lua_set_rights k (bits 0xef) c
