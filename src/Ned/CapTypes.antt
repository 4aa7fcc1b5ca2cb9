-- ===== src/Ned/CapTypes.antt =====
-- dom0/dom0-ned/server/src/lua_cap.h and lua_cap.cc: the registration of the types of capabilities.
pub mod Kept
pub mod Registered
pub mod Init
use Prim.Native.String.{String}
use l4re_tmp_fs.Base.{
  ◌>>=◌, ◌∷◌, [], Bool, Option, some, ℤ, pos, negsuc, is_zero, List, if◌then◌else◌,
}
use l4re_tmp_fs.Ned.LuaState.{Lua}
use l4re_tmp_fs.Ned.Cast.{l4_package, cast_table, get_cap_cast_table, create_class}

module _ {W V : Type 0} (lua : Lua W V) where
  open lua use {setfield, settable, pop, pushvalue, pushinteger, newtable, register, register_lib}

  -- The number of the protocol is a key of the class as well, if it has one.
  unfoldable pub set_proto : ℤ → W → Option W
  set_proto proto w =
      if is_zero proto
      then some w
      else settable (negsuc 3) (pushvalue (negsuc 1) (pushinteger proto w))

  -- register_cap_type, with the name and the protocol of the type; `r` registers its methods.
  unfoldable pub register_cap_type : (W → Option W) → String → ℤ → W → Option W
  register_cap_type r name proto w = do
    w1 ← get_cap_cast_table lua w
    w2 ← create_class lua r name w1
    w3 ← set_proto proto w2
    w4 ← setfield (negsuc 1) name w3
    some (pop (pos 1) w4)

  -- Cap::register_methods
  unfoldable pub register_methods : W → Option W
  register_methods w = register ("is_valid" ∷ "svr" ∷ "rights" ∷ "mode" ∷ "m" ∷ []) w

  unfoldable pub init_lua_cap : W → Option W
  init_lua_cap w = do
    w1 ← register_lib l4_package ("cast" ∷ []) w
    w2 ← setfield (negsuc 1) cast_table (newtable w1)
    w3 ← get_cap_cast_table lua w2
    w4 ← create_class lua register_methods "void" w3
    w5 ← setfield (negsuc 1) "void" w4
    some (pop (pos 2) w5)
