-- ===== src/Ned/Cast.antt =====
-- dom0/dom0-ned/server/src/lua_cap.cc: the classes of the capabilities, the objects of LUA that hold a
-- capability, the search for a method, and the cast.
pub mod Class
pub mod Made
pub mod Typed
pub mod Casting
pub mod Method
use Prim.Native.String.{String}
use l4re_tmp_fs.Base.{
  ◌>>=◌, ℕ, ◌+◌, Bool, true, false, ◌||◌, not, Option, none, some, ℤ, pos, negsuc, ltb,
  if◌then◌else◌,
}
use l4re_tmp_fs.Ned.Cap.{bits, CapFpage, Cap, new_cap, assign}
use l4re_tmp_fs.Ned.LuaState.{Lua}

abbrev pub l4_package : String
l4_package = "L4"

abbrev pub cast_table : String
cast_table = "_CAP_TYPES"

abbrev pub cap_type : String
cap_type = "L4::Cap"

-- An item of an answer: a string, an integer, or another.
pub data Varg : Type 0 where
  chars : String → Varg
  int : ℤ → Varg
  other : Varg

-- None is an error of LUA, which leaves the function.
module _ {W V : Type 0} (lua : Lua W V) where
  open lua use {
    heap, gettop, getglobal, getfield, setfield, gettable, call, checkudata, remove, pop, pushvalue,
    pushstring, pushnil, isnil, isfunction, newtable, newuserdata, write_cap, newmetatable,
    pushcfunction, setmetatable, getfenv, setfenv, rawgeti, rawseti,
  }

  unfoldable pub get_cap_cast_table : W → Option W
  get_cap_cast_table w = do
    w1 ← getglobal l4_package w
    w2 ← getfield (negsuc 0) cast_table w1
    some (remove (negsuc 1) w2)

  -- Cap::create_class; `rm` registers the methods.
  unfoldable pub create_class : (W → Option W) → String → W → Option W
  create_class rm type w = do
    w1 ← rm (newtable w)
    setfield (negsuc 1) "_CLASS_NAME" (pushstring type w1)

  -- Cap::get_class
  unfoldable pub get_class : W → Option W
  get_class w = do
    w1 ← get_cap_cast_table w
    w2 ← getfield (negsuc 0) "void" w1
    some (remove (negsuc 1) w2)

  -- Cap::get_method_table
  unfoldable pub get_method_table : String → W → Option W
  get_method_table typ w = do
    w1 ← get_cap_cast_table w
    w2 ← getfield (negsuc 0) typ w1
    some (remove (negsuc 1) w2)

  -- Cap::add_class_metatable
  unfoldable pub add_class_metatable : W → Option W
  add_class_metatable w = do
    w1 ← get_class (newtable w)
    w2 ← setfield (negsuc 1) "__index" w1
    some (setmetatable (negsuc 1) w2)

  -- Cap::find_dynamic_type, with the answer of the capability to the meta protocol, or none of an error.
  -- The number that lua_pop is given takes everything off the stack.
  unfoldable pub find_dynamic_type : Option (Varg × Varg) → W → Option (Bool × W)
  find_dynamic_type none w = some (false, w)
  find_dynamic_type (some (chars name, int proto)) w = do
    w1 ← get_method_table name w
    if isnil (negsuc 0) w1 then some (false, pop (negsuc 0) w1) else some (true, w1)
  find_dynamic_type (some (name, proto)) w = some (false, w)

  -- The end of Cap::index, with the table of the methods on top.
  unfoldable pub look_up : W → Option (ℕ × W)
  look_up w = do w1 ← gettable (negsuc 1) (pushvalue (pos 2) w); some (1, w1)

  -- The answer of find_dynamic_type, with the class that goes into the environment.
  unfoldable pub typed_index : Bool × W → Option (ℕ × W)
  typed_index (false, w) = some (0, w)
  typed_index (true, w) = look_up (rawseti (negsuc 2) 0 (pushvalue (negsuc 0) w))

  -- The part of Cap::index that asks the capability for its type.
  unfoldable pub dynamic_index : Option (Varg × Varg) → W → Option (ℕ × W)
  dynamic_index answer w = find_dynamic_type answer w >>= typed_index

  -- The part of Cap::index behind the class of all capabilities.
  unfoldable pub class_index : Option (Varg × Varg) → W → Option (ℕ × W)
  class_index answer w =
      let w1 = rawgeti (negsuc 0) 0 (getfenv (pos 1) w) in
      if isnil (negsuc 0) w1 then dynamic_index answer (pop (pos 1) w1) else look_up w1

  -- Cap::index returns the number of its results.
  unfoldable pub index : Option (Varg × Varg) → W → Option (ℕ × W)
  index answer w = do
    w1 ← get_method_table "void" w
    w2 ← gettable (negsuc 1) (pushvalue (pos 2) w1)
    if isnil (negsuc 0) w2 then class_index answer (pop (pos 2) w2) else some (1, w2)

  -- lua.h: register_method
  unfoldable pub register_method : String → String → W → Option W
  register_method name f w = setfield (negsuc 1) name (pushcfunction f w)

  unfoldable pub init_cap_metatable : W → Option W
  init_cap_metatable w = do
    w1 ← register_method "__gc" "gc_cap" w
    w2 ← register_method "__tostring" "tostring" w1
    register_method "__index" "__index" w2

  unfoldable pub push_cap_metatable : W → Option W
  push_cap_metatable w =
      let (made, w1) = newmetatable cap_type w in if made then init_cap_metatable w1 else some w1

  unfoldable pub set_cap_metatable : W → Option W
  set_cap_metatable w = do w1 ← push_cap_metatable w; some (setmetatable (negsuc 1) w1)

  -- The environment of the capability above `frame` gets the class at `frame`.
  unfoldable pub set_class : ℕ → W → W
  set_class frame w =
      pop (pos 1) (rawseti (negsuc 1) 0 (pushvalue (pos frame) (getfenv (pos (frame + 1)) w)))

  -- What Cap::assign writes to the capability at `nc`, with the other one in front.
  unfoldable pub assign_from : Option Cap → Option Cap → V → W → W
  assign_from (some o) (some n) nc w = write_cap nc (assign o n) w
  assign_from _ _ nc w = w

  -- Cap::assign to the capability at `nc` from the one at `c`; one that is assigned to itself is written as
  -- it is.
  unfoldable pub assign_at : V → V → W → W
  assign_at nc c w = assign_from ((heap w).cap_at c) ((heap w).cap_at nc) nc w

-- `k` has the constants of L4, and `invalid` is the capability of a `Ref_cap` that has none.
module _ {W V : Type 0} (k : CapFpage) (invalid : ℕ) (lua : Lua W V) where
  open lua use {
    heap, gettop, gettable, call, checkudata, remove, pushvalue, pushnil, isnil, isfunction,
    newtable, newuserdata, write_cap, setfenv,
  }

  unfoldable pub push_void_cap : W → Option (V × W)
  push_void_cap w =
      let (c, w1) = newuserdata w in
      do
        w2 ← set_cap_metatable lua (write_cap c (new_cap k invalid (bits 0)) w1)
        some (c, setfenv (negsuc 1) (newtable w2))

  -- The part of push_new_cap that makes a capability, and gives it the class if there is one.
  unfoldable pub push_typed : ℕ → Bool → W → Option (Option V × W)
  push_typed frame found w = do
    c ← push_void_cap w
    some (some c.0, remove (pos frame) (if found then set_class lua frame c.1 else c.1))

  -- The rest of push_new_cap, with the class or nil at `frame`.
  unfoldable pub push_found : ℕ → Bool → W → Option (Option V × W)
  push_found frame void_cap w =
      let found = not (isnil (pos frame) w) in
      if found || void_cap then push_typed frame found w else some (none, remove (pos frame) w)

  unfoldable pub push_new_cap : Bool → W → Option (Option V × W)
  push_new_cap void_cap w = do
    w1 ← get_cap_cast_table lua w
    w2 ← gettable (pos (gettop w)) (remove (pos (gettop w)) (pushvalue (pos (gettop w)) w1))
    push_found (gettop w) void_cap (remove (pos (gettop w)) w2)

  -- The end of `__cast`, with the type and the capability on the stack.
  unfoldable pub cast_cap : W → Option (ℕ × W)
  cast_cap w = do
    c ← checkudata (pos 2) cap_type w
    n ← push_new_cap false (pushvalue (pos 1) w)
    some (1, elim n.0 [ some nc ↦ assign_at lua nc c n.1 | none ↦ pushnil n.1 ])

  -- `__cast`
  unfoldable pub cast : W → Option (ℕ × W)
  cast w =
      if ltb 2 (gettop w)
      then none
      else if isfunction (pos 2) w
      then call 0 1 w >>= cast_cap
      else cast_cap w
