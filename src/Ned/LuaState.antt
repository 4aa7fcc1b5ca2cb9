-- ===== src/Ned/LuaState.antt =====
-- The state of the LUA library, as dom0/dom0-ned/server/src/lua_cap.cc uses it through lua.h: the calls on the
-- stack, and what LUA documents of them. The library is not part of the repository and stays a parameter.
pub mod Tables
use l4re_tmp_fs.Base.{
  ℕ, zero, suc, ◌-◌, ◌≡◌, ◌≢◌, Bool, true, ◌&&◌, List, [], ◌∷◌, Option, none, some, ℤ, pos, negsuc,
  leb, length, if◌then◌else◌,
}
use Prim.Native.String.{String}
use l4re_tmp_fs.Ned.Cap.{Cap}

module _ {V : Type 0} where
  unfoldable pub nth : ℕ → List V → Option V
  nth n [] = none
  nth zero (v ∷ s) = some v
  nth (suc n) (v ∷ s) = nth n s

  unfoldable pub delete : ℕ → List V → List V
  delete n [] = []
  delete zero (v ∷ s) = s
  delete (suc n) (v ∷ s) = v ∷ delete n s

  -- How far below the top an index is: -1 is the top, and 1 the bottom. The top is in front in a list.
  unfoldable pub depth : ℤ → List V → ℕ
  depth (pos i) s = length s - i
  depth (negsuc i) s = i

  unfoldable pub at : ℤ → List V → Option V
  at (pos i) s = if leb 1 i && leb i (length s) then nth (length s - i) s else none
  at (negsuc i) s = nth i s

-- What LUA remembers beside the stack: the table of the globals, what a table has under a key, which values
-- are tables without a metatable, the environments of objects, and the capabilities that lie in objects.
pub record Heap (V : Type 0) : Type 0 where
  pub globals : V
  pub get : V → V → V
  pub is_plain : V → Bool
  pub env : V → V
  pub cap_at : V → Option Cap

-- The values that C sees, and the calls. A call that may end in an error of LUA returns an option. The
-- object that `newuserdata` makes is known by its value, and `write_cap` constructs a capability in it.
-- `register` is luaL_register without a name, for functions of C that are known by their names.
pub record Lua (W V : Type 0) : Type 0 where
  pub stack : W → List V
  pub heap : W → Heap V
  pub nil : V
  pub is_nil : V → Bool
  pub is_function : V → Bool
  pub string : String → V
  pub number : ℤ → V
  pub function : String → V
  pub gettop : W → ℕ
  pub getglobal : String → W → Option W
  pub getfield : ℤ → String → W → Option W
  pub setfield : ℤ → String → W → Option W
  pub gettable : ℤ → W → Option W
  pub settable : ℤ → W → Option W
  pub register : List String → W → Option W
  pub register_lib : String → List String → W → Option W
  pub call : ℕ → ℕ → W → Option W
  pub checkudata : ℤ → String → W → Option V
  pub remove : ℤ → W → W
  pub pop : ℤ → W → W
  pub pushvalue : ℤ → W → W
  pub pushstring : String → W → W
  pub pushnil : W → W
  pub pushinteger : ℤ → W → W
  pub pushboolean : Bool → W → W
  pub isnil : ℤ → W → Bool
  pub isfunction : ℤ → W → Bool
  pub newtable : W → W
  pub newuserdata : W → V × W
  pub write_cap : V → Cap → W → W
  pub newmetatable : String → W → Bool × W
  pub pushcfunction : String → W → W
  pub setmetatable : ℤ → W → W
  pub getfenv : ℤ → W → W
  pub setfenv : ℤ → W → W
  pub rawgeti : ℤ → ℕ → W → W
  pub rawseti : ℤ → ℕ → W → W

module _ {W V : Type 0} (lua : Lua W V) where
  open lua use {stack, heap}

  -- The call leaves this stack, and the rest as it was.
  unfoldable pub Moves : List V → W → W → Type 0
  Moves s w w' = (stack w' ≡ s) × (heap w' ≡ heap w)

  -- The call leaves this stack, and the environments and capabilities as they were.
  unfoldable pub Keeps : List V → W → W → Type 0
  Keeps s w w' =
      (stack w' ≡ s) × ((heap w').env ≡ (heap w).env) × ((heap w').cap_at ≡ (heap w).cap_at)

  -- What LUA documents of the calls, for tables without a metatable.
  pub record Documented : Type 0 where
    pub gettop_law : (w : W) → lua.gettop w ≡ length (stack w)
    pub getglobal_law :
        (w : W) (name : String)
        → (heap w).is_plain (heap w).globals ≡ true
        → (w' : W) × (lua.getglobal name w ≡ some w')
          × Moves ((heap w).get (heap w).globals (lua.string name) ∷ stack w) w w'
    pub getfield_law :
        (w : W) (i : ℤ) (t : V) (name : String)
        → at i (stack w) ≡ some t
        → (heap w).is_plain t ≡ true
        → (w' : W) × (lua.getfield i name w ≡ some w')
          × Moves ((heap w).get t (lua.string name) ∷ stack w) w w'
    pub gettable_law :
        (w : W) (i : ℤ) (t k : V) (s : List V)
        → stack w ≡ k ∷ s
        → at i (stack w) ≡ some t
        → (heap w).is_plain t ≡ true
        → (w' : W) × (lua.gettable i w ≡ some w') × Moves ((heap w).get t k ∷ s) w w'
    pub remove_law :
        (w : W) (i : ℤ) (v : V)
        → at i (stack w) ≡ some v
        → Moves (delete (depth i (stack w)) (stack w)) w (lua.remove i w)
    pub pop_law : (w : W) (v : V) (s : List V) → stack w ≡ v ∷ s → Moves s w (lua.pop (pos 1) w)
    pub pushvalue_law :
        (w : W) (i : ℤ) (v : V)
        → at i (stack w) ≡ some v
        → Moves (v ∷ stack w) w (lua.pushvalue i w)
    pub pushnil_law : (w : W) → Moves (lua.nil ∷ stack w) w (lua.pushnil w)
    pub isnil_law : (w : W) (i : ℤ) (v : V) → at i (stack w) ≡ some v → lua.isnil i w ≡ lua.is_nil v
    pub isfunction_law :
        (w : W) (i : ℤ) (v : V) → at i (stack w) ≡ some v → lua.isfunction i w ≡ lua.is_function v
    pub newtable_law : (w : W) → (t : V) × Keeps (t ∷ stack w) w (lua.newtable w)
    -- The object is new: no capability lies in it.
    pub newuserdata_law :
        (w : W)
        → Keeps ((lua.newuserdata w).0 ∷ stack w) w (lua.newuserdata w).1
          × ((heap w).cap_at (lua.newuserdata w).0 ≡ none)
    pub write_cap_law :
        (w : W) (u : V) (c : Cap)
        → (stack (lua.write_cap u c w) ≡ stack w)
          × ((heap (lua.write_cap u c w)).get ≡ (heap w).get)
          × ((heap (lua.write_cap u c w)).env ≡ (heap w).env)
          × ((heap (lua.write_cap u c w)).cap_at u ≡ some c)
          × ((v : V) → v ≢ u → (heap (lua.write_cap u c w)).cap_at v ≡ (heap w).cap_at v)
    -- The answer is whether the table is a new one.
    pub newmetatable_law :
        (w : W) (name : String)
        → (t : V) × Keeps (t ∷ stack w) w (lua.newmetatable name w).1
          × ((lua.newmetatable name w).0 ≡ true
              → (heap (lua.newmetatable name w).1).is_plain t ≡ true)
    pub pushcfunction_law :
        (w : W) (f : String) → Moves (lua.function f ∷ stack w) w (lua.pushcfunction f w)
    pub setfield_law :
        (w : W) (name : String) (v t : V) (s : List V)
        → stack w ≡ v ∷ t ∷ s
        → (heap w).is_plain t ≡ true
        → (w' : W) × (lua.setfield (negsuc 1) name w ≡ some w')
          × Keeps (t ∷ s) w w'
          × ((heap w').is_plain ≡ (heap w).is_plain)
    pub setmetatable_law :
        (w : W) (t u : V) (s : List V)
        → stack w ≡ t ∷ u ∷ s
        → Keeps (u ∷ s) w (lua.setmetatable (negsuc 1) w)
    pub getfenv_law :
        (w : W) (i : ℤ) (u : V)
        → at i (stack w) ≡ some u
        → Moves ((heap w).env u ∷ stack w) w (lua.getfenv i w)
    pub setfenv_law :
        (w : W) (t u : V) (s : List V)
        → stack w ≡ t ∷ u ∷ s
        → (stack (lua.setfenv (negsuc 1) w) ≡ u ∷ s)
          × ((heap (lua.setfenv (negsuc 1) w)).env u ≡ t)
          × ((heap (lua.setfenv (negsuc 1) w)).cap_at ≡ (heap w).cap_at)
    pub rawseti_law :
        (w : W) (n : ℕ) (v t : V) (s : List V)
        → stack w ≡ v ∷ t ∷ s
        → Keeps (t ∷ s) w (lua.rawseti (negsuc 1) n w)
          × ((heap (lua.rawseti (negsuc 1) n w)).get t (lua.number (pos n)) ≡ v)
