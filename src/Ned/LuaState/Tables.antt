-- ===== src/Ned/LuaState/Tables.antt =====
-- What LUA documents of the calls that make and fill tables, as dom0/dom0-ned/server/src/lua_cap.cc and lua_cap.h
-- use them.
use Prim.Native.String.{String}
use l4re_tmp_fs.Base.{ℕ, ◌≡◌, ◌≢◌, true, false, List, ◌∷◌, Option, some, ℤ, negsuc, pos}
use l4re_tmp_fs.Ned.LuaState.{Heap, Lua, Moves, at}

-- Nothing but this table may have changed, and it still has no metatable.
unfoldable pub Changes : {V : Type 0} → V → Heap V → Heap V → Type 0
Changes t h h' =
    (h'.globals ≡ h.globals)
    × (h'.is_plain ≡ h.is_plain)
    × ((v k : _) → v ≢ t → h'.get v k ≡ h.get v k)

-- The table has this value under this key, and else nothing has changed.
unfoldable pub Writes : {V : Type 0} → V → V → V → Heap V → Heap V → Type 0
Writes t k v h h' =
    Changes t h h' × (h'.get t k ≡ v) × ((k' : _) → k' ≢ k → h'.get t k' ≡ h.get t k')

-- There is one more table, and the others are as they were.
unfoldable pub Grows : {V : Type 0} → V → Heap V → Heap V → Type 0
Grows t h h' =
    (h'.globals ≡ h.globals)
    × (h.is_plain t ≡ false)
    × (h'.is_plain t ≡ true)
    × ((v : _) → h.is_plain v ≡ true → h'.is_plain v ≡ true)
    × ((v k : _) → h.is_plain v ≡ true → h'.get v k ≡ h.get v k)

module _ {W V : Type 0} (lua : Lua W V) where
  open lua use {stack, heap, string, number}

  -- The call fills the table on top of the stack.
  unfoldable pub Fills : (W → Option W) → Type 0
  Fills f =
      (w : W) (t : V) (s : List V)
      → stack w ≡ t ∷ s
      → (heap w).is_plain t ≡ true
      → (w' : W) × (f w ≡ some w') × (stack w' ≡ t ∷ s) × Changes t (heap w) (heap w')

  pub record Tables : Type 0 where
    pub string-number : (s : String) (z : ℤ) → string s ≢ number z
    pub new_table :
        (w : W)
        → (t : V) × (stack (lua.newtable w) ≡ t ∷ stack w)
          × Grows t (heap w) (heap (lua.newtable w))
    pub push_string : (w : W) (s : String) → Moves lua (string s ∷ stack w) w (lua.pushstring s w)
    pub push_integer : (w : W) (z : ℤ) → Moves lua (number z ∷ stack w) w (lua.pushinteger z w)
    pub set_field :
        (w : W) (name : String) (v t : V) (s : List V)
        → stack w ≡ v ∷ t ∷ s
        → (heap w).is_plain t ≡ true
        → (w' : W) × (lua.setfield (negsuc 1) name w ≡ some w')
          × (stack w' ≡ t ∷ s)
          × Writes t (string name) v (heap w) (heap w')
    pub set_table :
        (w : W) (i : ℤ) (v k t : V) (s : List V)
        → stack w ≡ v ∷ k ∷ s
        → at i (stack w) ≡ some t
        → (heap w).is_plain t ≡ true
        → (w' : W) × (lua.settable i w ≡ some w') × (stack w' ≡ s) × Writes t k v (heap w) (heap w')
    pub raw_get :
        (w : W) (n : ℕ) (t : V) (s : List V)
        → stack w ≡ t ∷ s
        → Moves lua ((heap w).get t (number (pos n)) ∷ stack w) w (lua.rawgeti (negsuc 0) n w)
    pub register_fills : (names : List String) → Fills (lua.register names)
    pub pop_two :
        (w : W) (a b : V) (s : List V) → stack w ≡ a ∷ b ∷ s → Moves lua s w (lua.pop (pos 2) w)
    -- Where there is no global of the name, it gets a new table.
    pub register_new :
        (w : W) (name : String) (fs : List String)
        → (heap w).is_plain (heap w).globals ≡ true
        → (heap w).get (heap w).globals (string name) ≡ lua.nil
        → (t : V) × (w' : W) × (lua.register_lib name fs w ≡ some w')
          × (stack w' ≡ t ∷ stack w)
          × ((heap w').globals ≡ (heap w).globals)
          × ((heap w').is_plain (heap w).globals ≡ true)
          × ((heap w').is_plain t ≡ true)
          × (t ≢ (heap w).globals)
          × ((heap w').get (heap w).globals (string name) ≡ t)
