-- ===== src/Ned/CapTypes/Registered.antt =====
-- dom0/dom0-ned/server/src/lua_cap.cc: the class that create_class makes.
use Prim.Native.String.{String}
use l4re_tmp_fs.Base.{◌≡◌, sym, subst, ap, ◌∙◌, [], ◌∷◌, Option, some}
use l4re_tmp_fs.Ned.LuaState.{Lua, Moves, Documented}
use l4re_tmp_fs.Ned.LuaState.Tables.{Writes, Grows, Fills, Tables}
use l4re_tmp_fs.Ned.Cast.{create_class}
use l4re_tmp_fs.Ned.CapTypes.{register_methods}
use l4re_tmp_fs.Ned.CapTypes.Kept.{Grows-Changes}

module _ {W V : Type 0} (lua : Lua W V) (laws : Documented lua) (tables : Tables lua) where
  open lua use {stack, heap, string, number}

  -- create_class puts a new table on the stack, with the name of the class in it; no other table changes.
  pub create_class_lem :
      (rm : W → Option W) (name : String) (w : W)
      → Fills lua rm
      → (cls : V) × (w' : W) × (create_class lua rm name w ≡ some w')
        × (stack w' ≡ cls ∷ stack w)
        × Grows cls (heap w) (heap w')
        × ((heap w').get cls (string "_CLASS_NAME") ≡ string name)
  unfolding create_class Fills Moves Writes Grows
  create_class_lem rm name w fills =
      let (t, e1, g1) = tables.new_table w in
      let w1 = lua.newtable w in
      let (w2, f2, e2, c2) = fills w1 t (stack w) e1 (g1.2) in
      let g2 = Grows-Changes t (heap w) (heap w1) (heap w2) g1 c2 in
      let m3 = tables.push_string w2 name in
      let w3 = lua.pushstring name w2 in
      let g3 : Grows t (heap w) (heap w3) = subst (Grows t (heap w)) (sym m3.1) g2 in
      let (w4, f4, e4, wr) =
        tables.set_field w3 "_CLASS_NAME" (string name) t (stack w)
          (m3.0 ∙ ap (◌∷◌ (string name)) e2) (g3.2) in
      (t, w4, rw f2 f4, e4, Grows-Changes t (heap w) (heap w3) (heap w4) g3 wr.0, wr.1)

  -- The methods of all capabilities fill the table on top of the stack.
  pub register_methods-Fills : Fills lua (register_methods lua)
  unfolding Fills register_methods
  register_methods-Fills w t s e p =
      tables.register_fills ("is_valid" ∷ "svr" ∷ "rights" ∷ "mode" ∷ "m" ∷ []) w t s e p
