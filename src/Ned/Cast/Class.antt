-- ===== src/Ned/Cast/Class.antt =====
-- dom0/dom0-ned/server/src/lua_cap.cc: what push_new_cap makes of the type on top of the stack.
use Prim.Native.String.{String}
use l4re_tmp_fs.Base.{
  ap₂, suc, ◌-◌, ◌≡◌, refl, ap, ◌∙◌, true, List, [], ◌∷◌, ◌++◌, some, pos, negsuc, arith, leb,
  length, length-append,
}
use l4re_tmp_fs.Ned.LuaState.{nth, delete, depth, at, Heap, Lua, Moves, Documented}
use l4re_tmp_fs.Ned.Cast.{l4_package, cast_table, get_cap_cast_table, get_method_table}

module _ {V : Type 0} (k : V) (s : List V) where
  nth-append : (xs : List V) → nth (length xs) (xs ++ k ∷ s) ≡ some k
  unfolding nth
  nth-append [] = refl
  nth-append (x ∷ xs) = nth-append xs

  delete-append : (xs : List V) → delete (length xs) (xs ++ k ∷ s) ≡ xs ++ s
  unfolding delete
  delete-append [] = refl
  delete-append (x ∷ xs) = ap (◌∷◌ x) (delete-append xs)

  depth-append : (xs : List V) → depth (pos (suc (length s))) (xs ++ k ∷ s) ≡ length xs
  unfolding depth
  depth-append xs = let len = length-append xs (k ∷ s) in omega (arith, len)

  pub at-append : (xs : List V) → at (pos (suc (length s))) (xs ++ k ∷ s) ≡ some k
  unfolding at
  at-append xs =
      let len = length-append xs (k ∷ s) in
      let le : leb (suc (length s)) (length (xs ++ k ∷ s)) ≡ true = ground (arith, len) in
      let d : length (xs ++ k ∷ s) - suc (length s) ≡ length xs = omega (arith, len) in
      let le1 : leb 1 (suc (length s)) ≡ true = ground arith in rw (le1, le, d) (nth-append xs)

-- The table of the classes.
unfoldable pub casts : {W V : Type 0} → Lua W V → Heap V → V
casts lua h = h.get (h.get h.globals (lua.string l4_package)) (lua.string cast_table)

-- The table is there, and none of the tables on the way to it has a metatable.
unfoldable pub HasCasts : {W V : Type 0} → Lua W V → Heap V → Type 0
HasCasts lua h =
    (h.is_plain h.globals ≡ true)
    × (h.is_plain (h.get h.globals (lua.string l4_package)) ≡ true)
    × (h.is_plain (casts lua h) ≡ true)

-- The stack, and what LUA remembers beside it.
unfoldable pub At : {W V : Type 0} → Lua W V → Heap V → List V → W → Type 0
At lua h s w = (lua.stack w ≡ s) × (lua.heap w ≡ h)

module _ {W V : Type 0} (lua : Lua W V) (laws : Documented lua) (h : Heap V) where
  open lua use {stack, heap, getglobal, getfield, gettable, remove, pushvalue, string}

  pub pushed :
      (xs : List V) (k : V) (s : List V) (w : W)
      → At lua h (xs ++ k ∷ s) w
      → At lua h (k ∷ xs ++ k ∷ s) (pushvalue (pos (suc (length s))) w)
  unfolding At Moves
  pushed xs k s w (es, eh) =
      let i = pos (suc (length s)) in
      let (e, e') = laws.pushvalue_law w i k (ap (at i) es ∙ at-append k s xs) in
      (e ∙ ap (◌∷◌ k) es, e' ∙ eh)

  pub removed :
      (xs : List V) (k : V) (s : List V) (w : W)
      → At lua h (xs ++ k ∷ s) w
      → At lua h (xs ++ s) (remove (pos (suc (length s))) w)
  unfolding At Moves
  removed xs k s w (es, eh) =
      let i = pos (suc (length s)) in
      let (e, e') = laws.remove_law w i k (ap (at i) es ∙ at-append k s xs) in
      (
        e
            ∙ ap (λ z. delete (depth i z) z) es
            ∙ ap (λ n. delete n (xs ++ k ∷ s)) (depth-append k s xs)
            ∙ delete-append k s xs,
        e' ∙ eh,
      )

  removed_below :
      (a b : V) (s : List V) (w : W)
      → At lua h (a ∷ b ∷ s) w
      → At lua h (a ∷ s) (remove (negsuc 1) w)
  unfolding At Moves delete depth at nth
  removed_below a b s w (es, eh) =
      let (e, e') = laws.remove_law w (negsuc 1) b (ap (at (negsuc 1)) es) in
      (e ∙ ap (λ z. delete (depth (negsuc 1) z) z) es, e' ∙ eh)

  got_field :
      (t : V) (s : List V) (name : String) (w : W)
      → At lua h (t ∷ s) w
      → h.is_plain t ≡ true
      → (w' : W) × (getfield (negsuc 0) name w ≡ some w')
        × At lua h (h.get t (string name) ∷ t ∷ s) w'
  unfolding At Moves at nth
  got_field t s name w (es, eh) plain =
      let (w', e, m) =
        laws.getfield_law w (negsuc 0) t name (ap (at (negsuc 0)) es)
          (ap (λ g. g.is_plain t) eh ∙ plain) in
      (w', e, (m.0 ∙ ap₂ (λ g z. g.get t (string name) ∷ z) eh es, m.1 ∙ eh))

  -- The table of the classes comes on top of the stack.
  pub get_cap_cast_table_lem :
      (s : List V) (w : W)
      → At lua h s w
      → HasCasts lua h
      → (w' : W) × (get_cap_cast_table lua w ≡ some w') × At lua h (casts lua h ∷ s) w'
  unfolding At Moves get_cap_cast_table casts HasCasts
  get_cap_cast_table_lem s w (es, eh) (p0, p1, p2) =
      let (w1, e, m) = laws.getglobal_law w l4_package (ap (λ g. g.is_plain g.globals) eh ∙ p0) in
      let a1 : At lua h (h.get h.globals (string l4_package) ∷ s) w1 =
        (m.0 ∙ ap₂ (λ g z. g.get g.globals (string l4_package) ∷ z) eh es, m.1 ∙ eh) in
      let (w2, f, a2) = got_field (h.get h.globals (string l4_package)) s cast_table w1 a1 p1 in
      (
        remove (negsuc 1) w2,
        rw (e, f) refl,
        removed_below (casts lua h) (h.get h.globals (string l4_package)) s w2 a2,
      )

  -- So does the class of this name.
  pub get_method_table_lem :
      (typ : String) (s : List V) (w : W)
      → At lua h s w
      → HasCasts lua h
      → (w' : W) × (get_method_table lua typ w ≡ some w')
        × At lua h (h.get (casts lua h) (string typ) ∷ s) w'
  unfolding get_method_table HasCasts
  get_method_table_lem typ s w a has =
      let (w1, e, a1) = get_cap_cast_table_lem s w a has in
      let (w2, f, a2) = got_field (casts lua h) s typ w1 a1 has.2 in
      (
        remove (negsuc 1) w2,
        rw (e, f) refl,
        removed_below (h.get (casts lua h) (string typ)) (casts lua h) s w2 a2,
      )

  got_class :
      (t k : V) (s : List V) (w : W)
      → At lua h (k ∷ t ∷ s) w
      → h.is_plain t ≡ true
      → (w' : W) × (gettable (pos (suc (length s))) w ≡ some w') × At lua h (h.get t k ∷ t ∷ s) w'
  unfolding At Moves
  got_class t k s w (es, eh) plain =
      let i = pos (suc (length s)) in
      let (w', e, m) =
        laws.gettable_law w i t k (t ∷ s) es (ap (at i) es ∙ at-append t s (k ∷ []))
          (ap (λ g. g.is_plain t) eh ∙ plain) in
      (w', e, (m.0 ∙ ap (λ g. g.get t k ∷ t ∷ s) eh, m.1 ∙ eh))

  -- The first half of push_new_cap puts the class of the type, or nil, in the type's place.
  pub class_lem :
      (key : V) (s : List V) (w w1 : W)
      → At lua h (casts lua h ∷ key ∷ s) w1
      → HasCasts lua h
      → let i = pos (suc (length s)) in
        (w2 : W) × (gettable i (remove i (pushvalue i w1)) ≡ some w2)
        × At lua h (h.get (casts lua h) key ∷ s) (remove i w2)
  unfolding HasCasts
  class_lem key s w w1 a (p0, p1, p2) =
      let t = casts lua h in
      let i = pos (suc (length s)) in
      let a2 = pushed (t ∷ []) key s w1 a in
      let a3 = removed (key ∷ t ∷ []) key s (pushvalue i w1) a2 in
      let (w2, e, a4) = got_class t key s (remove i (pushvalue i w1)) a3 p2 in
      (w2, e, removed (h.get t key ∷ []) t s w2 a4)
