-- ===== src/Ned/Cast/Made.antt =====
-- dom0/dom0-ned/server/src/lua_cap.cc: the objects that push_void_cap makes.
use Prim.Native.String.{String}
use l4re_tmp_fs.Base.{
  ℕ, suc, ◌+◌, ◌≡◌, refl, sym, ap, ap₂, ◌∙◌, Bool-cases, inl, inr, true, List, [], ◌∷◌, none, some,
  pos, negsuc, arith, length,
}
use l4re_tmp_fs.Ned.Cap.{bits, CapFpage, Cap, new_cap}
use l4re_tmp_fs.Ned.LuaState.{Lua, Moves, Keeps, Documented, at}
use l4re_tmp_fs.Ned.Cast.{
  register_method, init_cap_metatable, push_cap_metatable, set_cap_metatable, push_void_cap,
  cap_type, set_class,
}
use l4re_tmp_fs.Ned.Cast.Class.{at-append}

module _ {W V : Type 0} (lua : Lua W V) (laws : Documented lua) where
  open lua use {
    stack, heap, pushcfunction, newmetatable, newtable, newuserdata, write_cap, setmetatable,
    setfenv, getfenv, pushvalue, rawseti, pop, number,
  }

  pub Keeps-trans :
      (s s' : List V) (a b c : W) → Keeps lua s a b → Keeps lua s' b c → Keeps lua s' a c
  unfolding Keeps
  Keeps-trans s s' a b c (e, f, g) (e', f', g') = (e', f' ∙ f, g' ∙ g)

  pub Moves-Keeps : (s : List V) (a b : W) → Moves lua s a b → Keeps lua s a b
  unfolding Keeps Moves
  Moves-Keeps s a b (e, f) = (e, ap (λ h. h.env) f, ap (λ h. h.cap_at) f)

  register_method_lem :
      (name f : String) (t : V) (s : List V) (w : W)
      → stack w ≡ t ∷ s
      → (heap w).is_plain t ≡ true
      → (w' : W) × (register_method lua name f w ≡ some w')
        × Keeps lua (t ∷ s) w w'
        × ((heap w').is_plain t ≡ true)
  unfolding register_method Moves
  register_method_lem name f t s w e plain =
      let m = laws.pushcfunction_law w f in
      let (w', e', k, p) =
        laws.setfield_law (pushcfunction f w) name (lua.function f) t s
          (m.0 ∙ ap (◌∷◌ (lua.function f)) e) (ap (λ h. h.is_plain t) m.1 ∙ plain) in
      (
        w',
        e',
        Keeps-trans (lua.function f ∷ stack w) (t ∷ s) w (pushcfunction f w) w'
            (Moves-Keeps _ _ _ m) k,
        ap (λ q. q t) p ∙ ap (λ h. h.is_plain t) m.1 ∙ plain,
      )

  init_cap_metatable_lem :
      (t : V) (s : List V) (w : W)
      → stack w ≡ t ∷ s
      → (heap w).is_plain t ≡ true
      → (w' : W) × (init_cap_metatable lua w ≡ some w') × Keeps lua (t ∷ s) w w'
  unfolding init_cap_metatable Keeps
  init_cap_metatable_lem t s w e plain =
      let (w1, e1, k1, p1) = register_method_lem "__gc" "gc_cap" t s w e plain in
      let (w2, e2, k2, p2) = register_method_lem "__tostring" "tostring" t s w1 (k1.0) p1 in
      let (w3, e3, k3, p3) = register_method_lem "__index" "__index" t s w2 (k2.0) p2 in
      (
        w3,
        rw (e1, e2) e3,
        Keeps-trans (t ∷ s) (t ∷ s) w w2 w3 (Keeps-trans (t ∷ s) (t ∷ s) w w1 w2 k1 k2) k3,
      )

  push_cap_metatable_lem :
      (w : W)
      → (t : V) × (w' : W) × (push_cap_metatable lua w ≡ some w') × Keeps lua (t ∷ stack w) w w'
  unfolding push_cap_metatable Keeps
  push_cap_metatable_lem w =
      let (t, k, fresh) = laws.newmetatable_law w cap_type in
      elim (Bool-cases ((newmetatable cap_type w).0)) [
        | inl e ↦
            let (w', e', k') =
              init_cap_metatable_lem t (stack w) ((newmetatable cap_type w).1) (k.0) (fresh e) in
            (
              t,
              w',
              rw e e',
              Keeps-trans (t ∷ stack w) (t ∷ stack w) w ((newmetatable cap_type w).1) w' k k',
            )
        | inr e ↦ (t, (newmetatable cap_type w).1, rw e refl, k)
      ]

  -- An object on top of the stack gets the metatable of the capabilities.
  set_cap_metatable_lem :
      (u : V) (s : List V) (w : W)
      → stack w ≡ u ∷ s
      → (w' : W) × (set_cap_metatable lua w ≡ some w') × Keeps lua (u ∷ s) w w'
  unfolding set_cap_metatable Keeps
  set_cap_metatable_lem u s w e =
      let (t, w1, e1, k1) = push_cap_metatable_lem w in
      let k2 = laws.setmetatable_law w1 t u s (k1.0 ∙ ap (◌∷◌ t) e) in
      (setmetatable (negsuc 1) w1, rw e1 refl, Keeps-trans (t ∷ stack w) (u ∷ s) w w1 _ k1 k2)

  -- The class on the stack goes into the environment of the object above it.
  pub set_class_lem :
      (u cls : V) (s : List V) (w : W)
      → stack w ≡ u ∷ cls ∷ s
      → let w' = set_class lua (suc (length s)) w in
        Keeps lua (u ∷ cls ∷ s) w w' × ((heap w').get ((heap w').env u) (number (pos 0)) ≡ cls)
  unfolding set_class Keeps Moves
  set_class_lem u cls s w e =
      let i : pos (suc (length s) + 1) ≡ pos (suc (suc (length s))) = ap pos (omega arith) in
      let m1 =
        laws.getfenv_law w (pos (suc (length s) + 1)) u (ap₂ at i e ∙ at-append u (cls ∷ s) []) in
      let w1 = getfenv (pos (suc (length s) + 1)) w in
      let t = (heap w).env u in
      let e1 = m1.0 ∙ ap (◌∷◌ t) e in
      let m2 =
        laws.pushvalue_law w1 (pos (suc (length s))) cls
          (ap (at (pos (suc (length s)))) e1 ∙ at-append cls s (t ∷ u ∷ [])) in
      let w2 = pushvalue (pos (suc (length s))) w1 in
      let (k3, got) = laws.rawseti_law w2 0 cls t (u ∷ cls ∷ s) (m2.0 ∙ ap (◌∷◌ cls) e1) in
      let w3 = rawseti (negsuc 1) 0 w2 in
      let m4 = laws.pop_law w3 t (u ∷ cls ∷ s) k3.0 in
      let k =
        Keeps-trans _ (u ∷ cls ∷ s) w w3 _
          (Keeps-trans _ (t ∷ u ∷ cls ∷ s) w w2 w3
            (Keeps-trans _ _ w w1 w2 (Moves-Keeps _ w w1 m1) (Moves-Keeps _ w1 w2 m2)) k3)
          (Moves-Keeps _ w3 _ m4) in
      (k, ap₂ (λ h t'. h.get t' (number (pos 0))) m4.1 (ap (λ q. q u) k.1) ∙ got)

  -- push_void_cap puts a new object on the stack, with a new capability in it. Every other capability stays
  -- as it was.
  pub push_void_cap_lem :
      (k : CapFpage) (invalid : ℕ) (w : W)
      → (u : V) × (w' : W) × (push_void_cap k invalid lua w ≡ some (u, w'))
        × (stack w' ≡ u ∷ stack w)
        × ((heap w).cap_at u ≡ none)
        × ((heap w').cap_at u ≡ some (new_cap k invalid (bits 0)))
        × ((v : V) (n : Cap) → (heap w).cap_at v ≡ some n → (heap w').cap_at v ≡ some n)
  unfolding push_void_cap Keeps
  push_void_cap_lem k invalid w =
      let (k1, fresh) = laws.newuserdata_law w in
      let u = (newuserdata w).0 in
      let w1 = (newuserdata w).1 in
      let c = new_cap k invalid (bits 0) in
      let w2 = write_cap u c w1 in
      let (e2, g2, v2, c2, others) = laws.write_cap_law w1 u c in
      let (w3, e3, k3) = set_cap_metatable_lem u (stack w) w2 (e2 ∙ k1.0) in
      let (t, k4) = laws.newtable_law w3 in
      let w4 = newtable w3 in
      let (e5, v5, c5) = laws.setfenv_law w4 t u (stack w) (k4.0 ∙ ap (◌∷◌ t) k3.0) in
      let same = λ (v : V). ap (λ q. q v) (c5 ∙ k4.2 ∙ k3.2) in
      (
        u,
        setfenv (negsuc 1) w4,
        rw e3 refl,
        e5,
        fresh,
        same u ∙ c2,
        λ v n e.
            same v
            ∙ others v (λ eq.
              let bad : some n ≡ none = sym e ∙ ap (heap w).cap_at eq ∙ fresh in ground arith)
            ∙ ap (λ q. q v) k1.2
            ∙ e,
      )
