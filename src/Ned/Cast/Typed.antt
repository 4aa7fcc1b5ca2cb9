-- ===== src/Ned/Cast/Typed.antt =====
-- dom0/dom0-ned/server/src/lua_cap.cc: the capability of a type that push_new_cap makes.
use l4re_tmp_fs.Base.{
  ℕ, suc, ◌≡◌, refl, sym, ap, ◌∙◌, Bool, Bool-cases, inl, inr, true, false, List, [], ◌∷◌, none,
  some, pos, arith, length, not, ◌||◌,
}
use l4re_tmp_fs.Ned.Cap.{bits, CapFpage, Cap, new_cap}
use l4re_tmp_fs.Ned.LuaState.{Lua, Moves, Keeps, Documented, at}
use l4re_tmp_fs.Ned.Cast.{set_class, push_typed, push_found, push_new_cap}
use l4re_tmp_fs.Ned.Cast.Class.{
  At, HasCasts, casts, removed, get_cap_cast_table_lem, class_lem, at-append,
}
use l4re_tmp_fs.Ned.Cast.Made.{push_void_cap_lem, set_class_lem}

-- From the first state to the second a new object has come on top of the stack `s`, with this capability
-- in it; every other capability is as it was.
unfoldable pub Adds : {W V : Type 0} → Lua W V → Cap → List V → W → V → W → Type 0
Adds lua c s w u w' =
    (lua.stack w' ≡ u ∷ s)
    × ((lua.heap w).cap_at u ≡ none)
    × ((lua.heap w').cap_at u ≡ some c)
    × ((v : _) (n : Cap) → (lua.heap w).cap_at v ≡ some n → (lua.heap w').cap_at v ≡ some n)

-- The environment of the object names this class.
unfoldable pub HasClass : {W V : Type 0} → Lua W V → V → W → V → Type 0
HasClass lua u w cls = (lua.heap w).get ((lua.heap w).env u) (lua.number (pos 0)) ≡ cls

module _ {W V : Type 0} (k : CapFpage) (invalid : ℕ) (lua : Lua W V) (laws : Documented lua) where
  open lua use {stack, heap, is_nil, number, remove, pushvalue, gettop}

  class_removed :
      (u cls : V) (s : List V) (w w' : W)
      → Adds lua (new_cap k invalid (bits 0)) (cls ∷ s) w u w'
      → let w'' = remove (pos (suc (length s))) w' in
        Adds lua (new_cap k invalid (bits 0)) s w u w'' × (heap w'' ≡ heap w')
  unfolding Adds At
  class_removed u cls s w w' (e, fresh, made, others) =
      let (e', eh) = removed lua laws (heap w') (u ∷ []) cls s w' (e, refl) in
      (
        (
          e',
          fresh,
          ap (λ h. h.cap_at u) eh ∙ made,
          λ v n old. ap (λ h. h.cap_at v) eh ∙ others v n old,
        ),
        eh,
      )

  class_set :
      (u cls : V) (s : List V) (w w' : W)
      → Adds lua (new_cap k invalid (bits 0)) (cls ∷ s) w u w'
      → let w'' = set_class lua (suc (length s)) w' in
        Adds lua (new_cap k invalid (bits 0)) (cls ∷ s) w u w'' × HasClass lua u w'' cls
  unfolding Adds HasClass Keeps
  class_set u cls s w w' (e, fresh, made, others) =
      let (kept, got) = set_class_lem lua laws u cls s w' e in
      (
        (
          kept.0,
          fresh,
          ap (λ q. q u) kept.2 ∙ made,
          λ v n old. ap (λ q. q v) kept.2 ∙ others v n old,
        ),
        got,
      )

  push_typed_lem :
      (cls : V) (s : List V) (found : Bool) (w : W)
      → stack w ≡ cls ∷ s
      → (u : V) × (w' : W) × (push_typed k invalid lua (suc (length s)) found w ≡ some (some u, w'))
        × Adds lua (new_cap k invalid (bits 0)) s w u w'
        × (found ≡ true → HasClass lua u w' cls)
  unfolding push_typed Adds HasClass
  push_typed_lem cls s found w e =
      let (u, w1, e1, top, fresh, made, others) = push_void_cap_lem lua laws k invalid w in
      let adds : Adds lua (new_cap k invalid (bits 0)) (cls ∷ s) w u w1 =
        (top ∙ ap (◌∷◌ u) e, fresh, made, others) in
      elim (Bool-cases found) [
        | inl typed ↦
            let (adds2, cl) = class_set u cls s w w1 adds in
            let (adds3, eh) = class_removed u cls s w (set_class lua (suc (length s)) w1) adds2 in
            (
              u,
              _,
              rw (e1, typed) refl,
              adds3,
              λ h. ap (λ g. g.get (g.env u) (number (pos 0))) eh ∙ cl,
            )
        | inr untyped ↦
            let (adds3, eh) = class_removed u cls s w w1 adds in
            (u, _, rw (e1, untyped) refl, adds3, λ h. absurd (ground arith))
      ]

  push_found_lem :
      (cls : V) (s : List V) (void_cap : Bool) (w : W)
      → stack w ≡ cls ∷ s
      → (not (is_nil cls) || void_cap) ≡ true
      → (u : V) × (w' : W) × (push_found k invalid lua (suc (length s)) void_cap w
          ≡ some (some u, w'))
        × Adds lua (new_cap k invalid (bits 0)) s w u w'
        × (is_nil cls ≡ false → HasClass lua u w' cls)
  unfolding push_found
  push_found_lem cls s void_cap w e h =
      let i = pos (suc (length s)) in
      let nil = laws.isnil_law w i cls (ap (at i) e ∙ at-append cls s []) in
      let (u, w', e1, adds, cl) = push_typed_lem cls s (not (is_nil cls)) w e in
      (u, w', rw (nil, h) e1, adds, λ n. cl (ap not n))

  -- The type on top of the stack is replaced by a new capability, which has the type's class if there is
  -- one. A capability without a class is only made if void capabilities are asked for.
  pub push_new_cap_lem :
      (key : V) (s : List V) (void_cap : Bool) (w : W)
      → stack w ≡ key ∷ s
      → HasCasts lua (heap w)
      → let cls = (heap w).get (casts lua (heap w)) key in
        ((not (is_nil cls) || void_cap) ≡ true
          → (u : V) × (w' : W) × (push_new_cap k invalid lua void_cap w ≡ some (some u, w'))
            × Adds lua (new_cap k invalid (bits 0)) s w u w'
            × (is_nil cls ≡ false → HasClass lua u w' cls))
        × ((not (is_nil cls) || void_cap) ≡ false
            → (w' : W) × (push_new_cap k invalid lua void_cap w ≡ some (none, w'))
              × Moves lua s w w')
  unfolding push_new_cap push_found At Adds Moves
  push_new_cap_lem key s void_cap w e has =
      let (w1, e1, a1) = get_cap_cast_table_lem lua laws (heap w) (key ∷ s) w (e, refl) has in
      let (w2, e2, a2) = class_lem lua laws (heap w) key s w w1 a1 has in
      let cls = (heap w).get (casts lua (heap w)) key in
      let i = pos (suc (length s)) in
      let top = laws.gettop_law w ∙ ap (λ z. length z) e in
      (
        λ yes.
            let (u, w', e3, adds, cl) = push_found_lem cls s void_cap (remove i w2) a2.0 yes in
            (
              u,
              w',
              rw (top, e1, e2) e3,
              (
                adds.0,
                ap (λ g. g.cap_at u) (sym a2.1) ∙ adds.1,
                adds.2,
                λ v n old. adds.3 v n (ap (λ g. g.cap_at v) a2.1 ∙ old),
              ),
              cl,
            ),
        λ no.
            let nil = laws.isnil_law (remove i w2) i cls (ap (at i) a2.0 ∙ at-append cls s []) in
            let (e4, h4) = removed lua laws (heap w) [] cls s (remove i w2) a2 in
            (remove i (remove i w2), rw (top, e1, e2, nil, no) refl, (e4, h4)),
      )
