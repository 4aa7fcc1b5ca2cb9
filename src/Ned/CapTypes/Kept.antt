-- ===== src/Ned/CapTypes/Kept.antt =====
-- dom0/dom0-ned/server/src/lua_cap.h: what stays as it is while register_cap_type fills the table of the classes.
use Prim.Native.String.{String}
use l4re_tmp_fs.Base.{◌≡◌, ◌≢◌, sym, ap, ◌∙◌, true, false, ℤ, is_zero, arith}
use l4re_tmp_fs.Ned.LuaState.{Heap, Lua}
use l4re_tmp_fs.Ned.LuaState.Tables.{Changes, Writes, Grows, Tables}
use l4re_tmp_fs.Ned.Cast.{l4_package, cast_table}
use l4re_tmp_fs.Ned.Cast.Class.{HasCasts, casts}

module _ {V : Type 0} where
  pub Changes-trans : (t : V) (a b c : Heap V) → Changes t a b → Changes t b c → Changes t a c
  unfolding Changes
  Changes-trans t a b c (g, p, o) (g', p', o') = (g' ∙ g, p' ∙ p, λ v k n. o' v k n ∙ o v k n)

  other_kept : (h h' : Heap V) (t v k : V) → Changes t h h' → v ≢ t → h'.get v k ≡ h.get v k
  unfolding Changes
  other_kept h h' t v k c n = c.2 v k n

  pub plain_still :
      (h h' : Heap V) (t : V) → Changes t h h' → h.is_plain t ≡ true → h'.is_plain t ≡ true
  unfolding Changes
  plain_still h h' t c p = ap (λ q. q t) c.1 ∙ p

  -- A table that has just been made may be filled.
  pub Grows-Changes : (t : V) (a b c : Heap V) → Grows t a b → Changes t b c → Grows t a c
  unfolding Changes Grows
  Grows-Changes t a b c (g, fresh, plain, old, same) (g', p', o') = (
    g' ∙ g,
    fresh,
    ap (λ q. q t) p' ∙ plain,
    λ v h. ap (λ q. q v) p' ∙ old v h,
    λ v k h.
        o' v k (λ e. let bad : true ≡ false = sym h ∙ ap a.is_plain e ∙ fresh in ground arith)
        ∙ same v k h,
  )

-- The table of the classes is not one of those on the way to it.
unfoldable pub IsApart : {W V : Type 0} → Lua W V → Heap V → Type 0
IsApart lua h = (h.globals ≢ casts lua h) × (h.get h.globals (lua.string l4_package) ≢ casts lua h)

-- The class is in the table under its name, and under the number of its protocol if it has one; what was
-- in the table under other keys is as it was, and the table is where it was, so that another type may be
-- registered.
unfoldable pub Registers : {W V : Type 0} → Lua W V → String → ℤ → V → Heap V → Heap V → Type 0
Registers lua name proto cls h h' =
    (casts lua h' ≡ casts lua h)
    × HasCasts lua h'
    × IsApart lua h'
    × (h'.get (casts lua h) (lua.string name) ≡ cls)
    × (is_zero proto ≡ false → h'.get (casts lua h) (lua.number proto) ≡ cls)
    × (h'.get cls (lua.string "_CLASS_NAME") ≡ lua.string name)
    × ((k : _)
        → k ≢ lua.string name
        → k ≢ lua.number proto
        → h'.get (casts lua h) k ≡ h.get (casts lua h) k)

module _ {W V : Type 0} (lua : Lua W V) where
  -- The way to the table of the classes is the same where only this table and new ones differ.
  pub casts_kept :
      (h h1 h' : Heap V) (cls : V)
      → HasCasts lua h
      → IsApart lua h
      → Grows cls h h1
      → Changes (casts lua h) h1 h'
      → (casts lua h' ≡ casts lua h) × HasCasts lua h' × IsApart lua h'
  unfolding HasCasts IsApart Grows Changes casts
  casts_kept h h1 h' cls (p0, p1, p2) (a0, a1) (g, fresh, plain, old, same) (g', p', o') =
      let l4 = lua.string l4_package in
      let table = lua.string cast_table in
      let glob = g' ∙ g in
      let way : h'.get h'.globals l4 ≡ h.get h.globals l4 =
        ap (λ t. h'.get t l4) glob ∙ o' h.globals l4 a0 ∙ same h.globals l4 p0 in
      let there =
        ap (λ t. h'.get t table) way
        ∙ o' (h.get h.globals l4) table a1
        ∙ same (h.get h.globals l4) table p1 in
      let still = λ (v : V) (p : h.is_plain v ≡ true). ap (λ q. q v) p' ∙ old v p in
      (
        there,
        (
          ap h'.is_plain glob ∙ still h.globals p0,
          ap h'.is_plain way ∙ still (h.get h.globals l4) p1,
          ap h'.is_plain there ∙ still (h.get (h.get h.globals l4) table) p2,
        ),
        (λ e. a0 (sym glob ∙ e ∙ there), λ e. a1 (sym way ∙ e ∙ there)),
      )

  pub plain_kept :
      (h h' : Heap V) (cls : V)
      → HasCasts lua h
      → Grows cls h h'
      → (h'.is_plain (casts lua h) ≡ true) × (h.is_plain cls ≡ false)
  unfolding HasCasts Grows
  plain_kept h h' cls has g = (g.3 (casts lua h) has.2, g.1)

  new_apart : (h : Heap V) (cls : V) → HasCasts lua h → h.is_plain cls ≡ false → cls ≢ casts lua h
  unfolding HasCasts
  new_apart h cls has fresh e =
      let bad : true ≡ false = sym has.2 ∙ ap h.is_plain (sym e) ∙ fresh in ground arith

  old_kept :
      (h h' : Heap V) (cls k : V)
      → HasCasts lua h
      → Grows cls h h'
      → h'.get (casts lua h) k ≡ h.get (casts lua h) k
  unfolding HasCasts Grows
  old_kept h h' cls k has g = g.4 (casts lua h) k has.2

  -- A new class, the number of its protocol and its name, in the table of the classes.
  pub registers :
      (tables : Tables lua) (name : String) (proto : ℤ) (cls : V) (h h1 h2 h3 : Heap V)
      → HasCasts lua h
      → IsApart lua h
      → Grows cls h h1
      → Changes (casts lua h) h1 h2
      → h1.get cls (lua.string "_CLASS_NAME") ≡ lua.string name
      → (is_zero proto ≡ false → h2.get (casts lua h) (lua.number proto) ≡ cls)
      → ((k : V) → k ≢ lua.number proto → h2.get (casts lua h) k ≡ h1.get (casts lua h) k)
      → Writes (casts lua h) (lua.string name) cls h2 h3
      → Registers lua name proto cls h h3
  unfolding Registers Writes
  registers tables name proto cls h h1 h2 h3 has apart g c2 named by_proto others
        (c3, by_name, rest) =
      let c = casts lua h in
      let both = Changes-trans c h1 h2 h3 c2 c3 in
      let (there, has', apart') = casts_kept h h1 h3 cls has apart g both in
      let fresh = plain_kept h h1 cls has g in
      (
        there,
        has',
        apart',
        by_name,
        λ nz. rest (lua.number proto) (λ e. tables.string-number name proto (sym e)) ∙ by_proto nz,
        other_kept h1 h3 c cls (lua.string "_CLASS_NAME") both (new_apart h cls has fresh.1)
            ∙ named,
        λ k n n'. rest k n ∙ others k n' ∙ old_kept h h1 cls k has g,
      )
