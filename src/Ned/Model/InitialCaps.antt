-- ===== src/Ned/Model/InitialCaps.antt =====
-- dom0/dom0-ned/server/src/lua_exec.cc: the capabilities that a program starts with, which are written to its
-- environment by one loop, and mapped to it by another.
use mathlib.Core.Option.{some-injective}
use l4re_tmp_fs.Base.{
  sym, ℕ, ◌+◌, ◌*◌, ◌≡◌, refl, ap, ◌∙◌, Bool, Bool-cases, true, false, List, [], ◌∷◌, some, ℤ,
  is_neg, length, inl, inr, arith,
}
use l4re_tmp_fs.Libfs.Svr.{Method}
use l4re_tmp_fs.Ned.Cap.{Cap, ext_rights}
use l4re_tmp_fs.Ned.Model.{
  Value, cap, nil, other, number, string, function, foreign, resolve, Entry, push_initial_caps,
  Mapping, map_initial_caps, fpage,
}

-- The capabilities of a table with their names, and the index that each has.
unfoldable pub numbered : ℕ → List (List ℕ × Value) → ℕ → List (List ℕ × Cap × ℕ)
numbered offset [] start = []
numbered offset ((name, v) ∷ tab) start = elim (resolve v) [
  | cap c ↦ (name, c, start) ∷ numbered offset tab (start + offset)
  | _ ↦ numbered offset tab start
]

unfoldable pub push_entries : List (List ℕ × Cap × ℕ) → List Entry → List Entry
push_entries [] stack = stack
push_entries ((name, c, i) ∷ xs) stack = push_entries xs (record { name = name; index = i } ∷ stack)

-- One mapping after the other, up to an error.
unfoldable pub map_all :
    {W : Type 0} → (Mapping → Method W ℤ) → List (List ℕ × Cap × ℕ) → W → Bool × W
map_all task_map [] w = (true, w)
map_all task_map ((name, c, i) ∷ xs) w =
    let (r, w') = task_map (record { source = fpage c; destination = i; ext = ext_rights c }) w in
    elim (is_neg r) [ true ↦ (false, w') | false ↦ map_all task_map xs w' ]

module _ {W : Type 0} (task_map : Mapping → Method W ℤ) (valid : List ℕ → Bool) (offset : ℕ) where
  -- What the two loops do on a table.
  abbrev Claim : List (List ℕ × Value) → ℕ → List Entry → ℕ × List Entry → Type 0
  Claim tab start stack after =
      let xs = numbered offset tab start in
      (after.1 ≡ push_entries xs stack)
      × (after.0 ≡ start + length xs * offset)
      × ((w : W) → map_initial_caps task_map offset tab start w ≡ map_all task_map xs w)

  -- The claim for a table whose first value has been resolved to `u`.
  step :
      (name : List ℕ) (v u : Value) (tab : List (List ℕ × Value)) (start : ℕ) (stack : List Entry)
      (after : ℕ × List Entry)
      → resolve v ≡ u
      → valid name ≡ true
      → ((start : ℕ) (stack : List Entry)
          → push_initial_caps valid offset tab start stack ≡ some after
          → Claim tab start stack after)
      → push_initial_caps valid offset ((name, v) ∷ tab) start stack ≡ some after
      → Claim ((name, v) ∷ tab) start stack after
  unfolding push_initial_caps numbered map_initial_caps push_entries map_all
  step name v nil tab start stack after e ok ih h =
      rw (numbered, map_initial_caps, e) (ih start stack (rw (ok, e) at h))
  step name v foreign tab start stack after e ok ih h = ground arith
  step name v other tab start stack after e ok ih h =
      rw (numbered, map_initial_caps, e) (ih start stack (rw (ok, e) at h))
  step name v (cap c) tab start stack after e ok ih h =
      let m : Mapping = record { source = fpage c; destination = start; ext = ext_rights c } in
      let r =
        ih (start + offset) (record { name = name; index = start } ∷ stack) (rw (ok, e) at h) in
      rw (numbered, map_initial_caps, e)
        (
          r.0,
          r.1 ∙ omega arith,
          λ w. elim (Bool-cases (is_neg (task_map m w).0)) [
            | inl n ↦ rw (map_all, n) refl
            | inr n ↦ rw (map_all, n) (r.2 (task_map m w).1)
          ],
        )
  step name v (number z t) tab start stack after e ok ih h =
      rw (numbered, map_initial_caps, e) (ih start stack (rw (ok, e) at h))
  step name v (string t) tab start stack after e ok ih h =
      rw (numbered, map_initial_caps, e) (ih start stack (rw (ok, e) at h))
  step name v (function g) tab start stack after e ok ih h =
      rw (numbered, map_initial_caps, e) (ih start stack (rw (ok, e) at h))

  -- If the entries could be pushed, then they are those of the capabilities of the table, whose indices
  -- follow each other from `start` on; and the second loop maps each of them, with its rights, to the index
  -- in its entry, until the kernel refuses one.
  pub initial_caps_lem :
      (tab : List (List ℕ × Value)) (start : ℕ) (stack : List Entry) (after : ℕ × List Entry)
      → push_initial_caps valid offset tab start stack ≡ some after
      → let xs = numbered offset tab start in
        (after.1 ≡ push_entries xs stack)
        × (after.0 ≡ start + length xs * offset)
        × ((w : W) → map_initial_caps task_map offset tab start w ≡ map_all task_map xs w)
  unfolding push_initial_caps numbered map_initial_caps push_entries map_all
  initial_caps_lem [] start stack after h =
      let e = some-injective (start, stack) after h in
      (ap (λ p. p.1) (sym e), ap (λ p. p.0) (sym e) ∙ omega arith, λ w. refl)
  initial_caps_lem ((name, v) ∷ tab) start stack after h = elim (Bool-cases (valid name)) [
    | inl ok ↦
        step name v (resolve v) tab start stack after refl ok
          (λ a b. initial_caps_lem tab a b after) h
    | inr bad ↦ ground arith
  ]
