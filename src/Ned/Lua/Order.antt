-- ===== src/Ned/Lua/Order.antt =====
-- The order of the libraries in dom0/dom0-ned/server/src/lua.cc.
use l4re_tmp_fs.Base.{
  ℕ, ◌+◌, ◌==◌, ◌≤◌, ◌≡◌, refl, inl, inr, ◌&&◌, List, [], ◌∷◌, arith, ltb, Bool-cases, ltb→lt,
  if◌then◌else◌,
}
use l4re_tmp_fs.Ned.Lua.{Lib, insert, insert_all}

-- No library has a priority below `p`.
abbrev pub AllFrom : ℕ → List Lib → Type 0
AllFrom p [] = Unit {0}
AllFrom p (c ∷ cs) = (p ≤ c.0) × AllFrom p cs

abbrev pub IsSorted : List Lib → Type 0
IsSorted [] = Unit {0}
IsSorted (c ∷ cs) = AllFrom c.0 cs × IsSorted cs

-- How often a library stands in a list.
abbrev pub count : Lib → List Lib → ℕ
count l [] = 0
count l (c ∷ cs) = (if (c.0 == l.0) && (c.1 == l.1) then 1 else 0) + count l cs

AllFrom-le : (p q : ℕ) (cs : List Lib) → p ≤ q → AllFrom q cs → AllFrom p cs
AllFrom-le p q [] le _ = tt
AllFrom-le p q (c ∷ cs) le (h, hs) = (omega arith, AllFrom-le p q cs le hs)

insert-AllFrom :
    (p : ℕ) (l : Lib) (cs : List Lib) → p ≤ l.0 → AllFrom p cs → AllFrom p (insert l cs)
unfolding insert
insert-AllFrom p l [] le _ = (le, tt)
insert-AllFrom p l (c ∷ cs) le (h, hs) = elim (Bool-cases (ltb c.0 l.0)) [
  | inl lower ↦ rw (lower, AllFrom) (h, insert-AllFrom p l cs le hs)
  | inr not_lower ↦ rw (not_lower, AllFrom) (le, (h, hs))
]

insert-IsSorted : (l : Lib) (cs : List Lib) → IsSorted cs → IsSorted (insert l cs)
unfolding insert
insert-IsSorted l [] _ = (tt, tt)
insert-IsSorted l (c ∷ cs) (from, sorted) = elim (Bool-cases (ltb c.0 l.0)) [
  | inl lower ↦
      let below : c.0 ≤ l.0 = omega (arith, ltb→lt _ _ lower) in
      rw (lower, IsSorted) (insert-AllFrom c.0 l cs below from, insert-IsSorted l cs sorted)
  | inr not_lower ↦
      let above : l.0 ≤ c.0 = ground arith in
      rw (not_lower, IsSorted) ((above, AllFrom-le l.0 c.0 cs above from), (from, sorted))
]

count-insert : (k l : Lib) (cs : List Lib) → count k (insert l cs) ≡ count k (l ∷ cs)
unfolding insert
count-insert k l [] = refl
count-insert k l (c ∷ cs) = elim (Bool-cases (ltb c.0 l.0)) [
  | inl lower ↦ rw (lower, count) (omega (arith, count-insert k l cs))
  | inr not_lower ↦ rw (not_lower, count) refl
]

-- After the constructors of any libraries have run, in any order, the list has every library as often
-- as it was constructed, and its priorities do not fall: `run_init` runs the lower ones first.
pub insert_all-IsSorted :
    (ls cs : List Lib)
    → IsSorted cs
    → IsSorted (insert_all ls cs)
      × ((k : Lib) → count k (insert_all ls cs) ≡ count k ls + count k cs)
unfolding insert_all
insert_all-IsSorted [] cs sorted = (sorted, λ k. omega arith)
insert_all-IsSorted (l ∷ ls) cs sorted =
    let (sorted', counts) = insert_all-IsSorted ls (insert l cs) (insert-IsSorted l cs sorted) in
    (sorted', λ k. omega (arith, counts k, count-insert k l cs))
