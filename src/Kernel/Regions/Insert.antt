-- ===== src/Kernel/Regions/Insert.antt =====
-- dom0/dom0-l4re_kernel/server/src/main.cc: what `insert_regions` takes over.
use l4re_tmp_fs.Base.{
  ℕ, zero, suc, ◌+◌, ◌-◌, ◌%◌, ◌≤◌, ◌<◌, ◌≡◌, ◌≢◌, refl, ap, ◌∙◌, sym, subst, List, [], ◌∷◌, ◌++◌,
  length, take, drop, take_nil, take-append-drop, length-drop, append-nil, arith, take_nil,
  if◌then◌else◌, leb, Bool-cases, inl, inr,
}
use native.Mathlib.Nat.{mod-eq_of_lt, add-mod_right, le_trans}
use l4re_tmp_fs.Libfs.Svr.{Method}
use l4re_tmp_fs.Kernel.Regions.{Region, done, insert_some, insert_from, insert_regions}

-- The regions that start at an address or behind it.
abbrev pub from : ℕ → List Region → List Region
from a [] = []
from a (r ∷ rs) = let rest = from a rs in if leb a r.start then r ∷ rest else rest

-- Regions in ascending order, that do not overlap, from the address `lo` on.
abbrev pub Ascending : ℕ → ℕ → List Region → Type 0
Ascending limit lo [] = lo < limit
Ascending limit lo (r ∷ rs) = (lo ≤ r.start) × (r.start ≤ r.end) × Ascending limit (r.end + 1) rs

-- The address behind the last region.
abbrev pub behind : ℕ → List Region → ℕ
behind lo [] = lo
behind lo (r ∷ rs) = behind (r.end + 1) rs

-- Asked for an address from `lo` on, the region map answers the first of the regions from there on, and at
-- least one if there is one.
abbrev pub Answers : ℕ → List Region → (ℕ → List Region) → Type 0
Answers lo rs get =
    (a : ℕ) → lo ≤ a → (n : ℕ) × (get a ≡ take n (from a rs)) × (from a rs ≢ [] → 0 < n)

module _ {L : Type 0} where
  abbrev pub attach_all : (ℕ → ℕ → Method L ℕ) → List Region → L → L
  attach_all attach [] l = l
  attach_all attach (r ∷ rs) l = attach_all attach rs (attach r.start (r.end - r.start + 1) l).1

  -- No region of the list is refused.
  abbrev pub Accepts : (ℕ → ℕ → Method L ℕ) → List Region → L → Type 0
  Accepts attach [] l = Unit {0}
  Accepts attach (r ∷ rs) l =
      ((attach r.start (r.end - r.start + 1) l).0 ≢ 0)
      × Accepts attach rs (attach r.start (r.end - r.start + 1) l).1

lo_lt : (limit lo : ℕ) (rs : List Region) → Ascending limit lo rs → lo < limit
lo_lt limit lo [] h = h
lo_lt limit lo (r ∷ rs) h = omega (arith, lo_lt limit (r.end + 1) rs h.2)

sizes : (limit s e : ℕ) → s ≤ e → e + 1 < limit → (e + limit - s + 1) % limit ≡ e - s + 1
sizes limit s e h k =
    subst (λ n. n % limit ≡ e - s + 1) (omega arith)
      (add-mod_right (e - s + 1) limit ∙ mod-eq_of_lt (omega arith))

-- All of an ascending list lies behind what it starts from, and behind nothing more.
from_all : (limit a lo : ℕ) (rs : List Region) → Ascending limit lo rs → a ≤ lo → from a rs ≡ rs
from_all limit a lo [] h k = refl
from_all limit a lo (r ∷ rs) h k = ground (arith, from_all limit a (r.end + 1) rs h.2)

le_behind : (limit lo : ℕ) (xs ys : List Region) → Ascending limit lo (xs ++ ys) → lo ≤ behind lo xs
le_behind limit lo [] ys h = omega arith
le_behind limit lo (r ∷ xs) ys h = omega (arith, le_behind limit (r.end + 1) xs ys h.2)

from_behind :
    (limit lo : ℕ) (xs ys : List Region)
    → Ascending limit lo (xs ++ ys)
    → from (behind lo xs) (xs ++ ys) ≡ ys
from_behind limit lo [] ys h = from_all limit lo lo ys h (omega arith)
from_behind limit lo (r ∷ xs) ys h =
    ground (arith, from_behind limit (r.end + 1) xs ys h.2, le_behind limit (r.end + 1) xs ys h.2)

from-from : (a b : ℕ) (rs : List Region) → a ≤ b → from b (from a rs) ≡ from b rs
from-from a b [] h = refl
from-from a b (r ∷ rs) h = ground (arith, from-from a b rs h)

from-Ascending :
    (limit lo a : ℕ) (rs : List Region)
    → Ascending limit lo rs
    → a < limit
    → Ascending limit a (from a rs)
from-Ascending limit lo a [] h k = k
from-Ascending limit lo a (r ∷ rs) h k = elim (Bool-cases (leb a r.start)) [
  | inl e ↦ rw e (ground arith, h.1, rw (from_all limit a (r.end + 1) rs h.2 (ground arith)) h.2)
  | inr e ↦ rw e (from-Ascending limit (r.end + 1) a rs h.2 k)
]

Ascending-behind :
    (limit lo : ℕ) (xs ys : List Region)
    → Ascending limit lo (xs ++ ys)
    → Ascending limit (behind lo xs) ys
Ascending-behind limit lo [] ys h = h
Ascending-behind limit lo (r ∷ xs) ys h = Ascending-behind limit (r.end + 1) xs ys h.2

behind-append : (lo : ℕ) (xs ys : List Region) → behind (behind lo xs) ys ≡ behind lo (xs ++ ys)
behind-append lo [] ys = refl
behind-append lo (r ∷ xs) ys = behind-append (r.end + 1) xs ys

Answers-behind :
    (limit lo : ℕ) (xs ys : List Region) (get : ℕ → List Region)
    → Ascending limit lo (xs ++ ys)
    → Answers lo (xs ++ ys) get
    → Answers (behind lo xs) ys get
Answers-behind limit lo xs ys get h f a k =
    let same : from a (xs ++ ys) ≡ from a ys =
      sym (from-from (behind lo xs) a (xs ++ ys) k) ∙ ap (from a) (from_behind limit lo xs ys h) in
    subst (λ zs. (n : ℕ) × (get a ≡ take n zs) × (zs ≢ [] → 0 < n)) same
      (f a (le_trans (le_behind limit lo xs ys h) k))

Answers-from :
    (b : ℕ) (rs : List Region) (get : ℕ → List Region)
    → Answers 0 rs get
    → Answers b (from b rs) get
Answers-from b rs get f a k =
    subst (λ zs. (n : ℕ) × (get a ≡ take n zs) × (zs ≢ [] → 0 < n)) (sym (from-from b a rs k))
      (f a (omega arith))

length-from : (b : ℕ) (rs : List Region) → length (from b rs) ≤ length rs
length-from b [] = omega arith
length-from b (r ∷ rs) = ground (arith, length-from b rs)

module _ {L : Type 0} (limit : ℕ) (attach : ℕ → ℕ → Method L ℕ) where
  attach_all-append :
      (xs ys : List Region) (l : L)
      → attach_all attach ys (attach_all attach xs l) ≡ attach_all attach (xs ++ ys) l
  attach_all-append [] ys l = refl
  attach_all-append (r ∷ xs) ys l =
      attach_all-append xs ys (attach r.start (r.end - r.start + 1) l).1

  Accepts-split :
      (xs ys : List Region) (l : L)
      → Accepts attach (xs ++ ys) l
      → Accepts attach xs l × Accepts attach ys (attach_all attach xs l)
  Accepts-split [] ys l h = (tt, h)
  Accepts-split (r ∷ xs) ys l h =
      let (p, q) = Accepts-split xs ys (attach r.start (r.end - r.start + 1) l).1 h.1 in
      ((h.0, p), q)

  insert_some_lem :
      (xs ys : List Region) (lo : ℕ) (l : L)
      → Ascending limit lo (xs ++ ys)
      → Accepts attach xs l
      → insert_some limit attach xs lo l ≡ done (behind lo xs) (attach_all attach xs l)
  unfolding insert_some
  insert_some_lem [] ys lo l h k = refl
  insert_some_lem (r ∷ xs) ys lo l h k =
      let top = lo_lt limit (r.end + 1) (xs ++ ys) h.2 in
      rw (sizes limit r.start r.end h.1 top, mod-eq_of_lt top)
        (ground (
          arith,
          k.0,
          insert_some_lem xs ys (r.end + 1) (attach r.start (r.end - r.start + 1) l).1 h.2 k.1,
        ))

  insert_from_step :
      (rounds lo a : ℕ) (get : ℕ → List Region) (r : Region) (rs : List Region) (l l' : L)
      → get lo ≡ r ∷ rs
      → insert_some limit attach (r ∷ rs) lo l ≡ done a l'
      → insert_from limit (suc rounds) get attach lo l ≡ insert_from limit rounds get attach a l'
  unfolding insert_from
  insert_from_step rounds lo a get r rs l l' e k = rw (insert_from, e) (rw (k) refl)

  pub insert_from_lem :
      (rounds lo : ℕ) (get : ℕ → List Region) (rs : List Region) (l : L)
      → Ascending limit lo rs
      → Answers lo rs get
      → Accepts attach rs l
      → length rs < rounds
      → insert_from limit rounds get attach lo l ≡ done (behind lo rs) (attach_all attach rs l)
  unfolding insert_from
  insert_from_lem zero lo get rs l h f k n = absurd (omega arith)
  insert_from_lem (suc rounds) lo get [] l h f k n =
      let (m, e, _) = f lo (omega arith) in rw (insert_from, e ∙ take_nil m) refl
  insert_from_lem (suc rounds) lo get (r ∷ rs) l h f k n = some_answer (f lo (omega arith)) (λ m.
      let whole : (r ∷ take m rs) ++ drop m rs ≡ r ∷ rs = ap (◌∷◌ r) (take-append-drop m rs) in
      let h' = subst (Ascending limit lo) (sym whole) h in
      let f' = subst (λ zs. Answers lo zs get) (sym whole) f in
      let k' = subst (λ zs. Accepts attach zs l) (sym whole) k in
      insert_from_lem rounds (behind lo (r ∷ take m rs)) get (drop m rs)
        (attach_all attach (r ∷ take m rs) l)
        (Ascending-behind limit lo (r ∷ take m rs) (drop m rs) h')
        (Answers-behind limit lo (r ∷ take m rs) (drop m rs) get h' f')
        (Accepts-split (r ∷ take m rs) (drop m rs) l k').1 (omega (arith, length-drop m rs)))
    where
      some_answer :
          (m : ℕ) × (get lo ≡ take m (from lo (r ∷ rs))) × (from lo (r ∷ rs) ≢ [] → 0 < m)
          → ((m : ℕ)
              → insert_from limit rounds get attach
                  (behind lo (r ∷ take m rs))
                  (attach_all attach (r ∷ take m rs) l)
                ≡ done
                    (behind (behind lo (r ∷ take m rs)) (drop m rs))
                    (attach_all attach (drop m rs) (attach_all attach (r ∷ take m rs) l)))
          → insert_from limit (suc rounds) get attach lo l
            ≡ done (behind lo (r ∷ rs)) (attach_all attach (r ∷ rs) l)
      some_answer (zero, e, p) ih =
          absurd (omega (arith, p (rw (from_all limit lo lo (r ∷ rs) h (omega arith)) (cc))))
      some_answer (suc m, e, p) ih =
          let all = from_all limit lo lo (r ∷ rs) h (omega arith) in
          let whole : (r ∷ take m rs) ++ drop m rs ≡ r ∷ rs = ap (◌∷◌ r) (take-append-drop m rs) in
          insert_from_step rounds lo (behind lo (r ∷ take m rs)) get r (take m rs) l
            (attach_all attach (r ∷ take m rs) l) (e ∙ ap (take (suc m)) all)
            (insert_some_lem (r ∷ take m rs) (drop m rs) lo l
              (subst (Ascending limit lo) (sym whole) h)
              (Accepts-split (r ∷ take m rs) (drop m rs) l
                (subst (λ zs. Accepts attach zs l) (sym whole) k)).0)
          ∙ ih m
          ∙ rw
              (
                behind-append lo (r ∷ take m rs) (drop m rs),
                attach_all-append (r ∷ take m rs) (drop m rs) l,
                whole,
              )
              refl

-- The kernel takes over every region of its region map, once and in order, and the areas behind the last
-- region: an area in front of that is left out.
pub insert_regions_lem :
    {L : Type 0} (limit rounds : ℕ) (get_regions get_areas : ℕ → List Region)
    (attach attach_area : ℕ → ℕ → Method L ℕ) (regions areas : List Region) (l : L)
    → Ascending limit 0 regions
    → Ascending limit 0 areas
    → Answers 0 regions get_regions
    → Answers 0 areas get_areas
    → let rest = from (behind 0 regions) areas in
      let l' = attach_all attach regions l in
      Accepts attach regions l
      → Accepts attach_area rest l'
      → length regions < rounds
      → length areas < rounds
      → insert_regions limit rounds get_regions get_areas attach attach_area l
        ≡ done (behind (behind 0 regions) rest) (attach_all attach_area rest l')
unfolding insert_regions
insert_regions_lem limit rounds get_regions get_areas attach attach_area regions areas l r a gr ga
      kr ka nr na =
    let b : ℕ = behind 0 regions in
    let below : b < limit =
      lo_lt limit b [] (Ascending-behind limit 0 regions [] (rw append-nil r)) in
    rw (insert_regions, insert_from_lem limit attach rounds 0 get_regions regions l r gr kr nr)
      (insert_from_lem limit attach_area rounds b get_areas (from b areas)
        (attach_all attach regions l) (from-Ascending limit 0 b areas a below)
        (Answers-from b areas get_areas ga) ka (omega (arith, length-from b areas)))
