-- ===== src/Ned/Objects/Links.antt =====
-- A list of different addresses, and the neighbours of an address in it.
use l4re_tmp_fs.Base.{
  ℕ, ◌≡◌, ◌≢◌, refl, Bool, true, false, not, ◌&&◌, ◌||◌, List, [], ◌∷◌, ◌==◌, arith, if◌then◌else◌,
}

abbrev pub contains : ℕ → List ℕ → Bool
contains o [] = false
contains o (x ∷ xs) = x == o || contains o xs

abbrev pub erase : ℕ → List ℕ → List ℕ
erase o [] = []
erase o (x ∷ xs) = if x == o then xs else x ∷ erase o xs

abbrev pub head : List ℕ → ℕ
head [] = 0
head (x ∷ xs) = x

-- The address behind `q`, and the one in front of it; `p` stands in front of the list.
abbrev pub next_of : ℕ → List ℕ → ℕ
next_of q [] = 0
next_of q (x ∷ xs) = if x == q then head xs else next_of q xs

abbrev pub prev_of : ℕ → ℕ → List ℕ → ℕ
prev_of p q [] = 0
prev_of p q (x ∷ xs) = if x == q then p else prev_of x q xs

abbrev pub Distinct : List ℕ → Type 0
Distinct [] = Unit {0}
Distinct (x ∷ xs) = (x ≢ 0) × (contains x xs ≡ false) × Distinct xs

pub contains-erase :
    (q o : ℕ) (xs : List ℕ)
    → Distinct xs
    → contains q (erase o xs) ≡ (contains q xs && not (q == o))
contains-erase q o [] h = refl
contains-erase q o (x ∷ xs) h = ground (arith, contains-erase q o xs h.2)

pub Distinct-erase : (o : ℕ) (xs : List ℕ) → Distinct xs → Distinct (erase o xs)
Distinct-erase o [] h = tt
Distinct-erase o (x ∷ xs) h = ground (arith, Distinct-erase o xs h.2, contains-erase x o xs h.2)

pub next_of_ne : (q o : ℕ) (xs : List ℕ) → contains o xs ≡ false → o ≢ 0 → next_of q xs ≢ o
next_of_ne q o [] h z = ground arith
next_of_ne q o (x ∷ []) h z = ground arith
next_of_ne q o (x ∷ y ∷ xs) h z = ground (arith, next_of_ne q o (y ∷ xs))

pub prev_of_ne :
    (p q o : ℕ) (xs : List ℕ) → contains o xs ≡ false → o ≢ 0 → p ≢ o → prev_of p q xs ≢ o
prev_of_ne p q o [] h z e = ground arith
prev_of_ne p q o (x ∷ xs) h z e = ground (arith, prev_of_ne x q o xs)

-- To be behind is to have in front.
pub prev_of-next_of :
    (p o q : ℕ) (xs : List ℕ)
    → Distinct xs
    → contains o xs ≡ true
    → o ≢ 0
    → q ≢ 0
    → q ≢ p
    → (prev_of p o xs == q) ≡ (next_of q xs == o)
prev_of-next_of p o q [] d h z y e = ground arith
prev_of-next_of p o q (x ∷ []) d h z y e = ground arith
prev_of-next_of p o q (x ∷ x' ∷ xs) d h z y e =
    ground (arith, prev_of-next_of x o q (x' ∷ xs), prev_of_ne x' o x xs, next_of_ne q o (x' ∷ xs))

pub next_of-erase :
    (o q : ℕ) (xs : List ℕ)
    → Distinct xs
    → o ≢ 0
    → q ≢ o
    → next_of q (erase o xs) ≡ (if next_of q xs == o then next_of o xs else next_of q xs)
next_of-erase o q [] d z e = ground arith
next_of-erase o q (x ∷ []) d z e = ground arith
next_of-erase o q (x ∷ y ∷ xs) d z e =
    ground (arith, next_of-erase o q (y ∷ xs), next_of_ne q o (y ∷ xs))

pub prev_of-erase :
    (p o q : ℕ) (xs : List ℕ)
    → Distinct xs
    → contains q xs ≡ true
    → o ≢ 0
    → q ≢ o
    → p ≢ o
    → prev_of p q (erase o xs) ≡ (if prev_of p q xs == o then prev_of p o xs else prev_of p q xs)
prev_of-erase p o q [] d h z e f = ground arith
prev_of-erase p o q (x ∷ []) d h z e f = ground arith
prev_of-erase p o q (x ∷ y ∷ xs) d h z e f =
    ground (arith, prev_of-erase x o q (y ∷ xs), prev_of_ne y q o xs)
