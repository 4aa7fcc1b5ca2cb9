-- ===== src/Ned/Objects/Invariant.antt =====
-- dom0/dom0-ned/server/src/server.cc: the well-formed lists, and what `add` and `remove` do to them.
use l4re_tmp_fs.Base.{
  ℕ, ◌≡◌, ◌≢◌, refl, sym, Bool, true, false, not, ◌&&◌, List, [], ◌∷◌, ◌==◌, arith, if◌then◌else◌,
  Bool-cases, inl, inr, ==_iff,
}
use l4re_tmp_fs.Ned.Objects.{State, add, remove, unlink}
use l4re_tmp_fs.Ned.Objects.Links.{
  contains, erase, head, next_of, prev_of, Distinct, contains-erase, Distinct-erase, next_of-erase,
  prev_of-erase, prev_of-next_of,
}

-- The objects `xs` are those of the list `this`, in their order.
pub record IsList (this : ℕ) (s : State) (xs : List ℕ) : Type 0 where
  pub first : s.f ≡ head xs
  pub distinct : Distinct xs
  pub linked :
      (o : ℕ)
      → contains o xs ≡ true
      → s.object o ≡ record { n = next_of o xs; p = prev_of 0 o xs; l = this }
  pub owned : (o : ℕ) → o ≢ 0 → (s.object o).l ≡ this → contains o xs ≡ true

pub contains_ne : (o : ℕ) (xs : List ℕ) → Distinct xs → contains o xs ≡ true → o ≢ 0
contains_ne o [] d h = ground arith
contains_ne o (x ∷ xs) d h = ground (arith, contains_ne o xs)

pub contains-head : (xs : List ℕ) → head xs ≢ 0 → contains (head xs) xs ≡ true
contains-head [] h = ground arith
contains-head (x ∷ xs) h = ground arith

prev_of-head : (p : ℕ) (xs : List ℕ) → head xs ≢ 0 → prev_of p (head xs) xs ≡ p
prev_of-head p [] h = ground arith
prev_of-head p (x ∷ xs) h = ground arith

prev_of_cons :
    (o q : ℕ) (xs : List ℕ)
    → Distinct (o ∷ xs)
    → contains q xs ≡ true
    → prev_of o q xs ≡ (if q == head xs then o else prev_of 0 q xs)
prev_of_cons o q [] d h = ground arith
prev_of_cons o q (x ∷ xs) d h = ground arith

prev_of_pos :
    (p o : ℕ) (xs : List ℕ) → Distinct xs → contains o xs ≡ true → p ≢ 0 → prev_of p o xs ≢ 0
prev_of_pos p o [] d h z = ground arith
prev_of_pos p o (x ∷ xs) d h z = ground (arith, prev_of_pos x o xs)

head-erase :
    (o : ℕ) (xs : List ℕ)
    → Distinct xs
    → contains o xs ≡ true
    → head (erase o xs) ≡ (if prev_of 0 o xs == 0 then next_of o xs else head xs)
head-erase o [] d h = ground arith
head-erase o (x ∷ []) d h = ground arith
head-erase o (x ∷ y ∷ xs) d h = ground (arith, prev_of_pos x o (y ∷ xs))

module _ (this o : ℕ) (s : State) (xs : List ℕ) (inv : IsList this s xs) (not_null : o ≢ 0) where
  module _ (free : (s.object o).l ≡ 0) (a_list : this ≢ 0) where
    add_absent : contains o xs ≡ false
    add_absent = elim (Bool-cases (contains o xs)) [
      | inl e ↦ absurd (ground (arith, inv.linked o e))
      | inr e ↦ e
    ]

    add_linked :
        (q : ℕ)
        → contains q (o ∷ xs) ≡ true
        → (add this o s).object q
          ≡ record { n = next_of q (o ∷ xs); p = prev_of 0 q (o ∷ xs); l = this }
    unfolding add
    add_linked q h = ground (
      arith,
      inv.first,
      inv.linked q,
      inv.distinct,
      add_absent,
      prev_of_cons o q xs,
      contains-head xs,
      contains_ne q xs,
      contains_ne s.f xs,
    )

    add_owned : (q : ℕ) → q ≢ 0 → ((add this o s).object q).l ≡ this → contains q (o ∷ xs) ≡ true
    unfolding add
    add_owned q z h = ground (arith, inv.first, inv.owned q, contains-head xs)

    pub add-IsList : IsList this (add this o s) (o ∷ xs)
    unfolding add
    add-IsList = record {
      first = ground arith;
      distinct = (not_null, add_absent, inv.distinct);
      linked = add_linked;
      owned = add_owned;
    }

  module _ (listed : contains o xs ≡ true) where
    unlink_linked :
        (q : ℕ)
        → contains q (erase o xs) ≡ true
        → (unlink o s).object q
          ≡ record { n = next_of q (erase o xs); p = prev_of 0 q (erase o xs); l = this }
    unfolding unlink
    unlink_linked q h = ground (
      arith,
      inv.linked q,
      inv.linked o,
      inv.distinct,
      contains-erase q o xs,
      next_of-erase o q xs,
      prev_of-erase 0 o q xs,
      prev_of-next_of 0 o q xs,
      prev_of-next_of 0 q o xs,
      contains_ne q xs,
    )

    unlink_owned :
        (q : ℕ)
        → q ≢ 0
        → ((unlink o s).object q).l ≡ this
        → this ≢ 0
        → contains q (erase o xs) ≡ true
    unfolding unlink
    unlink_owned q z h t =
        ground (arith, inv.linked o, inv.owned q, inv.distinct, contains-erase q o xs)

    unlink_first : (unlink o s).f ≡ head (erase o xs)
    unfolding unlink
    unlink_first = ground (arith, inv.linked o, inv.first, head-erase o xs)

    pub unlink-IsList : this ≢ 0 → IsList this (unlink o s) (erase o xs)
    unlink-IsList t = record {
      first = unlink_first;
      distinct = Distinct-erase o xs inv.distinct;
      linked = unlink_linked;
      owned = λ q z h. unlink_owned q z h t;
    }

add_listed : (this o : ℕ) (s : State) → ((s.object o).l == 0) ≡ false → add this o s ≡ s
unfolding add
add_listed this o s e = rw e

-- An object that is in the list is not added again; one that is in none is put in front.
pub add_lem :
    (this o : ℕ) (s : State) (xs : List ℕ)
    → IsList this s xs
    → this ≢ 0
    → o ≢ 0
    → IsList this (add this o s) (if (s.object o).l == 0 then o ∷ xs else xs)
add_lem this o s xs inv t z = elim (Bool-cases ((s.object o).l == 0)) [
  | inl e ↦ rw e (add-IsList this o s xs inv z ((==_iff _ _).0 e) t)
  | inr e ↦ rw (e, add_listed this o s e) inv
]

-- What a caller sees of `remove`: the list without the object, and the object.
abbrev pub removed : ℕ → List ℕ → ℕ × List ℕ
removed o xs =
    let chosen = if o == 0 then head xs else o in
    if contains chosen xs then (chosen, erase chosen xs) else (0, xs)

module _ (this : ℕ) (s : State) (xs : List ℕ) (inv : IsList this s xs) (a_list : this ≢ 0) where
  pub taken : (c : ℕ) → (not (c == 0) && (s.object c).l == this) ≡ contains c xs
  taken c = ground (arith, inv.linked c, inv.owned c, contains_ne c xs)

  take_out :
      (c : ℕ) (found : Bool)
      → found ≡ contains c xs
      → let r : ℕ × State = if found then (c, unlink c s) else (0, s) in
        let spec : ℕ × List ℕ = if found then (c, erase c xs) else (0, xs) in
        (r.0 ≡ spec.0) × IsList this r.1 spec.1
  take_out c true e =
      (refl, unlink-IsList this c s xs inv (contains_ne c xs inv.distinct (sym e)) (sym e) a_list)
  take_out c false e = (refl, inv)

-- `remove` takes the object out of the list, or the first one for the null pointer; where there is none
-- to take, nothing changes.
pub remove_lem :
    (this o : ℕ) (s : State) (xs : List ℕ)
    → IsList this s xs
    → this ≢ 0
    → ((remove this o s).0 ≡ (removed o xs).0) × IsList this (remove this o s).1 (removed o xs).1
unfolding remove
remove_lem this o s xs inv t =
    rw (← inv.first) (rw (taken this s xs inv t chosen) (take_out this s xs inv t chosen _ refl))
  where
    chosen : ℕ
    chosen = if o == 0 then s.f else o
