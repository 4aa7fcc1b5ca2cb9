-- ===== src/Ned/Objects/Delete.antt =====
-- dom0/dom0-ned/server/src/server.cc: ~List(), and the other lists that live in the same memory.
use l4re_tmp_fs.Base.{
  ℕ, zero, suc, ◌≡◌, ◌≢◌, ◌<◌, refl, ap, ◌∙◌, true, List, [], ◌∷◌, ◌==◌, arith, if◌then◌else◌,
  Bool-cases, inl, inr, some, length,
}
use l4re_tmp_fs.Ned.Objects.{State, add, remove, unlink, unlisted, write, clear_from}
use l4re_tmp_fs.Ned.Objects.Links.{contains, head, next_of, prev_of, Distinct}
use l4re_tmp_fs.Ned.Objects.Invariant.{IsList, contains_ne, contains-head, taken}

-- From the object at the head, the links lead through `xs`, whose objects are all in the list `this`.
abbrev Chain : ℕ → List ℕ → State → Type 0
Chain this xs s =
    (q : ℕ) → contains q xs ≡ true → ((s.object q).n ≡ next_of q xs) × ((s.object q).l ≡ this)

Chain-rest :
    (this x : ℕ) (xs : List ℕ) (s : State)
    → Distinct (x ∷ xs)
    → Chain this (x ∷ xs) s
    → Chain this xs (write x unlisted s)
Chain-rest this x xs s d c q h = ground (arith, c q)

abbrev cleared : List ℕ → State → State
cleared [] s = s
cleared (x ∷ xs) s = cleared xs (write x unlisted s)

clear_from_lem :
    (rounds this : ℕ) (xs : List ℕ) (s : State)
    → Distinct xs
    → Chain this xs s
    → length xs < rounds
    → clear_from rounds this (head xs) s ≡ some (cleared xs s)
unfolding clear_from
clear_from_lem zero this xs s d c h = absurd (omega arith)
clear_from_lem (suc rounds) this [] s d c h = refl
clear_from_lem (suc rounds) this (x ∷ xs) s d c h = ground (
  arith,
  c x,
  clear_from_lem rounds this xs (write x unlisted s) d.2 (Chain-rest this x xs s d c),
)

contains-next_of : (o : ℕ) (xs : List ℕ) → next_of o xs ≢ 0 → contains (next_of o xs) xs ≡ true
contains-next_of o [] h = ground arith
contains-next_of o (x ∷ xs) h = ground (arith, contains-head xs, contains-next_of o xs)

contains-prev_of :
    (p o : ℕ) (xs : List ℕ)
    → contains o xs ≡ true
    → prev_of p o xs ≢ p
    → contains (prev_of p o xs) xs ≡ true
contains-prev_of p o [] h z = ground arith
contains-prev_of p o (x ∷ xs) h z = ground (arith, contains-prev_of x o xs)

object-cleared :
    (xs : List ℕ) (s : State) (q : ℕ)
    → (cleared xs s).object q ≡ (if contains q xs then unlisted else s.object q)
object-cleared [] s q = refl
object-cleared (x ∷ xs) s q = ground (arith, object-cleared xs (write x unlisted s) q)

-- The destructor ends without the exception, takes every object of the list out of it, and touches no
-- other object.
pub clear_list :
    (rounds this : ℕ) (s : State) (xs : List ℕ)
    → IsList this s xs
    → length xs < rounds
    → (s' : State) × (clear_from rounds this s.f s ≡ some s')
      × ((q : ℕ) → s'.object q ≡ (if contains q xs then unlisted else s.object q))
clear_list rounds this s xs inv h = (
  cleared xs s,
  ap (λ a. clear_from rounds this a s) inv.first
      ∙ clear_from_lem rounds this xs s inv.distinct (λ q m. ground (arith, inv.linked q m)) h,
  object-cleared xs s,
)

-- Another list `that` in the same memory, with its own first object `g`.
module _ (this that o g : ℕ) (s : State) (xs ys : List ℕ) (inv : IsList this s xs)
    (other : IsList that (record s { f = g }) ys) (two : this ≢ that) (a_list : that ≢ 0) where
  apart : (q : ℕ) → contains q xs ≡ true → contains q ys ≡ true → ⊥
  apart q h k = ground (arith, inv.linked q h, other.linked q k)

  object-add : (q : ℕ) → contains q ys ≡ true → (add this o s).object q ≡ s.object q
  unfolding add
  object-add q h =
      ground (
        arith,
        apart q,
        other.linked q,
        inv.first,
        contains-head xs,
        contains_ne q ys other.distinct,
      )

  l-add : (q : ℕ) → ((add this o s).object q).l ≡ that → (s.object q).l ≡ that
  unfolding add
  l-add q h = ground arith

  -- Adding to one list leaves another as it is.
  pub add_other : IsList that (record (add this o s) { f = g }) ys
  add_other = record {
    first = other.first;
    distinct = other.distinct;
    linked = λ q h. object-add q h ∙ other.linked q h;
    owned = λ q z h. other.owned q z (l-add q h);
  }

  module _ (listed : contains o xs ≡ true) where
    object-unlink : (q : ℕ) → contains q ys ≡ true → (unlink o s).object q ≡ s.object q
    unfolding unlink
    object-unlink q h = ground (
      arith,
      apart q,
      inv.linked o,
      listed,
      other.linked q,
      contains-prev_of 0 o xs,
      contains-next_of o xs,
      contains_ne q ys other.distinct,
    )

    l-unlink : (q : ℕ) → ((unlink o s).object q).l ≡ that → (s.object q).l ≡ that
    unfolding unlink
    l-unlink q h = ground arith

    pub unlink_other : IsList that (record (unlink o s) { f = g }) ys
    unlink_other = record {
      first = other.first;
      distinct = other.distinct;
      linked = λ q h. object-unlink q h ∙ other.linked q h;
      owned = λ q z h. other.owned q z (l-unlink q h);
    }

-- Taking an object out of one list leaves another as it is, whichever object is asked for.
pub remove_other :
    (this that o g : ℕ) (s : State) (xs ys : List ℕ)
    → IsList this s xs
    → IsList that (record s { f = g }) ys
    → this ≢ that
    → this ≢ 0
    → that ≢ 0
    → IsList that (record (remove this o s).1 { f = g }) ys
unfolding remove
remove_other this that o g s xs ys inv other two t z = elim (Bool-cases (contains chosen xs)) [
  | inl e ↦
      rw (taken this s xs inv t chosen, e)
        (unlink_other this that chosen g s xs ys inv other two z e)
  | inr e ↦ rw (taken this s xs inv t chosen, e) other
]
  where
    chosen : ℕ
    chosen = if o == 0 then s.f else o
