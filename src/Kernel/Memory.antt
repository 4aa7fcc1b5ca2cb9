-- ===== src/Kernel/Memory.antt =====
-- The memory of an address space, byte by byte, and the machine words in it.
use l4re_tmp_fs.Base.{
  ℕ, zero, suc, ◌+◌, ◌≤◌, ◌<◌, ◌==◌, ◌≡◌, refl, ap, ◌∙◌, sym, List, [], ◌∷◌, length, arith,
  if◌then◌else◌,
}

abbrev pub Memory : Type 0
Memory = ℕ → ℕ

-- A machine word of `size` bytes, with the values below `limit`.
pub record Word : Type 0 where
  pub size : ℕ
  pub limit : ℕ
  pub encode : ℕ → List ℕ
  pub decode : List ℕ → ℕ
  pub size_pos : 0 < size
  pub length-encode : (v : ℕ) → length (encode v) ≡ size
  pub decode-encode : (v : ℕ) → v < limit → decode (encode v) ≡ v

unfoldable pub store : ℕ → List ℕ → Memory → Memory
store a [] m = m
store a (b ∷ bs) m = store (suc a) bs (λ x. if x == a then b else m x)

unfoldable pub load : ℕ → ℕ → Memory → List ℕ
load zero a m = []
load (suc n) a m = m a ∷ load n (suc a) m

pub store_below : (a : ℕ) (bs : List ℕ) (m : Memory) (x : ℕ) → x < a → store a bs m x ≡ m x
unfolding store
store_below a [] m x h = refl
store_below a (b ∷ bs) m x h =
    store_below (suc a) bs (λ y. if y == a then b else m y) x (omega arith) ∙ ground arith

pub store_above :
    (a : ℕ) (bs : List ℕ) (m : Memory) (x : ℕ) → a + length bs ≤ x → store a bs m x ≡ m x
unfolding store
store_above a [] m x h = refl
store_above a (b ∷ bs) m x h =
    store_above (suc a) bs (λ y. if y == a then b else m y) x (omega arith) ∙ ground arith

pub load_agree :
    (n a : ℕ) (m m' : Memory)
    → ((x : ℕ) → a ≤ x → x < a + n → m x ≡ m' x)
    → load n a m ≡ load n a m'
unfolding load
load_agree zero a m m' h = refl
load_agree (suc n) a m m' h =
    ap (◌∷◌ (m a)) (load_agree n (suc a) m m' (λ x p q. h x (omega arith) (omega arith)))
    ∙ ap (λ y. y ∷ load n (suc a) m') (h a (omega arith) (omega arith))

pub load-store : (a : ℕ) (bs : List ℕ) (m : Memory) → load (length bs) a (store a bs m) ≡ bs
unfolding load store
load-store a [] m = refl
load-store a (b ∷ bs) m =
    ap (λ y. y ∷ load (length bs) (suc a) (store (suc a) bs written)) head
    ∙ ap (◌∷◌ b) (load-store (suc a) bs written)
  where
    written : Memory
    written x = if x == a then b else m x

    head : store (suc a) bs written a ≡ b
    head = store_below (suc a) bs written a (omega arith) ∙ ground arith

module _ (word : Word) where
  open word use {size, limit, encode, decode, length-encode, decode-encode}

  unfoldable pub load_word : ℕ → Memory → ℕ
  load_word a m = decode (load size a m)

  pub load_word-store : (a v : ℕ) (m : Memory) → v < limit → load_word a (store a (encode v) m) ≡ v
  unfolding load_word
  load_word-store a v m h =
      ap (λ n. decode (load n a (store a (encode v) m))) (sym (length-encode v))
      ∙ ap decode (load-store a (encode v) m)
      ∙ decode-encode v h

  -- A word above a write is not changed.
  pub load_word_above :
      (a b : ℕ) (bs : List ℕ) (m : Memory)
      → a + length bs ≤ b
      → load_word b (store a bs m) ≡ load_word b m
  unfolding load_word
  load_word_above a b bs m h =
      ap decode (load_agree size b (store a bs m) m (λ x p q. store_above a bs m x (omega arith)))

  -- The words from the address `a` on.
  abbrev pub Words : ℕ → List ℕ → Memory → Type 0
  Words a [] m = Unit {0}
  Words a (v ∷ vs) m = (load_word a m ≡ v) × Words (a + size) vs m

  pub store-Words :
      (a b : ℕ) (bs vs : List ℕ) (m : Memory)
      → a + length bs ≤ b
      → Words b vs m
      → Words b vs (store a bs m)
  store-Words a b bs [] m h ws = tt
  store-Words a b bs (v ∷ vs) m h ws =
      (load_word_above a b bs m h ∙ ws.0, store-Words a (b + size) bs vs m (omega arith) ws.1)
