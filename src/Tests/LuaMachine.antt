-- ===== src/Tests/LuaMachine.antt =====
-- A small LUA library, on which the theorems on dom0/dom0-ned/server/src/lua_cap.cc are applied: values are
-- numbers, all strings are one, and no table has a metatable.
use l4re_tmp_fs.Base.{
  ℤ, leb, ltb, ℕ, suc, ◌+◌, ◌<◌, ◌≡◌, ◌≢◌, refl, ap, ◌∙◌, ◌==◌, true, false, ◌&&◌, List, [], ◌∷◌,
  Option, none, some, pos, negsuc, arith, length, drop, if◌then◌else◌,
}
use l4re_tmp_fs.Ned.Cap.{Cap}
use l4re_tmp_fs.Ned.LuaState.{Lua, Heap, Documented, Moves, Keeps, at, delete, depth}

pub record Machine : Type 0 where
  pub stack : List ℕ
  pub get : ℕ → ℕ → ℕ
  pub env : ℕ → ℕ
  pub caps : List (ℕ × Cap)
  pub next : ℕ

unfoldable pub lookup : List (ℕ × Cap) → ℕ → Option Cap
lookup [] v = none
lookup ((u, c) ∷ cs) v = let rest = lookup cs v in if u == v then some c else rest

unfoldable pub fresh : List (ℕ × Cap) → ℕ
fresh [] = 100
fresh ((u, c) ∷ cs) = fresh cs + u + 1

fresh_lem : (cs : List (ℕ × Cap)) (v : ℕ) → fresh cs < v + 1 → lookup cs v ≡ none
unfolding lookup fresh
fresh_lem [] v h = refl
fresh_lem ((u, c) ∷ cs) v h = ground (arith, fresh_lem cs v (omega arith))

unfoldable pub heap_of : Machine → Heap ℕ
heap_of m = record {
  globals = 3;
  get = m.get;
  is_plain = λ t. leb 3 t && ltb t (m.next + 3);
  env = m.env;
  cap_at = lookup m.caps;
}

unfoldable pub push : ℕ → Machine → Machine
push v m = record m { stack = v ∷ m.stack }

-- What is done with the two upper values, with what stays below them.
unfoldable pub with_two : {A : Type 0} → (ℕ → ℕ → List ℕ → A) → A → List ℕ → A
with_two f a (v ∷ t ∷ s) = f v t s
with_two f a s = a

unfoldable pub with_top : {A : Type 0} → (ℕ → List ℕ → A) → A → List ℕ → A
with_top f a (v ∷ s) = f v s
with_top f a s = a

unfoldable pub with_one : {A : Type 0} → (ℕ → A) → A → Option ℕ → A
with_one f a (some v) = f v
with_one f a none = a

unfoldable pub put : ℕ → ℕ → ℕ → (ℕ → ℕ → ℕ) → ℕ → ℕ → ℕ
put t k v get t' k' = if t == t' && k == k' then v else get t' k'

unfoldable pub put_env : ℕ → ℕ → (ℕ → ℕ) → ℕ → ℕ
put_env u t env u' = if u == u' then t else env u'

unfoldable pub number_of : ℤ → ℕ
number_of (pos n) = 1000 + n
number_of (negsuc n) = 500

abbrev pub machine : Lua Machine ℕ
machine = record {
  stack = λ m. m.stack;
  heap = heap_of;
  nil = 0;
  is_nil = λ v. v == 0;
  is_function = λ v. v == 2;
  string = λ s. 1;
  number = number_of;
  function = λ f. 2;
  gettop = λ m. length m.stack;
  getglobal = λ name m. some (push (m.get 3 1) m);
  getfield = λ i name m. with_one (λ t. some (push (m.get t 1) m)) none (at i m.stack);
  setfield = λ i name m.
      with_two (λ v t s. some (record m { stack = t ∷ s; get = put t 1 v m.get })) none m.stack;
  gettable = λ i m.
      with_one (λ t. with_top (λ k s. some (record m { stack = m.get t k ∷ s })) none m.stack) none
        (at i m.stack);
  settable = λ i m.
      with_one
        (λ t. with_two (λ v k s. some (record m { stack = s; get = put t k v m.get })) none m.stack)
        none (at i m.stack);
  register = λ names m.
      with_top (λ t s. some (record m { stack = t ∷ s; get = put t 1 2 m.get })) none m.stack;
  register_lib = λ name names m. some (record m {
    stack = (m.next + 3) ∷ m.stack;
    next = suc m.next;
    get = put 3 1 (m.next + 3) m.get;
  });
  call = λ n r m. some m;
  checkudata = λ i name m. at i m.stack;
  remove = λ i m. record m { stack = delete (depth i m.stack) m.stack };
  pop = λ n m. elim n [
    | pos k ↦ record m { stack = drop k m.stack }
    | negsuc k ↦ record m { stack = [] }
  ];
  pushvalue = λ i m. with_one (λ v. push v m) m (at i m.stack);
  pushstring = λ s m. push 1 m;
  pushcfunction = λ f m. push 2 m;
  pushinteger = λ z m. push (number_of z) m;
  pushnil = push 0;
  pushboolean = λ b m. push (if b then 1 else 0) m;
  isnil = λ i m. with_one (λ v. v == 0) false (at i m.stack);
  isfunction = λ i m. with_one (λ v. v == 2) false (at i m.stack);
  newtable = λ m. record m { stack = (m.next + 3) ∷ m.stack; next = suc m.next };
  newuserdata = λ m. (fresh m.caps, push (fresh m.caps) m);
  write_cap = λ u c m. record m { caps = (u, c) ∷ m.caps };
  newmetatable = λ name m. (true, push (m.next + 3) (record m { next = suc m.next }));
  setmetatable = λ i m. record m { stack = drop 1 m.stack };
  getfenv = λ i m. with_one (λ u. push (m.env u) m) m (at i m.stack);
  setfenv =
      λ i m. with_two (λ t u s. record m { stack = u ∷ s; env = put_env u t m.env }) m m.stack;
  rawgeti = λ i n m. with_one (λ t. push (m.get t (number_of (pos n))) m) m (at i m.stack);
  rawseti = λ i n m.
      with_two (λ v t s. record m { stack = t ∷ s; get = put t (number_of (pos n)) v m.get }) m
        m.stack;
}

pub put_same : (t k v : ℕ) (get : ℕ → ℕ → ℕ) → put t k v get t k ≡ v
unfolding put
put_same t k v get = ground arith

put_env_same : (u t : ℕ) (env : ℕ → ℕ) → put_env u t env u ≡ t
unfolding put_env
put_env_same u t env = ground arith

found : (u : ℕ) (c : Cap) (cs : List (ℕ × Cap)) → lookup ((u, c) ∷ cs) u ≡ some c
unfolding lookup
found u c cs = ground arith

other : (u v : ℕ) (c : Cap) (cs : List (ℕ × Cap)) → v ≢ u → lookup ((u, c) ∷ cs) v ≡ lookup cs v
unfolding lookup
other u v c cs h = ground arith

set_env_lem :
    (w : Machine) (t u : ℕ) (s : List ℕ)
    → w.stack ≡ t ∷ u ∷ s
    → let w' = machine.setfenv (negsuc 1) w in
      (w'.stack ≡ u ∷ s) × (w'.env u ≡ t) × ((heap_of w').cap_at ≡ (heap_of w).cap_at)
unfolding with_two heap_of
set_env_lem w t u s e = rw e (refl, put_env_same u t w.env, refl)

rawseti_lem :
    (w : Machine) (n v t : ℕ) (s : List ℕ)
    → w.stack ≡ v ∷ t ∷ s
    → let w' = machine.rawseti (negsuc 1) n w in
      Keeps machine (t ∷ s) w w' × (w'.get t (number_of (pos n)) ≡ v)
unfolding with_two heap_of Keeps
rawseti_lem w n v t s e = rw e ((refl, refl, refl), put_same t (number_of (pos n)) v w.get)

pub made_plain : (n : ℕ) → (leb 3 (n + 3) && ltb (n + 3) (suc n + 3)) ≡ true
made_plain n = ground arith

-- The machine does what LUA documents.
pub documented : Documented machine
unfolding Moves Keeps heap_of push with_one with_two with_top
documented = record {
  gettop_law = λ w. refl;
  getglobal_law = λ w name p. (_, refl, (refl, refl));
  getfield_law = λ w i t name e p. (push (w.get t 1) w, ap (with_one _ none) e, (refl, refl));
  gettable_law = λ w i t k s e f p. (
    record w { stack = w.get t k ∷ s },
    ap (with_one _ none) f ∙ ap (with_top _ none) e,
    (refl, refl),
  );
  remove_law = λ w i v e. (refl, refl);
  pop_law = λ w v s e. (ap (drop 1) e, refl);
  pushvalue_law = λ w i v e. (
    ap (λ o. (with_one (λ u. push u w) w o).stack) e,
    ap (λ o. heap_of (with_one (λ u. push u w) w o)) e,
  );
  pushnil_law = λ w. (refl, refl);
  isnil_law = λ w i v e. ap (with_one _ false) e;
  isfunction_law = λ w i v e. ap (with_one _ false) e;
  newtable_law = λ w. (w.next + 3, (refl, refl, refl));
  newuserdata_law = λ w. ((refl, refl, refl), fresh_lem w.caps (fresh w.caps) (omega arith));
  write_cap_law = λ w u c. (refl, refl, refl, found u c w.caps, λ v n. other u v c w.caps n);
  newmetatable_law = λ w name. (w.next + 3, (refl, refl, refl), λ e. made_plain w.next);
  pushcfunction_law = λ w f. (refl, refl);
  setfield_law = λ w name v t s e p. (
    record w { stack = t ∷ s; get = put t 1 v w.get },
    ap (with_two _ none) e,
    (refl, refl, refl),
    refl,
  );
  setmetatable_law = λ w t u s e. (ap (drop 1) e, refl, refl);
  getfenv_law = λ w i u e. (
    ap (λ o. (with_one (λ v. push (w.env v) w) w o).stack) e,
    ap (λ o. heap_of (with_one (λ v. push (w.env v) w) w o)) e,
  );
  setfenv_law = λ w t u s e. set_env_lem w t u s e;
  rawseti_law = λ w n v t s e. rawseti_lem w n v t s e;
}
