-- ===== src/Tests/LuaTables.antt =====
-- The LUA library of Tests/LuaMachine makes and fills tables as LUA documents it.
use l4re_tmp_fs.Base.{
  drop, ℤ, leb, ltb, ℕ, suc, ◌+◌, ◌≡◌, ◌≢◌, refl, ap, ◌∙◌, true, false, ◌&&◌, List, ◌∷◌, none, pos,
  negsuc, arith,
}
use l4re_tmp_fs.Ned.LuaState.Tables.{Changes, Writes, Grows, Fills, Tables}
use l4re_tmp_fs.Ned.LuaState.{at, nth, Moves}
use l4re_tmp_fs.Tests.LuaMachine.{
  Machine, machine, heap_of, push, with_one, with_two, with_top, put, put_same, number_of,
  made_plain,
}

made_new : (n : ℕ) → (leb 3 (n + 3) && ltb (n + 3) (n + 3)) ≡ false
made_new n = ground arith

not_globals : (n : ℕ) → (leb 3 3 && ltb 3 (n + 3)) ≡ true → n + 3 ≢ 3
not_globals n h e = ground arith

still_plain : (n v : ℕ) → (leb 3 v && ltb v (n + 3)) ≡ true → (leb 3 v && ltb v (suc n + 3)) ≡ true
still_plain n v h = ground arith

put_key : (t k v k' : ℕ) (get : ℕ → ℕ → ℕ) → k' ≢ k → put t k v get t k' ≡ get t k'
unfolding put
put_key t k v k' get h = ground arith

put_table : (t k v u k' : ℕ) (get : ℕ → ℕ → ℕ) → u ≢ t → put t k v get u k' ≡ get u k'
unfolding put
put_table t k v u k' get h = ground arith

-- A write changes nothing else.
put-Writes :
    (m : Machine) (t k v : ℕ) (s : List ℕ)
    → Writes t k v (heap_of m) (heap_of (record m { stack = s; get = put t k v m.get }))
unfolding heap_of Writes Changes
put-Writes m t k v s = (
  (refl, refl, λ u k' n. put_table t k v u k' m.get n),
  put_same t k v m.get,
  λ k' n. put_key t k v k' m.get n,
)

string_not_number : (z : ℤ) → 1 ≢ number_of z
unfolding number_of
string_not_number (pos n) e = omega (arith, e)
string_not_number (negsuc n) e = omega (arith, e)

-- The machine makes and fills tables as LUA documents it.
pub tables : Tables machine
unfolding Moves heap_of push with_one with_two with_top Grows Fills Writes at nth
tables = record {
  string-number = λ s z. string_not_number z;
  new_table = λ w. (
    w.next + 3,
    refl,
    (refl, made_new w.next, made_plain w.next, λ v h. still_plain w.next v h, λ v k h. refl),
  );
  push_string = λ w s. (refl, refl);
  push_integer = λ w z. (refl, refl);
  set_field = λ w name v t s e p. (
    record w { stack = t ∷ s; get = put t 1 v w.get },
    ap (with_two _ none) e,
    refl,
    put-Writes w t 1 v (t ∷ s),
  );
  set_table = λ w i v k t s e f p. (
    record w { stack = s; get = put t k v w.get },
    ap (with_one _ none) f ∙ ap (with_two _ none) e,
    refl,
    put-Writes w t k v s,
  );
  register_fills = λ names w t s e p. (
    record w { stack = t ∷ s; get = put t 1 2 w.get },
    ap (with_top _ none) e,
    refl,
    (put-Writes w t 1 2 (t ∷ s)).0,
  );
  raw_get = λ w n t s e. (
    ap (λ z. (with_one (λ u. push (w.get u (number_of (pos n))) w) w (at (negsuc 0) z)).stack) e,
    ap (λ z. heap_of (with_one (λ u. push (w.get u (number_of (pos n))) w) w (at (negsuc 0) z))) e,
  );
  pop_two = λ w a b s e. (ap (drop 2) e, refl);
  register_new = λ w name fs p none. (
    w.next + 3,
    record w {
      stack = (w.next + 3) ∷ w.stack;
      next = suc w.next;
      get = put 3 1 (w.next + 3) w.get;
    },
    refl,
    refl,
    refl,
    still_plain w.next 3 p,
    made_plain w.next,
    not_globals w.next p,
    put_same 3 1 (w.next + 3) w.get,
  );
}
