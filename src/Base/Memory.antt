-- ===== src/Base/Memory.antt =====
-- Byte buffers and the C strings in them.
use Prim.Native.Nat.{ℕ, zero, suc, ◌+◌, ◌-◌, ◌≤◌, min}
use mathlib.Core.Path.{◌≡◌, refl, sym, ap, ap₂, ◌∙◌}
use mathlib.Core.Logic.{◌≢◌}
use mathlib.Core.List.{List, [], ◌∷◌, ◌++◌, append_assoc}
use native.Mathlib.Omega.{arith}
use l4re_tmp_fs.Base.Tests.{◌==◌, if◌then◌else◌}
use l4re_tmp_fs.Base.Lists.{
  length, take, drop, length-append, length-take, length-drop, take-append, take-append-take,
  take-append-drop, drop-drop, drop-append,
}

-- `memcpy(buf + n, bs, length bs)`. A copy past the end makes the list longer.
unfoldable pub put_at : ℕ → List ℕ → List ℕ → List ℕ
put_at n bs buf = take n buf ++ (bs ++ drop (n + length bs) buf)

-- The characters of a string: those in front of the first NUL.
unfoldable pub c_string : List ℕ → List ℕ
c_string [] = []
c_string (b ∷ bs) = if b == 0 then [] else b ∷ c_string bs

abbrev pub terminated : List ℕ → List ℕ
terminated s = s ++ 0 ∷ []

-- A string as C has them: no NUL inside.
abbrev pub IsString : List ℕ → Type 0
IsString [] = Unit {0}
IsString (b ∷ bs) = (b ≢ 0) × IsString bs

pub length-put_at-min :
    (n : ℕ) (bs buf : List ℕ)
    → length (put_at n bs buf) ≡ min n (length buf) + (length bs + (length buf - (n + length bs)))
unfolding put_at
length-put_at-min n bs buf = omega (
  arith,
  length-append (take n buf) (bs ++ drop (n + length bs) buf),
  length-append bs (drop (n + length bs) buf),
  length-take n buf,
  length-drop (n + length bs) buf,
)

pub length-put_at :
    (n : ℕ) (bs buf : List ℕ) → n + length bs ≤ length buf → length (put_at n bs buf) ≡ length buf
length-put_at n bs buf h = omega (arith, length-put_at-min n bs buf)

pub c_string-append : (s rest : List ℕ) → IsString s → c_string (s ++ 0 ∷ rest) ≡ s
unfolding c_string
c_string-append [] rest h = refl
c_string-append (b ∷ s) rest h = ground (arith, c_string-append s rest h.1)

-- The string at the start of a buffer that a string has been copied to.
pub c_string-put_at_zero :
    (s buf : List ℕ) → IsString s → c_string (put_at 0 (terminated s) buf) ≡ s
unfolding put_at
c_string-put_at_zero s buf h = rw (append_assoc) (c_string-append s _ h)

-- A string cut off by a later NUL is the string, if the cut is behind it.
pub c_string-take :
    (n : ℕ) (s rest rest' : List ℕ)
    → IsString s
    → length s ≤ n
    → c_string (take n (s ++ 0 ∷ rest) ++ 0 ∷ rest') ≡ s
unfolding c_string
c_string-take zero [] rest rest' h le = refl
c_string-take (suc n) [] rest rest' h le = refl
c_string-take zero (b ∷ s) rest rest' h le = absurd (omega arith)
c_string-take (suc n) (b ∷ s) rest rest' h le = ground (arith, c_string-take n s rest rest' h.1)

pub take-put_at_zero : (bs buf : List ℕ) → take (length bs) (put_at 0 bs buf) ≡ bs
unfolding put_at
take-put_at_zero bs buf = take-append bs (drop (0 + length bs) buf)

take-append_take :
    (n : ℕ) (buf rest : List ℕ) → n ≤ length buf → take n (take n buf ++ rest) ≡ take n buf
take-append_take zero buf rest h = refl
take-append_take (suc n) [] rest h = absurd (omega arith)
take-append_take (suc n) (x ∷ buf) rest h = ap (◌∷◌ x) (take-append_take n buf rest (omega arith))

pub take-put_at : (n : ℕ) (bs buf : List ℕ) → n ≤ length buf → take n (put_at n bs buf) ≡ take n buf
unfolding put_at
take-put_at n bs buf h = take-append_take n buf (bs ++ drop (n + length bs) buf) h

drop-append_take : (n : ℕ) (buf rest : List ℕ) → n ≤ length buf → drop n (take n buf ++ rest) ≡ rest
drop-append_take zero buf rest h = refl
drop-append_take (suc n) [] rest h = absurd (omega arith)
drop-append_take (suc n) (x ∷ buf) rest h = drop-append_take n buf rest (omega arith)

pub drop-put_at :
    (n : ℕ) (bs buf : List ℕ)
    → n ≤ length buf
    → drop n (put_at n bs buf) ≡ bs ++ drop (n + length bs) buf
unfolding put_at
drop-put_at n bs buf h = drop-append_take n buf (bs ++ drop (n + length bs) buf) h

-- A buffer that is filled up to `n` is filled further by a copy behind that.
pub take-put_at_add :
    (n : ℕ) (bs buf : List ℕ)
    → n ≤ length buf
    → take (n + length bs) (put_at n bs buf) ≡ take n buf ++ bs
take-put_at_add n bs buf h =
    sym (take-append-take n (length bs) (put_at n bs buf))
    ∙ rw (take-put_at n bs buf h, drop-put_at n bs buf h)
        (ap (◌++◌ (take n buf)) (take-append bs _))

drop-put_at_add :
    (n : ℕ) (bs buf : List ℕ)
    → n ≤ length buf
    → drop (n + length bs) (put_at n bs buf) ≡ drop (n + length bs) buf
drop-put_at_add n bs buf h =
    sym (drop-drop n (length bs) (put_at n bs buf))
    ∙ ap (drop (length bs)) (drop-put_at n bs buf h)
    ∙ drop-append bs (drop (n + length bs) buf)

pub put_at_nil : (n : ℕ) (buf : List ℕ) → put_at n [] buf ≡ buf
unfolding put_at
put_at_nil n buf = ap (λ k. take n buf ++ drop k buf) (omega arith) ∙ take-append-drop n buf

-- A copy that goes on where another one ended.
pub put_at-put_at :
    (n : ℕ) (bs cs buf : List ℕ)
    → n ≤ length buf
    → put_at (n + length bs) cs (put_at n bs buf) ≡ put_at n (bs ++ cs) buf
unfolding put_at
put_at-put_at n bs cs buf h =
    let far : drop (n + length bs + length cs) (put_at n bs buf)
        ≡ drop (n + length bs + length cs) buf =
      sym (drop-drop (n + length bs) (length cs) (put_at n bs buf))
      ∙ ap (drop (length cs)) (drop-put_at_add n bs buf h)
      ∙ drop-drop (n + length bs) (length cs) buf in
    let end : n + length bs + length cs ≡ n + length (bs ++ cs) =
      omega (arith, length-append bs cs) in
    ap₂ (λ x y. x ++ (cs ++ y)) (take-put_at_add n bs buf h) (far ∙ ap (λ k. drop k buf) end)
    ∙ append_assoc (take n buf) bs (cs ++ drop (n + length (bs ++ cs)) buf)
    ∙ ap (◌++◌ (take n buf)) (sym (append_assoc bs cs (drop (n + length (bs ++ cs)) buf)))
