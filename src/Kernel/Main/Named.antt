-- ===== src/Kernel/Main/Named.antt =====
-- dom0/dom0-l4re_kernel/server/src/main.cc: the name that the kernel's debugger shows for a program.
use l4re_tmp_fs.Base.{
  ℕ, zero, suc, ◌+◌, ◌-◌, ◌≡◌, refl, ap, ◌∙◌, List, [], ◌∷◌, ◌++◌, arith, length, take, drop,
  put_at, IsString, replicate, length-take, length-append, length-replicate, c_string, append-nil,
  drop_all, length-drop, Bool, true, false, if◌then◌else◌, Option, Option-cases, some, none, inl,
  inr, subst,
}
use mathlib.Core.Option.{some-injective}
use l4re_tmp_fs.Kernel.Main.{starts_with, strstr, rom, short_name, strncpy, object_name}

length-strncpy : (n : ℕ) (s : List ℕ) → length (strncpy n s) ≡ n
unfolding strncpy
length-strncpy n s = omega (
  arith,
  length-append (take n s) (replicate (n - length s) 0),
  length-take n s,
  length-replicate {A = ℕ} (n - length s) 0,
)

-- The string that is left when the last byte of what `strncpy` stores becomes the NUL.
c_string-strncpy :
    (n : ℕ) (s rest : List ℕ)
    → IsString s
    → c_string (take n (strncpy (suc n) s) ++ 0 ∷ rest) ≡ take n s
unfolding strncpy c_string
c_string-strncpy zero s rest h = refl
c_string-strncpy (suc n) [] rest h =
    ap (λ k. c_string (take (suc n) (replicate k 0) ++ 0 ∷ rest)) {y = suc (suc n)} (omega arith)
c_string-strncpy (suc n) (b ∷ s) rest h =
    ap (λ k. c_string (b ∷ (take n (take (suc n) s ++ replicate k 0) ++ 0 ∷ rest)))
      {y = suc n - length s} (omega arith)
    ∙ ground (arith, c_string-strncpy n s rest h.1)

IsString-drop : (n : ℕ) (s : List ℕ) → IsString s → IsString (drop n s)
IsString-drop zero s h = h
IsString-drop (suc n) [] h = tt
IsString-drop (suc n) (b ∷ s) h = IsString-drop n s h.1

IsString-found :
    (b : Bool) (s : List ℕ) (rest : Option (List ℕ)) {t : List ℕ}
    → (if b then some s else rest) ≡ some t
    → IsString s
    → (rest ≡ some t → IsString t)
    → IsString t
IsString-found true s rest {t = t} e h k = subst IsString (some-injective s t e) h
IsString-found false s rest e h k = k e

IsString-strstr :
    (s needle : List ℕ) {t : List ℕ} → IsString s → strstr s needle ≡ some t → IsString t
unfolding strstr
IsString-strstr [] needle h e =
    IsString-found (starts_with needle []) [] none e h (λ n. ground arith)
IsString-strstr (b ∷ s) needle h e =
    IsString-found (starts_with needle (b ∷ s)) (b ∷ s) (strstr s needle) e h
      (λ r. IsString-strstr s needle h.1 r)

short_name-IsString : (binary : List ℕ) → IsString binary → IsString (short_name binary)
unfolding short_name
short_name-IsString binary h = elim (Option-cases (strstr binary rom)) [
  | inl e ↦ rw (short_name, e) h
  | inr (t, e) ↦ rw (short_name, e) (IsString-drop 4 t (IsString-strstr binary rom h e))
]

-- The name of the object is a number sign and the first 13 characters of what stands behind "rom/" in the
-- path, or of the path, and the buffer of 15 bytes is not overrun.
pub object_name_lem :
    (binary junk : List ℕ)
    → IsString binary
    → length junk ≡ 15
    → (c_string (object_name binary junk) ≡ b'#' ∷ take 13 (short_name binary))
      × (length (object_name binary junk) ≡ 15)
unfolding object_name put_at c_string
object_name_lem binary junk h len =
    let name = short_name binary in
    let n = length-strncpy 14 name in
    let gone : drop (1 + length (strncpy 14 name)) (b'#' ∷ drop 1 junk) ≡ [] =
      drop_all (1 + length (strncpy 14 name)) (b'#' ∷ drop 1 junk)
        (omega (arith, n, length-drop 1 junk, len)) in
    rw (gone, append-nil (strncpy 14 name))
      (
        ap (◌∷◌ b'#')
            (c_string-strncpy 13 name (drop 14 (strncpy 14 name)) (short_name-IsString binary h)),
        omega (
          arith,
          n,
          length-append (take 13 (strncpy 14 name)) (0 ∷ drop 14 (strncpy 14 name)),
          length-take 13 (strncpy 14 name),
          length-drop 14 (strncpy 14 name),
        ),
      )
