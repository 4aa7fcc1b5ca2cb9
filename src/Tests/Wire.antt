-- ===== src/Tests/Wire.antt =====
-- A world with connections that lose no byte, whose reads give two bytes at most, and whose writes take
-- three. Ned accepts every command.
use l4re_tmp_fs.Base.{
  ℕ, zero, suc, ◌+◌, ◌*◌, ◌/◌, ◌%◌, ◌==◌, ◌≤◌, ◌<◌, ◌≡◌, ◌≢◌, refl, ap, ◌∙◌, inl, inr, Bool, true,
  false, Bool-cases, List, [], ◌∷◌, ◌++◌, ℤ, pos, negsuc, arith, to_word, if◌then◌else◌, length,
  take, drop, replicate, length-replicate, length-take, min,
}
use l4re_tmp_fs.Libfs.Dispatch.{to_int}
use l4re_tmp_fs.Libfs.Connection.{IsInt, to_int-to_word}
use l4re_tmp_fs.Net.Os.{Os, int_mod}
use l4re_tmp_fs.Net.Socket.Stream.{Reliable}

abbrev pub eqz : ℤ → ℤ → Bool
eqz (pos a) (pos b) = a == b
eqz (negsuc a) (negsuc b) = a == b
eqz _ _ = false

pub eqz_refl : (a : ℤ) → eqz a a ≡ true
eqz_refl (pos a) = ground arith
eqz_refl (negsuc a) = ground arith

pub eqz-false : (a b : ℤ) → a ≢ b → eqz a b ≡ false
eqz-false (pos a) (pos b) ne = elim (Bool-cases (a == b)) [
  | inl e ↦ let same : a ≡ b = ground arith in absurd (ne (ap pos same))
  | inr e ↦ e
]
eqz-false (negsuc a) (negsuc b) ne = elim (Bool-cases (a == b)) [
  | inl e ↦ let same : a ≡ b = ground arith in absurd (ne (ap negsuc same))
  | inr e ↦ e
]
eqz-false (pos a) (negsuc b) ne = refl
eqz-false (negsuc a) (pos b) ne = refl

pub record World : Type 0 where
  pub input : ℤ → List ℕ
  pub output : ℤ → List ℕ
  pub given : List (List ℕ)

abbrev update : ℤ → List ℕ → (ℤ → List ℕ) → ℤ → List ℕ
update fd bs f fd' = if eqz fd' fd then bs else f fd'

abbrev pub encode : ℤ → List ℕ
encode z =
    let n = to_word int_mod z in n % 256 ∷ (n / 256) % 256 ∷ (n / 65536) % 256 ∷ n / 16777216 ∷ []

abbrev pub decode : List ℕ → ℤ
decode (a ∷ b ∷ c ∷ d ∷ _) = to_int int_mod (a + 256 * b + 65536 * c + 16777216 * d)
decode _ = pos 0

digits :
    (n : ℕ)
    → n % 256 + 256 * ((n / 256) % 256) + 65536 * ((n / 65536) % 256) + 16777216 * (n / 16777216)
      ≡ n
digits n = omega arith

pub decode-encode : (z : ℤ) → IsInt int_mod z → decode (encode z) ≡ z
decode-encode z h = ap (to_int int_mod) (digits (to_word int_mod z)) ∙ to_int-to_word int_mod z h

abbrev read : ℤ → ℕ → World → (ℤ × List ℕ) × World
read fd n w =
    let bytes = take (min n 2) (w.input fd) in
    (
      (pos (length bytes), bytes),
      record w { input = update fd (drop (length bytes) (w.input fd)) w.input },
    )

abbrev write : ℤ → List ℕ → World → ℤ × World
write fd bs w =
    let bytes = take 3 bs in
    (pos (length bytes), record w { output = update fd (w.output fd ++ bytes) w.output })

pub read_fits : (n : ℕ) (xs : List ℕ) → length (take (min n 2) xs) ≤ n
read_fits n xs = omega (arith, length-take (min n 2) xs)

pub write_fits : (xs : List ℕ) → length (take 3 xs) ≤ length xs
write_fits xs = omega (arith, length-take 3 xs)

pub int_refl : int_mod ≤ int_mod
int_refl = omega arith

abbrev pub os : Os World
os = record {
  size_mod = int_mod;
  read = read;
  write = write;
  errno = λ w. 0;
  socket = λ w. (pos 4, w);
  connect = λ fd address port w. (pos 0, w);
  close = λ fd w. (tt, w);
  create = λ path w. (pos 9, w);
  malloc = λ n. replicate n 0;
  call = λ op n cmd w. ((pos 0, pos 17469453), record w { given = w.given ++ (cmd ∷ []) });
  encode = encode;
  decode = decode;
  int_le_size = int_refl;
  length-malloc = λ n. length-replicate n 0;
  length-encode = λ z. refl;
  decode-encode = decode-encode;
  read_count = λ fd n w. inl (refl, read_fits n (w.input fd));
  write_count = λ fd bs w. inl (length (take 3 bs), refl, write_fits bs);
}

pub take-length : (n : ℕ) (xs : List ℕ) → take (length (take n xs)) xs ≡ take n xs
take-length zero xs = refl
take-length (suc n) [] = refl
take-length (suc n) (x ∷ xs) = ap (λ t. x ∷ t) (take-length n xs)

pub some_read : (n : ℕ) (xs : List ℕ) → 0 < n → 0 < length xs → 0 < length (take (min n 2) xs)
some_read n xs h h' = omega (arith, length-take (min n 2) xs)

pub there_read : (n : ℕ) (xs : List ℕ) → length (take (min n 2) xs) ≤ length xs
there_read n xs = omega (arith, length-take (min n 2) xs)

pub some_write : (xs : List ℕ) → 0 < length xs → 0 < length (take 3 xs)
some_write xs h = omega (arith, length-take 3 xs)

abbrev pub net : Reliable os
net = record {
  incoming = λ fd w. w.input fd;
  outgoing = λ fd w. w.output fd;
  commands = λ w. w.given;
  read_lem = λ fd n w more there. (
    length (take (min n 2) (w.input fd)),
    some_read n (w.input fd) more there,
    read_fits n (w.input fd),
    there_read n (w.input fd),
    rw (take-length (min n 2) (w.input fd)) refl,
    rw (eqz_refl fd) refl,
    λ fd'. refl,
    refl,
  );
  write_lem = λ fd bs w more. (
    length (take 3 bs),
    some_write bs more,
    write_fits bs,
    refl,
    rw (eqz_refl fd, take-length 3 bs) refl,
    λ fd' ne. rw (eqz-false fd' fd ne) refl,
    λ fd'. refl,
    refl,
  );
}
