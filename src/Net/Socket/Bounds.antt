-- ===== src/Net/Socket/Bounds.antt =====
-- `receiveData` and `sendData` of dom0/dom0-main/server/src/tcp_socket.cc on every kind of connection.
use l4re_tmp_fs.Base.{
  ℕ, ◌%◌, ◌*◌, ◌∙◌, signed_small, zero, suc, ◌+◌, ◌-◌, ◌≤◌, ◌<◌, ◌≡◌, refl, ap, ◌⊎◌, inl, inr, List,
  [], ◌++◌, ℤ, pos, neg, ltb, ltb→lt, arith, false, Bool-cases, length, length-append, length-drop,
  drop,
}
use native.Mathlib.Nat.{mod-eq_of_lt}
use l4re_tmp_fs.Net.Os.{Os}
use l4re_tmp_fs.Net.Socket.{below_one, receive_from, receive_data, send_from, send_data}

-- Either all `size` bytes are there and their number is the result, or the result is -errno and a byte
-- is missing, or none was asked for.
abbrev pub Complete : {W : Type 0} → Os W → ℕ → (ℤ × List ℕ) × W → Type 0
Complete os size r =
    ((r.0.0 ≡ pos size) × (length r.0.1 ≡ size))
    ⊎ ((r.0.0 ≡ neg (os.errno r.1)) × (length r.0.1 ≤ size - 1))

below_one-false : (n : ℕ) → below_one (pos n) ≡ false → 0 < n
below_one-false n h = ground arith

-- A position that an ssize_t can hold is its own word.
pub word_lem : (m n size : ℕ) → 2 * size < m → n ≤ size → n % m ≡ n
word_lem m n size h le = mod-eq_of_lt (omega arith)

module _ {W : Type 0} (os : Os W) (fd : ℤ) where
  receive_from_lem :
      (rounds size : ℕ) (got : List ℕ) (w : W)
      → length got ≤ size - 1
      → size - length got < rounds
      → 2 * size < os.size_mod
      → Complete os size (receive_from os rounds size fd got w)
  unfolding receive_from
  receive_from_lem zero size got w short enough small = absurd (omega arith)
  receive_from_lem (suc rounds) size got w short enough small =
      let here = word_lem os.size_mod (length got) size small (omega arith) in
      elim (os.read_count fd (size - length got) w) [
        | inr (e, none) ↦ rw (here, e) (inr (refl, short))
        | inl (e, fits) ↦
            let r = os.read fd (size - length got) w in
            let bytes = r.0.1 in
            let total : length (got ++ bytes) ≡ length got + length bytes =
              length-append got bytes in
            elim (Bool-cases (below_one (pos (length bytes)))) [
              | inl ended ↦ rw (here, e, ended) (inr (refl, short))
              | inr some_byte ↦
                  let more : 0 < length bytes = below_one-false (length bytes) some_byte in
                  let there =
                    word_lem os.size_mod (length (got ++ bytes)) size small (omega arith) in
                  elim (Bool-cases (ltb (length (got ++ bytes)) size)) [
                    | inr all ↦
                        let whole : length (got ++ bytes) ≡ size = ground arith in
                        rw (here, e, some_byte, there, all)
                          (inl (
                            signed_small os.size_mod (length (got ++ bytes)) (omega arith)
                                ∙ ap pos whole,
                            whole,
                          ))
                    | inl open_end ↦
                        let ahead : length (got ++ bytes) < size = ltb→lt _ _ open_end in
                        rw (here, e, some_byte, there, open_end)
                          (receive_from_lem rounds size (got ++ bytes) r.1 (omega arith)
                            (omega arith) small)
                  ]
            ]
      ]

  -- `receiveData` ends in at most `size` rounds and returns either `size`, with all the bytes stored,
  -- or -errno: then a byte is missing, or no byte was asked for.
  pub receive_data_lem :
      (size : ℕ) (w : W) → 2 * size < os.size_mod → Complete os size (receive_data os size fd w)
  unfolding receive_data
  receive_data_lem size w small =
      receive_from_lem (suc size) size [] w (omega arith) (omega arith) small

  send_from_lem :
      (rounds position : ℕ) (buf : List ℕ) (w : W)
      → position ≤ length buf - 1
      → length buf - position < rounds
      → 2 * length buf < os.size_mod
      → let r = send_from os rounds fd buf position w in
        (r.0 ≡ pos (length buf)) ⊎ (r.0 ≡ neg (os.errno r.1))
  unfolding send_from
  send_from_lem zero position buf w short enough small = absurd (omega arith)
  send_from_lem (suc rounds) position buf w short enough small =
      let r = os.write fd (drop position buf) w in
      elim (os.write_count fd (drop position buf) w) [
        | inr e ↦ rw (e) (inr refl)
        | inl (k, e, fits) ↦
            let room : k ≤ length buf - position = omega (arith, fits, length-drop position buf) in
            elim (Bool-cases (below_one (pos k))) [
              | inl ended ↦ rw (e, ended) (inr refl)
              | inr some_byte ↦
                  let more : 0 < k = below_one-false k some_byte in
                  let there =
                    word_lem os.size_mod (position + k) (length buf) small (omega arith) in
                  elim (Bool-cases (ltb (position + k) (length buf))) [
                    | inr all ↦
                        let whole : position + k ≡ length buf = ground arith in
                        rw (e, some_byte, there, all)
                          (inl
                            (signed_small os.size_mod (position + k) (omega arith) ∙ ap pos whole))
                    | inl open_end ↦
                        let ahead : position + k < length buf = ltb→lt _ _ open_end in
                        rw (e, some_byte, there, open_end)
                          (send_from_lem rounds (position + k) buf r.1 (omega arith) (omega arith)
                            small)
                  ]
            ]
      ]

  -- `sendData` ends in at most as many rounds as there are bytes, and returns their number or -errno.
  pub send_data_lem :
      (buf : List ℕ) (w : W)
      → 2 * length buf < os.size_mod
      → let r = send_data os buf fd w in (r.0 ≡ pos (length buf)) ⊎ (r.0 ≡ neg (os.errno r.1))
  unfolding send_data
  send_data_lem buf w small =
      send_from_lem (suc (length buf)) 0 buf w (omega arith) (omega arith) small
