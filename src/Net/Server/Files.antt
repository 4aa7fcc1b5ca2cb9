-- ===== src/Net/Server/Files.antt =====
-- `receiveNetworkBinary` of dom0/dom0-main/server/src/dom0_server.cc on a
-- connection that loses no byte. What is written to a file is `outgoing` at its descriptor.
use native.Mathlib.Nat.{mod-eq_of_lt, add-mod_right}
use l4re_tmp_fs.Base.{
  ℕ, zero, suc, ◌+◌, ◌-◌, ◌*◌, ◌%◌, ◌<◌, ◌≤◌, ◌≡◌, ◌≢◌, refl, sym, subst, ap, ◌∙◌, List, [], ◌∷◌,
  ◌++◌, append-nil, ℤ, pos, arith, true, Bool-cases, inl, inr, ltb, ltb→lt, le→ltb, length,
  length-drop, length-take, take, drop, drop-drop, put_at, length-put_at, take-put_at_zero, to_word,
  if◌then◌else◌,
}
use l4re_tmp_fs.Libfs.Protocol.{max_rw_buffer_size}
use l4re_tmp_fs.Libfs.Connection.{to_int-to_word}
use l4re_tmp_fs.Libfs.Dispatch.{to_int}
use l4re_tmp_fs.Net.Os.{Os, int_mod}
use l4re_tmp_fs.Net.Socket.{receive_data}
use l4re_tmp_fs.Net.Socket.Stream.{chunks, drop_chunks, Reliable, receive_data_stream, Sent}
use l4re_tmp_fs.Net.Server.{done, write_all, receive_binary, receive_network_binary}

take-take : (k m : ℕ) (xs : List ℕ) → k ≤ m → take k (take m xs) ≡ take k xs
take-take zero m xs h = refl
take-take (suc k) zero xs h = absurd (omega arith)
take-take (suc k) (suc m) [] h = refl
take-take (suc k) (suc m) (x ∷ xs) h = ap (◌∷◌ x) (take-take k m xs (omega arith))

-- A first piece and the pieces behind it are the whole.
joined :
    (k m : ℕ) (out out1 out' input rest : List ℕ)
    → k ≤ m
    → rest ≡ drop k input
    → out1 ≡ out ++ take k input
    → out' ≡ out1 ++ take (m - k) rest
    → out' ≡ out ++ take m input
joined k m out out1 out' input rest le e f g =
    g ∙ ap (λ xs. xs ++ take (m - k) rest) f ∙ chunks k m out input rest le e

sum_small : (a k m : ℕ) → a + k < m → k < m → (a + k % m) % m ≡ a + k
sum_small a k m h l = ap (λ n. (a + n) % m) (mod-eq_of_lt l) ∙ mod-eq_of_lt h

less : (a k m : ℕ) → k ≤ a → a < m → (a + (m - k)) % m ≡ a - k
less a k m h l =
    subst (λ n. n % m ≡ a - k) (omega arith) (add-mod_right (a - k) m ∙ mod-eq_of_lt (omega arith))

module _ {W : Type 0} (os : Os W) (net : Reliable os) (file : ℤ) where
  -- The loop that writes a buffer to the file writes all of it.
  write_all_lem :
      (rounds received written : ℕ) (buffer : List ℕ) (w : W)
      → received ≤ length buffer
      → written ≤ received
      → received < os.size_mod
      → received - written < rounds
      → (w' : W) × (write_all os rounds file buffer received written w ≡ done w')
        × Sent net file (take (received - written) (drop written buffer)) w w'
  unfolding write_all to_word
  write_all_lem zero received written buffer w fits le small enough = absurd (omega arith)
  write_all_lem (suc rounds) received written buffer w fits le small enough =
      elim (Bool-cases (ltb written received)) [
        | inr end ↦
            let none_left : received - written ≡ 0 = ground arith in
            rw (end, none_left)
              (w, refl, (sym (append-nil (net.outgoing file w)), λ fd' ne. refl, λ fd'. refl, refl))
        | inl more ↦
            let m = received - written in
            let input = drop written buffer in
            let open_end : written < received = ltb→lt _ _ more in
            let len : length (take m input) ≡ m =
              omega (arith, length-take m input, length-drop written buffer) in
            let (k, some_byte, k_le, e, out, others, silent, same) =
              net.write_lem file (take m input) w (omega (arith, len)) in
            let w1 = (os.write file (take m input) w).1 in
            let k_le' : k ≤ m = omega (arith, len) in
            let sum : (written + k % os.size_mod) % os.size_mod ≡ written + k =
              sum_small written k os.size_mod (omega arith) (omega arith) in
            let (w', runs, later) =
              write_all_lem rounds received (written + k) buffer w1 fits (omega arith) small
                (omega arith) in
            let shift : received - (written + k) ≡ m - k = omega arith in
            rw (more, le→ltb (length buffer) received fits, e, sum)
              (
                w',
                runs,
                (
                  joined k m (net.outgoing file w) (net.outgoing file w1) (net.outgoing file w')
                      input (drop (written + k) buffer) k_le' (sym (drop-drop written k buffer))
                      (out ∙ ap (λ xs. net.outgoing file w ++ xs) (take-take k m input k_le'))
                      (later.0
                        ∙ ap (λ n. net.outgoing file w1 ++ take n (drop (written + k) buffer))
                            shift),
                  λ fd' ne. later.1 fd' ne ∙ others fd' ne,
                  λ fd'. later.2 fd' ∙ silent fd',
                  later.3 ∙ same,
                ),
              )
      ]

module _ {W : Type 0} (os : Os W) (net : Reliable os) (file fd : ℤ) (apart : fd ≢ file) where
  -- What was received on the connection has been written to the file.
  abbrev pub Moved : ℕ → W → W → Type 0
  Moved n w w' =
      (net.outgoing file w' ≡ net.outgoing file w ++ take n (net.incoming fd w))
      × (net.incoming fd w' ≡ drop n (net.incoming fd w))
      × ((fd' : ℤ) → fd' ≢ file → net.outgoing fd' w' ≡ net.outgoing fd' w)
      × (net.commands w' ≡ net.commands w)

  piece :
      (c : ℕ) (buffer : List ℕ) (w : W)
      → 0 < c
      → c ≤ length (net.incoming fd w)
      → c ≤ length buffer
      → c < os.size_mod
      → 2 * c < os.size_mod
      → let r = receive_data os c fd w in
        (r.0.0 ≡ pos c)
        × (length (put_at 0 r.0.1 buffer) ≡ length buffer)
        × (w' : W) × (write_all os (suc c) file (put_at 0 r.0.1 buffer) c 0 r.1 ≡ done w')
        × Moved c w w'
  piece c buffer w some_byte there fits small half =
      let (ret, (left, silent, same)) = receive_data_stream os net fd c w some_byte there half in
      let bytes = take c (net.incoming fd w) in
      let w1 = (receive_data os c fd w).1 in
      let len : length bytes ≡ c = omega (arith, length-take c (net.incoming fd w)) in
      let size : length (put_at 0 bytes buffer) ≡ length buffer =
        length-put_at 0 bytes buffer (omega arith) in
      let (w', runs, (out, others, quiet, same')) =
        write_all_lem os net file (suc c) c 0 (put_at 0 bytes buffer) w1 (omega arith) (omega arith)
          small (omega arith) in
      let all : take (c - 0) (put_at 0 bytes buffer) ≡ bytes =
        ap (λ n. take n (put_at 0 bytes buffer)) (omega arith) ∙ take-put_at_zero bytes buffer in
      rw ret (
        refl,
        size,
        w',
        runs,
        (
          out ∙ ap (λ xs. net.outgoing file w1 ++ xs) all ∙ ap (λ xs. xs ++ bytes) (silent file),
          quiet fd ∙ left,
          λ fd' ne. others fd' ne ∙ silent fd',
          same' ∙ same,
        ),
      )

  receive_binary_step :
      (rounds left c : ℕ) (buffer : List ℕ) (w w2 : W)
      → ltb 0 left ≡ true
      → (if ltb max_rw_buffer_size left then max_rw_buffer_size else left) ≡ c
      → (receive_data os c fd w).0.0 ≡ pos c
      → c % os.size_mod ≡ c
      → (left + (os.size_mod - c)) % os.size_mod ≡ left - c
      → let r = receive_data os c fd w in
        write_all os (suc c) file (put_at 0 r.0.1 buffer) c 0 r.1 ≡ done w2
        → receive_binary os (suc rounds) file fd buffer left w
          ≡ receive_binary os rounds file fd
              (put_at 0 (receive_data os c fd w).0.1 buffer)
              (left - c)
              w2
  unfolding receive_binary to_word
  receive_binary_step rounds left c buffer w w2 more chunk ret words rest runs =
      rw (receive_binary, more, chunk, ret, words, runs) (rw (chunk, ret, words, rest) refl)

  receive_binary_lem :
      (rounds left : ℕ) (buffer : List ℕ) (w : W)
      → length buffer ≡ max_rw_buffer_size
      → left ≤ length (net.incoming fd w)
      → left < os.size_mod
      → left < rounds
      → (w' : W) × (receive_binary os rounds file fd buffer left w ≡ done w') × Moved left w w'
  unfolding receive_binary
  receive_binary_lem zero left buffer w size there small enough = absurd (omega arith)
  receive_binary_lem (suc rounds) left buffer w size there small enough =
      elim (Bool-cases (ltb 0 left)) [
        | inr end ↦
            let none_left : left ≡ 0 = ground arith in
            rw (end, none_left)
              (w, refl, (sym (append-nil (net.outgoing file w)), refl, λ fd' ne. refl, refl))
        | inl more ↦
            let c : ℕ = if ltb max_rw_buffer_size left then max_rw_buffer_size else left in
            let some_byte : 0 < c = ground arith in
            let c_le : c ≤ left = ground arith in
            let c_fits : c ≤ max_rw_buffer_size = ground arith in
            let (ret, len, w2, runs, (out, moved, others, same)) =
              piece c buffer w some_byte (omega arith) (omega arith) (omega arith)
                (omega (arith, os.int_le_size)) in
            let buffer' = put_at 0 (receive_data os c fd w).0.1 buffer in
            let (w', runs', (out', moved', others', same')) =
              receive_binary_lem rounds (left - c) buffer' w2 (len ∙ size)
                (omega (arith, ap length moved, length-drop c (net.incoming fd w))) (omega arith)
                (omega arith) in
            (
              w',
              receive_binary_step rounds left c buffer w w2 more refl ret
                    (mod-eq_of_lt (omega arith)) (less left c os.size_mod c_le small) runs
                  ∙ runs',
              (
                joined c left (net.outgoing file w) (net.outgoing file w2) (net.outgoing file w')
                    (net.incoming fd w) (net.incoming fd w2) c_le moved out out',
                moved' ∙ drop_chunks c left (net.incoming fd w) (net.incoming fd w2) c_le moved,
                λ fd' ne. others' fd' ne ∙ others fd' ne,
                same' ∙ same,
              ),
            )
      ]

  pub receive_network_binary_lem :
      (size : ℕ) (w : W)
      → size ≤ length (net.incoming fd w)
      → 2 * size < int_mod
      → (w' : W) × (receive_network_binary os file size fd w ≡ done (pos size, w'))
        × Moved size w w'
  unfolding receive_network_binary to_word
  receive_network_binary_lem size w there small =
      let below : size < os.size_mod = omega (arith, os.int_le_size) in
      let (w', runs, moved) =
        receive_binary_lem (suc size) size (os.malloc max_rw_buffer_size) w
          (os.length-malloc max_rw_buffer_size) there below (omega arith) in
      let int : to_int os.size_mod size ≡ pos size =
        ap (to_int os.size_mod) (sym (mod-eq_of_lt below))
        ∙ to_int-to_word os.size_mod (pos size) (omega (arith, os.int_le_size), omega arith) in
      (w', rw (receive_network_binary, runs, int) refl, moved)
