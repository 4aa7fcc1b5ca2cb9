-- ===== src/Net/Server/Binary.antt =====
-- `binaryConnectionHandler` of dom0/dom0-main/server/src/dom0_server.cc on a
-- connection that loses no byte. What is written to a file is `outgoing` at its descriptor.
use native.Mathlib.Nat.{mod-eq_of_lt}
use l4re_tmp_fs.Base.{
  ℕ, ◌+◌, ◌*◌, ◌%◌, ◌<◌, ◌≡◌, ◌≢◌, refl, sym, ap, ◌∙◌, List, [], ◌∷◌, ◌++◌, append_assoc, ℤ, pos,
  arith, true, length, length-append, take, drop, terminated, IsString, c_string, put_at,
  c_string-put_at_zero, to_word, take-append, drop-append,
}
use l4re_tmp_fs.Net.Os.{Os, int_mod}
use l4re_tmp_fs.Net.Socket.{receive_data, receive_int32, send_int32, send_data}
use l4re_tmp_fs.Net.Socket.Stream.{below_one_suc, Reliable, receive_data-append, send_data_stream}
use l4re_tmp_fs.Net.Server.{done, go_send, buf_len, receive_network_binary, binary_round}
use l4re_tmp_fs.Net.Server.Lua.{receive_int32_lem, frame}
use l4re_tmp_fs.Net.Server.Files.{receive_network_binary_lem}

-- Creating the file `path` gives the descriptor `file`, and leaves the connections alone.
abbrev pub Creates : {W : Type 0} (os : Os W) → Reliable os → List ℕ → ℤ → Type 0
Creates {W = W} os net path file =
    (w : W)
    → let r = os.create path w in
      (r.0 ≡ file)
      × ((fd : ℤ) → net.incoming fd r.1 ≡ net.incoming fd w)
      × ((fd : ℤ) → net.outgoing fd r.1 ≡ net.outgoing fd w)
      × (net.commands r.1 ≡ net.commands w)

-- The messages for a file: its name, its size, and its bytes.
abbrev pub file_frame : {W : Type 0} → Os W → List ℕ → List ℕ → List ℕ
file_frame os name elf = frame os name ++ (os.encode (pos (length elf)) ++ elf)

binary_round_step :
    {W : Type 0} (os : Os W) (file fd : ℤ) (path bytes buffer : List ℕ) (n m : ℕ) (w w6 : W)
    → (receive_int32 os fd w).0 ≡ (pos 4, pos n)
    → n % os.size_mod ≡ n
    → let w1 = (receive_int32 os fd w).1 in
      (receive_data os n fd w1).0 ≡ (pos n, bytes)
      → 0 < n
      → c_string (put_at 0 bytes buffer) ≡ path
      → let w2 = (receive_data os n fd w1).1 in
        (os.create path w2).0 ≡ file
        → let w3 = (os.create path w2).1 in
          (receive_int32 os fd w3).0 ≡ (pos 4, pos m)
          → m % os.size_mod ≡ m
          → let w4 = (receive_int32 os fd w3).1 in
            (send_data os (os.encode (pos go_send)) fd w4).0 ≡ pos 4
            → let w5 = (send_data os (os.encode (pos go_send)) fd w4).1 in
              receive_network_binary os file m fd w5 ≡ done (pos m, w6)
              → 0 < m
              → binary_round os fd buffer w ≡ done ((true, put_at 0 bytes buffer), w6)
unfolding binary_round to_word send_int32
binary_round_step os file fd path bytes buffer n m w w6 ret1 words ret2 n_pos got made ret4 words'
      ret5 runs m_pos =
    rw (binary_round, ret1, words, ret2, got, made, ret4, words', ret5, runs)
      (rw (below_one_suc n n_pos, below_one_suc m m_pos, ret1, words, ret2) refl)

-- A file that is sent is received: the handler creates the file of that name, answers GO_SEND, writes
-- exactly the bytes that were sent to the file, gives Ned no command, and goes on with what comes next.
-- Given that the name is a string that fits in the buffer, that the file is not empty and its size is an
-- `int`, and that the file is not the connection.
pub binary_round_lem :
    {W : Type 0} (os : Os W) (net : Reliable os) (file fd : ℤ) (name elf rest buffer : List ℕ)
    (w : W)
    → fd ≢ file
    → Creates os net name file
    → IsString name
    → length name < buf_len
    → 0 < length elf
    → 2 * length elf < int_mod
    → net.incoming fd w ≡ file_frame os name elf ++ rest
    → (w' : W) × (binary_round os fd buffer w
        ≡ done ((true, put_at 0 (terminated name) buffer), w'))
      × (net.incoming fd w' ≡ rest)
      × (net.outgoing file w' ≡ net.outgoing file w ++ elf)
      × (net.outgoing fd w' ≡ net.outgoing fd w ++ os.encode (pos go_send))
      × (net.commands w' ≡ net.commands w)
unfolding binary_round to_word send_int32
binary_round_lem os net file fd name elf rest buffer w apart creates h short some_byte small e =
    let n = length name + 1 in
    let behind : List ℕ = os.encode (pos (length elf)) ++ (elf ++ rest) in
    let e1 : net.incoming fd w ≡ os.encode (pos n) ++ (terminated name ++ behind) =
      e ∙ simp (append_assoc) in
    let (ret1, left1, silent1, same1) =
      receive_int32_lem os net fd (pos n) (terminated name ++ behind) w (omega arith, omega arith)
        e1 in
    let w1 = (receive_int32 os fd w).1 in
    let (ret2, left2, silent2, same2) =
      receive_data-append os net fd n (terminated name) behind w1 (length-append name (0 ∷ []))
        (omega arith) (omega (arith, os.int_le_size)) left1 in
    let w2 = (receive_data os n fd w1).1 in
    let (made, left3, silent3, same3) = creates w2 in
    let w3 = (os.create name w2).1 in
    let (ret4, left4, silent4, same4) =
      receive_int32_lem os net fd (pos (length elf)) (elf ++ rest) w3 (omega arith, omega arith)
        (left3 fd ∙ left2) in
    let w4 = (receive_int32 os fd w3).1 in
    let reply = os.encode (pos go_send) in
    let (ret5, sent) =
      send_data_stream os net fd reply w4 (omega (arith, os.length-encode (pos go_send)))
        (omega (arith, os.length-encode (pos go_send), os.int_le_size)) in
    let w5 = (send_data os reply fd w4).1 in
    let left5 : net.incoming fd w5 ≡ elf ++ rest = sent.2 fd ∙ left4 in
    let (w6, runs, (out, left6, others, same6)) =
      receive_network_binary_lem os net file fd apart (length elf) w5
        (omega (arith, ap length left5, length-append elf rest)) small in
    let words : n % os.size_mod ≡ n = mod-eq_of_lt (omega (arith, os.int_le_size)) in
    let words' : length elf % os.size_mod ≡ length elf =
      mod-eq_of_lt (omega (arith, os.int_le_size)) in
    let got : c_string (put_at 0 (terminated name) buffer) ≡ name =
      c_string-put_at_zero name buffer h in
    let len : length reply ≡ 4 = os.length-encode (pos go_send) in
    let bytes : take (length elf) (net.incoming fd w5) ≡ elf =
      ap (take (length elf)) left5 ∙ take-append elf rest in
    (
      w6,
      binary_round_step os file fd name (terminated name) buffer n (length elf) w w6 ret1 words ret2
          (omega arith) got made ret4 words' (ret5 ∙ ap pos len) runs some_byte,
      left6 ∙ ap (drop (length elf)) left5 ∙ drop-append elf rest,
      out
          ∙ ap (λ xs. net.outgoing file w5 ++ xs) bytes
          ∙ ap (λ xs. xs ++ elf)
              (sent.1 file (λ same. apart (sym same))
                ∙ silent4 file
                ∙ silent3 file
                ∙ silent2 file
                ∙ silent1 file),
      others fd apart
          ∙ sent.0
          ∙ ap (λ xs. xs ++ reply) (silent4 fd ∙ silent3 fd ∙ silent2 fd ∙ silent1 fd),
      same6 ∙ sent.3 ∙ same4 ∙ same3 ∙ same2 ∙ same1,
    )
