-- ===== src/Net/Server/Lua.antt =====
-- `luaConnectionHandler` of dom0/dom0-main/server/src/dom0_server.cc on a connection that loses no byte.
use native.Mathlib.Nat.{mod-eq_of_lt}
use l4re_tmp_fs.Base.{
  ℕ, suc, ◌+◌, ◌<◌, ◌≡◌, refl, sym, ap, ◌∙◌, List, [], ◌∷◌, ◌++◌, append_assoc, append-nil, ℤ, pos,
  arith, true, false, Bool, length, length-append, terminated, IsString, c_string, put_at,
  c_string-put_at_zero, to_word, if◌then◌else◌,
}
use l4re_tmp_fs.Libfs.Connection.{IsInt}
use l4re_tmp_fs.Net.Os.{Os, int_mod}
use l4re_tmp_fs.Net.Socket.{receive_data, receive_int32, send_int32}
use l4re_tmp_fs.Net.Socket.Stream.{
  below_one_suc, Reliable, receive_data-append, receive_data_end, Ends, send_data_stream,
}
use l4re_tmp_fs.Net.Server.{
  done, lua_ok, lua_error, buf_len, execute_string, lua_round, lua_connection_handler,
}

-- A message: its size with its NUL as an `int32_t`, and its bytes.
abbrev pub frame : {W : Type 0} → Os W → List ℕ → List ℕ
frame os cmd = os.encode (pos (length cmd + 1)) ++ terminated cmd

module _ {W : Type 0} (os : Os W) (net : Reliable os) (fd : ℤ) where
  -- A number that was sent is received.
  pub receive_int32_lem :
      (z : ℤ) (rest : List ℕ) (w : W)
      → IsInt int_mod z
      → net.incoming fd w ≡ os.encode z ++ rest
      → let r = receive_int32 os fd w in
        (r.0 ≡ (pos 4, z))
        × (net.incoming fd r.1 ≡ rest)
        × ((fd' : ℤ) → net.outgoing fd' r.1 ≡ net.outgoing fd' w)
        × (net.commands r.1 ≡ net.commands w)
  unfolding receive_int32
  receive_int32_lem z rest w int e =
      let (ret, left, silent, same) =
        receive_data-append os net fd 4 (os.encode z) rest w (os.length-encode z) (omega arith)
          (omega (arith, os.int_le_size)) e in
      (rw (ret, os.decode-encode z int) refl, left, silent, same)

-- The messages for a list of commands, one after the other.
abbrev pub frames : {W : Type 0} → Os W → List (List ℕ) → List ℕ
frames os [] = []
frames os (cmd ∷ cmds) = frame os cmd ++ frames os cmds

abbrev pub AllShort : List (List ℕ) → Type 0
AllShort [] = Unit {0}
AllShort (cmd ∷ cmds) = IsString cmd × (length cmd < buf_len) × AllShort cmds

-- What Ned does with a request: it notes the command, and leaves the connections alone.
abbrev pub Notes : {W : Type 0} (os : Os W) → Reliable os → Type 0
Notes {W = W} os net =
    (cmd : List ℕ) (w : W)
    → let r = execute_string os cmd w in
      (net.commands r.1 ≡ net.commands w ++ (cmd ∷ []))
      × ((fd : ℤ) → net.incoming fd r.1 ≡ net.incoming fd w)
      × ((fd : ℤ) → net.outgoing fd r.1 ≡ net.outgoing fd w)

abbrev pub answer : Bool → ℤ
answer executed = pos (if executed then lua_ok else lua_error)

module _ {W : Type 0} (os : Os W) (net : Reliable os) (notes : Notes os net) (fd : ℤ) where
  -- A message whose command is a string that fits in the buffer makes one round: Ned is given exactly
  -- the command, one answer, LUA_OK or LUA_ERROR, goes back, and the next message is next.
  pub lua_round_lem :
      (cmd rest buffer : List ℕ) (w : W)
      → IsString cmd
      → length cmd < buf_len
      → net.incoming fd w ≡ frame os cmd ++ rest
      → let r = lua_round os fd buffer w in
        (r.0.0 ≡ true)
        × (net.incoming fd r.1 ≡ rest)
        × (net.commands r.1 ≡ net.commands w ++ (cmd ∷ []))
        × ((executed : Bool) × (net.outgoing fd r.1
              ≡ net.outgoing fd w ++ os.encode (answer executed)))
  unfolding lua_round to_word send_int32
  lua_round_lem cmd rest buffer w h short e =
      let n = length cmd + 1 in
      let (size_ret, left1, silent1, same1) =
        receive_int32_lem os net fd (pos n) (terminated cmd ++ rest) w (omega arith, omega arith)
          (e ∙ append_assoc (os.encode (pos n)) (terminated cmd) rest) in
      let w1 = (receive_int32 os fd w).1 in
      let (ret, left2, silent2, same2) =
        receive_data-append os net fd n (terminated cmd) rest w1 (length-append cmd (0 ∷ []))
          (omega arith) (omega (arith, os.int_le_size)) left1 in
      let w2 = (receive_data os n fd w1).1 in
      let (noted, left3, silent3) = notes cmd w2 in
      let executed = (execute_string os cmd w2).0 in
      let w3 = (execute_string os cmd w2).1 in
      let reply = os.encode (answer executed) in
      let (sent_ret, sent) =
        send_data_stream os net fd reply w3 (omega (arith, os.length-encode (answer executed)))
          (omega (arith, os.length-encode (answer executed), os.int_le_size)) in
      let words : to_word os.size_mod (pos n) ≡ n = mod-eq_of_lt (omega (arith, os.int_le_size)) in
      let got : c_string (put_at 0 (terminated cmd) buffer) ≡ cmd =
        c_string-put_at_zero cmd buffer h in
      let len : length reply ≡ 4 = os.length-encode (answer executed) in
      rw (size_ret, words, ret, got, below_one_suc n (omega arith), sent_ret, len)
        (
          refl,
          sent.2 fd ∙ left3 fd ∙ left2,
          sent.3 ∙ noted ∙ ap (λ xs. xs ++ (cmd ∷ [])) (same2 ∙ same1),
          (executed, sent.0 ∙ ap (λ xs. xs ++ reply) (silent3 fd ∙ silent2 fd ∙ silent1 fd)),
        )

  lua_round_end :
      (buffer : List ℕ) (w : W)
      → Ends net fd
      → net.incoming fd w ≡ []
      → let r = lua_round os fd buffer w in (r.0.0 ≡ false) × (net.commands r.1 ≡ net.commands w)
  unfolding lua_round receive_int32
  lua_round_end buffer w ends e =
      let (stop, same) = receive_data_end os net fd 4 w ends e in rw stop (refl, same)

  -- A connection that brings a list of commands and then ends is served to its end: Ned is given these
  -- commands, in their order, and the handler returns. Given that the commands are strings that fit in
  -- the buffer, and that closing a socket gives Ned no command.
  pub lua_connection_handler_lem :
      (cmds : List (List ℕ)) (buffer : List ℕ) (w : W)
      → Ends net fd
      → ((v : W) → net.commands (os.close fd v).1 ≡ net.commands v)
      → AllShort cmds
      → net.incoming fd w ≡ frames os cmds
      → (w' : W) × (lua_connection_handler os (suc (length cmds)) fd buffer w ≡ done w')
        × (net.commands w' ≡ net.commands w ++ cmds)
  unfolding lua_connection_handler
  lua_connection_handler_lem [] buffer w ends quiet tt e =
      let (stop, same) = lua_round_end buffer w ends e in
      let w' = (lua_round os fd buffer w).1 in
      rw stop ((os.close fd w').1, refl, quiet w' ∙ same ∙ sym (append-nil (net.commands w)))
  lua_connection_handler_lem (cmd ∷ cmds) buffer w ends quiet (h, short, all) e =
      let r = lua_round os fd buffer w in
      let (more, left, noted, _) = lua_round_lem cmd (frames os cmds) buffer w h short e in
      let (w', runs, given) = lua_connection_handler_lem cmds r.0.1 r.1 ends quiet all left in
      rw more (
        w',
        runs,
        given ∙ ap (λ xs. xs ++ cmds) noted ∙ append_assoc (net.commands w) (cmd ∷ []) cmds,
      )
