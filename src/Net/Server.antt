-- ===== src/Net/Server.antt =====
-- The side that listens: dom0/dom0-main/server/src/dom0_server.cc and lua_ipc_client.cc
pub mod Lua
pub mod Files
pub mod Binary
use l4re_tmp_fs.Base.{
  ℕ, zero, suc, ◌+◌, ◌-◌, ◌%◌, ◌==◌, Bool, true, false, not, List, [], ◌∷◌, Option, none, some, ℤ,
  pos, negsuc, is_zero, to_word, ltb, if◌then◌else◌, length, take, drop, put_at, c_string,
}
use l4re_tmp_fs.Libfs.Protocol.{max_rw_buffer_size}
use l4re_tmp_fs.Libfs.Svr.{Method}
use l4re_tmp_fs.Libfs.Dispatch.{to_int}
use l4re_tmp_fs.Net.Os.{Os}
use l4re_tmp_fs.Net.Socket.{below_one, receive_data, receive_int32, send_int32}

abbrev pub lua_ok : ℕ
lua_ok = 17469453

abbrev pub lua_error : ℕ
lua_error = 1092525

abbrev pub go_send : ℕ
go_send = 144

abbrev pub buf_len : ℕ
buf_len = 1024

abbrev pub execute_lua_line : ℕ
execute_lua_line = 0

-- Where a loop of a handler has come to: its end, a write that reads behind the end of the buffer, or
-- the last of the rounds that it was given.
pub data Outcome (A : Type 0) : Type 0 where
  done : A → Outcome A
  out_of_bounds out_of_rounds : Outcome A

module _ {W : Type 0} (os : Os W) where
  -- LuaIpcClient::executeString
  unfoldable pub execute_string : List ℕ → Method W Bool
  execute_string cmd w =
      let ((err, result), w') = os.call execute_lua_line (length cmd + 1) cmd w in
      (
        (if is_zero err then (elim result [ pos n ↦ n == lua_ok | negsuc _ ↦ false ]) else false),
        w',
      )

  -- One round of `luaConnectionHandler`: whether there is another one, and the buffer.
  unfoldable pub lua_round : ℤ → List ℕ → Method W (Bool × List ℕ)
  lua_round fd buffer w =
      let ((size_ret, message), w1) = receive_int32 os fd w in
      let ((ret, bytes), w2) = receive_data os (to_word os.size_mod message) fd w1 in
      let buffer' = put_at 0 bytes buffer in
      let (executed, w3) = execute_string (c_string buffer') w2 in
      let (sent, w4) = send_int32 os (pos (if executed then lua_ok else lua_error)) fd w3 in
      if below_one size_ret
      then ((false, buffer), w1)
      else if below_one ret
      then ((false, buffer'), w2)
      else ((not (below_one sent), buffer'), w4)

  -- The handler in at most so many rounds.
  unfoldable pub lua_connection_handler : ℕ → ℤ → List ℕ → W → Outcome W
  lua_connection_handler zero fd buffer w = out_of_rounds
  lua_connection_handler (suc rounds) fd buffer w =
      let ((more, buffer'), w') = lua_round fd buffer w in
      let rest = lua_connection_handler rounds fd buffer' w' in
      if more then rest else done (os.close fd w').1

  -- while (written < received) written += write(fd, rwBuffer + written, received - written);
  write_all : ℕ → ℤ → List ℕ → ℕ → ℕ → W → Outcome W
  write_all zero fd rw_buffer received written w = out_of_rounds
  write_all (suc rounds) fd rw_buffer received written w =
      let (ret, w') = os.write fd (take (received - written) (drop written rw_buffer)) w in
      let rest =
        write_all rounds fd rw_buffer received ((written + to_word os.size_mod ret) % os.size_mod)
          w' in
      if ltb written received
      then if ltb (length rw_buffer) received then out_of_bounds else rest
      else done w

  -- The loop of `receiveNetworkBinary`. Each of the loops has as many rounds as there are bytes left,
  -- and one to see the end.
  receive_binary : ℕ → ℤ → ℤ → List ℕ → ℕ → W → Outcome W
  receive_binary zero file fd rw_buffer left w = out_of_rounds
  receive_binary (suc rounds) file fd rw_buffer left w =
      let chunk = if ltb max_rw_buffer_size left then max_rw_buffer_size else left in
      let ((ret, bytes), w1) = receive_data os chunk fd w in
      let received = to_word os.size_mod ret in
      let left' = (left + (os.size_mod - received)) % os.size_mod in
      let buffer' = put_at 0 bytes rw_buffer in
      let next = λ (w2 : W). receive_binary rounds file fd buffer' left' w2 in
      if ltb 0 left
      then elim (write_all (suc received) file buffer' received 0 w1) [
        | done w2 ↦ next w2
        | out_of_bounds ↦ out_of_bounds
        | out_of_rounds ↦ out_of_rounds
      ]
      else done w

  -- The size is returned as an `ssize_t`.
  unfoldable pub receive_network_binary : ℤ → ℕ → ℤ → W → Outcome (ℤ × W)
  unfolding receive_binary write_all
  receive_network_binary file size fd w =
      elim (receive_binary (suc size) file fd (os.malloc max_rw_buffer_size) size w) [
        | done w' ↦ done (to_int os.size_mod size, w')
        | out_of_bounds ↦ out_of_bounds
        | out_of_rounds ↦ out_of_rounds
      ]

  -- One round of `binaryConnectionHandler`, as `lua_round`.
  unfoldable pub binary_round : ℤ → List ℕ → W → Outcome ((Bool × List ℕ) × W)
  binary_round fd buffer w =
      let ((size_ret, message), w1) = receive_int32 os fd w in
      let ((ret, bytes), w2) = receive_data os (to_word os.size_mod message) fd w1 in
      let buffer' = put_at 0 bytes buffer in
      let (file, w3) = os.create (c_string buffer') w2 in
      let ((len_ret, len), w4) = receive_int32 os fd w3 in
      let (sent, w5) = send_int32 os (pos go_send) fd w4 in
      let received = receive_network_binary file (to_word os.size_mod len) fd w5 in
      if below_one size_ret
      then done ((false, buffer), w1)
      else if below_one ret
      then done ((false, buffer'), w2)
      else if below_one len_ret
      then done ((false, buffer'), w4)
      else if below_one sent
      then done ((false, buffer'), w5)
      else elim received [
        | done r ↦ done ((not (below_one r.0), buffer'), r.1)
        | out_of_bounds ↦ out_of_bounds
        | out_of_rounds ↦ out_of_rounds
      ]

  unfoldable pub binary_connection_handler : ℕ → ℤ → List ℕ → W → Outcome W
  binary_connection_handler zero fd buffer w = out_of_rounds
  binary_connection_handler (suc rounds) fd buffer w =
      let next = λ (r : (Bool × List ℕ) × W). binary_connection_handler rounds fd r.0.1 r.1 in
      elim (binary_round fd buffer w) [
        | done r ↦ if r.0.0 then next r else done (os.close fd r.1).1
        | out_of_bounds ↦ out_of_bounds
        | out_of_rounds ↦ out_of_rounds
      ]
