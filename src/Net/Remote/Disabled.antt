-- ===== src/Net/Remote/Disabled.antt =====
-- Sockets with port 0, and the end of a connection, in
-- dom0/dom0-main/server/src/remote_dom0_instance.cc.
use l4re_tmp_fs.Base.{ℕ, ◌≡◌, refl, ◌∙◌, Bool, to_word, List, pos, true, false}
use l4re_tmp_fs.Libfs.Dispatch.{to_int}
use l4re_tmp_fs.Net.Os.{Os}
use l4re_tmp_fs.Net.Remote.{
  RemoteDom0Instance, TcpClientSocket, bit_and, common_bits, is_disabled, connect_socket,
  disconnect_socket, connect, disconnect, execute_lua_string, execute_lua_bytes,
  send_elf_binary_from_memory,
}

bit_and_one : bit_and (pos 1) (pos 1) ≡ pos 1
unfolding bit_and common_bits to_int to_word
bit_and_one = refl

is_disabled-connected :
    (s : TcpClientSocket) (b : Bool) → is_disabled (record s { connected = b }) ≡ is_disabled s
unfolding is_disabled
is_disabled-connected s b = refl

module _ {W : Type 0} (os : Os W) (i : RemoteDom0Instance) (w : W) where
  connect_disabled :
      (s : TcpClientSocket) (v : W) → is_disabled s ≡ true → connect_socket os s v ≡ ((pos 1, s), v)
  unfolding connect_socket
  connect_disabled s v e = rw e refl

  disconnect_disabled :
      (s : TcpClientSocket) (v : W)
      → is_disabled s ≡ true
      → disconnect_socket os s v ≡ ((pos 1, s), v)
  unfolding disconnect_socket
  disconnect_disabled s v e = rw e refl

  -- With both ports 0 no operation touches the network: connecting and disconnecting succeed, and
  -- requests return 0.
  pub disabled_lem :
      (cmd memory name : List ℕ) (size : ℕ)
      → is_disabled i.lua_socket ≡ true
      → is_disabled i.binary_socket ≡ true
      → (connect os i w ≡ ((pos 1, i), w))
        × (disconnect os i w ≡ ((pos 1, i), w))
        × (execute_lua_string os i cmd w ≡ (pos 0, w))
        × (send_elf_binary_from_memory os i memory size name w ≡ (pos 0, w))
  unfolding connect disconnect execute_lua_string execute_lua_bytes send_elf_binary_from_memory
  disabled_lem cmd memory name size lua binary =
      let one = connect_disabled i.lua_socket w lua in
      let two = connect_disabled i.binary_socket w binary in
      let off = disconnect_disabled i.binary_socket w binary in
      (
        rw (one, two, bit_and_one) refl,
        rw (off, off, bit_and_one) refl,
        rw lua refl,
        rw binary refl,
      )

  -- `disconnect` closes the binary connection's socket twice and the LUA connection's not at all, which
  -- stays as it was; it returns 1.
  pub disconnect_lem :
      is_disabled i.binary_socket ≡ false
      → let fd = i.binary_socket.target_socket in
        let r = disconnect os i w in
        (r.0.0 ≡ pos 1)
        × (r.1 ≡ (os.close fd (os.close fd w).1).1)
        × (r.0.1.lua_socket ≡ i.lua_socket)
  unfolding disconnect disconnect_socket
  disconnect_lem enabled =
      rw (enabled, is_disabled-connected i.binary_socket false ∙ enabled, bit_and_one)
        (refl, refl, refl)
