-- ===== src/Net/Remote.antt =====
-- The side that sends: dom0/dom0-main/server/src/tcp_client_socket.cc and remote_dom0_instance.cc
pub mod Disabled
pub mod Requests
use l4re_tmp_fs.Base.{
  ℕ, zero, suc, ◌*◌, ◌/◌, ◌%◌, ◌&&◌, ◌+◌, ◌==◌, Bool, true, false, not, List, [], ◌∷◌, ℤ, pos, neg,
  negsuc, is_neg, is_zero, to_word, if◌then◌else◌, length, terminated, take,
}
use l4re_tmp_fs.Libfs.Svr.{Method}
use l4re_tmp_fs.Libfs.Dispatch.{to_int}
use l4re_tmp_fs.Net.Os.{Os, int_mod}
use l4re_tmp_fs.Net.Socket.{below_one, receive_int32, send_data, send_int32}

-- TcpClientSocket, with the port in the machine's byte order: `ntohs` undoes `htons`.
pub record TcpClientSocket : Type 0 where
  pub address : ℕ
  pub port : ℕ
  pub target_socket : ℤ
  pub connected : Bool

pub record RemoteDom0Instance : Type 0 where
  pub lua_socket : TcpClientSocket
  pub binary_socket : TcpClientSocket

-- The port is cut to 16 bits; the socket is what the object's memory held.
unfoldable pub new_socket : ℕ → ℤ → ℤ → TcpClientSocket
new_socket address port memory = record {
  address = address;
  port = to_word 65536 port;
  target_socket = memory;
  connected = false;
}

unfoldable pub is_disabled : TcpClientSocket → Bool
is_disabled s = s.port == 0

-- `memory` is what the two uninitialised sockets hold.
unfoldable pub new_instance : ℕ → ℤ → ℤ → ℤ × ℤ → RemoteDom0Instance
unfolding new_socket
new_instance address lua_port binary_port memory = record {
  lua_socket = new_socket address lua_port memory.0;
  binary_socket = new_socket address binary_port memory.1;
}

-- The lowest bits that two numbers have in common.
common_bits : ℕ → ℕ → ℕ → ℕ
common_bits zero a b = 0
common_bits (suc n) a b =
    2 * common_bits n (a / 2) (b / 2) + (if (a % 2 == 1) && (b % 2 == 1) then 1 else 0)

-- The operator `&` on two `int`s.
unfoldable pub bit_and : ℤ → ℤ → ℤ
unfolding common_bits
bit_and a b = to_int int_mod (common_bits 32 (to_word int_mod a) (to_word int_mod b))

-- The conversion of a `size_t` to an `int32_t`.
abbrev pub to_int32 : ℕ → ℤ
to_int32 n = to_int int_mod (n % int_mod)

module _ {W : Type 0} (os : Os W) where
  unfoldable pub connect_socket : TcpClientSocket → Method W (ℤ × TcpClientSocket)
  connect_socket s w =
      let (fd, w') = os.socket w in
      let (ret, w'') = os.connect fd s.address s.port w' in
      if is_disabled s
      then ((pos 1, s), w)
      else if is_zero ret
      then ((pos 1, record s { target_socket = fd; connected = true }), w'')
      else ((neg (os.errno w''), record s { target_socket = fd }), w'')

  unfoldable pub disconnect_socket : TcpClientSocket → Method W (ℤ × TcpClientSocket)
  disconnect_socket s w =
      if is_disabled s
      then ((pos 1, s), w)
      else ((pos 1, record s { connected = false }), (os.close s.target_socket w).1)

  unfoldable pub connect : RemoteDom0Instance → Method W (ℤ × RemoteDom0Instance)
  connect i w =
      let ((a, lua), w') = connect_socket i.lua_socket w in
      let ((b, binary), w'') = connect_socket i.binary_socket w' in
      ((bit_and a b, record { lua_socket = lua; binary_socket = binary }), w'')

  unfoldable pub disconnect : RemoteDom0Instance → Method W (ℤ × RemoteDom0Instance)
  disconnect i w =
      let ((a, binary), w') = disconnect_socket i.binary_socket w in
      let ((b, binary'), w'') = disconnect_socket binary w' in
      ((bit_and a b, record i { binary_socket = binary' }), w'')

  -- if (... < 1) return -errno;
  abbrev checked : {A : Type 0} → Method W (ℤ × A) → (A → Method W ℤ) → Method W ℤ
  checked m k w =
      let ((ret, a), w') = m w in if below_one ret then (neg (os.errno w'), w') else k a w'

  abbrev alone : Method W ℤ → Method W (ℤ × Unit {0})
  alone m w = (((m w).0, tt), (m w).1)

  -- `string` is the memory from the pointer on, which holds `size` bytes at least.
  unfoldable pub execute_lua_bytes : RemoteDom0Instance → List ℕ → ℤ → Method W ℤ
  execute_lua_bytes i string size w =
      let fd = i.lua_socket.target_socket in
      let sent = checked (alone (send_int32 os size fd)) (λ _.
        checked (alone (send_data os (take (to_word os.size_mod size) string) fd))
          (λ _. checked (receive_int32 os fd) (λ result w'. (result, w')))) in
      if is_disabled i.lua_socket then (pos 0, w) else sent w

  unfoldable pub execute_lua_string : RemoteDom0Instance → List ℕ → Method W ℤ
  execute_lua_string i string =
      execute_lua_bytes i (terminated string) (to_int32 (length string + 1))

  -- `memory` is the memory from the pointer on, which holds `size` bytes at least.
  unfoldable pub send_elf_binary_from_memory : RemoteDom0Instance → List ℕ → ℕ → List ℕ → Method W ℤ
  send_elf_binary_from_memory i memory size remote_filename w =
      let fd = i.binary_socket.target_socket in
      let elf = take (to_word os.size_mod (to_int32 size)) memory in
      let sent = checked (alone (send_int32 os (to_int32 (length remote_filename + 1)) fd)) (λ _.
        checked (alone (send_data os (terminated remote_filename) fd)) (λ _.
          checked (alone (send_int32 os (to_int32 size) fd)) (λ _.
            checked (receive_int32 os fd)
              (λ _. checked (alone (send_data os elf fd)) (λ _ w'. (to_int32 size, w')))))) in
      if is_disabled i.binary_socket then (pos 0, w) else sent w
