-- ===== src/Net/Remote/Requests.antt =====
-- `executeLuaString` of dom0/dom0-main/server/src/remote_dom0_instance.cc on a connection that loses no
-- byte.
use native.Mathlib.Nat.{mod-eq_of_lt}
use l4re_tmp_fs.Base.{
  ℕ, ◌+◌, ◌*◌, ◌%◌, ◌<◌, ◌≡◌, refl, ap, ◌∙◌, List, [], ◌∷◌, ◌++◌, append_assoc, ℤ, pos, arith,
  false, length, take, terminated, length-append, take_all, to_word,
}
use l4re_tmp_fs.Libfs.Connection.{IsInt, to_int-to_word}
use l4re_tmp_fs.Net.Os.{Os, int_mod}
use l4re_tmp_fs.Net.Socket.{send_int32, send_data}
use l4re_tmp_fs.Net.Socket.Stream.{Reliable, below_one_suc, send_data_stream}
use l4re_tmp_fs.Net.Remote.{
  RemoteDom0Instance, is_disabled, execute_lua_bytes, execute_lua_string, to_int32,
}
use l4re_tmp_fs.Net.Server.Lua.{frame, receive_int32_lem}

pub to_int32_lem : (n : ℕ) → 2 * n < int_mod → to_int32 n ≡ pos n
unfolding to_word
to_int32_lem n small = to_int-to_word int_mod (pos n) (small, omega arith)

-- A command goes out as the one message that the other side's handler reads, and the result is the
-- number that the other side answers with: given that the socket is not disabled, that the command's
-- size is an `int32_t`, and that the answer is there.
pub execute_lua_string_lem :
    {W : Type 0} (os : Os W) (net : Reliable os) (i : RemoteDom0Instance) (cmd rest : List ℕ)
    (z : ℤ) (w : W)
    → is_disabled i.lua_socket ≡ false
    → 2 * (length cmd + 1) < int_mod
    → IsInt int_mod z
    → let fd = i.lua_socket.target_socket in
      net.incoming fd w ≡ os.encode z ++ rest
      → let fd = i.lua_socket.target_socket in
        let r = execute_lua_string os i cmd w in
        (r.0 ≡ z)
        × (net.outgoing fd r.1 ≡ net.outgoing fd w ++ frame os cmd)
        × (net.incoming fd r.1 ≡ rest)
unfolding execute_lua_string execute_lua_bytes send_int32 to_word
execute_lua_string_lem os net i cmd rest z w enabled small int e =
    let fd = i.lua_socket.target_socket in
    let n = length cmd + 1 in
    let all = terminated cmd in
    let len : length all ≡ n = length-append cmd (0 ∷ []) in
    let words : n % os.size_mod ≡ n = mod-eq_of_lt (omega (arith, os.int_le_size)) in
    let whole : take n all ≡ all = take_all n all (omega (arith, len)) in
    let size_len : length (os.encode (pos n)) ≡ 4 = os.length-encode (pos n) in
    let (ret1, sent1) =
      send_data_stream os net fd (os.encode (pos n)) w (omega (arith, size_len))
        (omega (arith, size_len, os.int_le_size)) in
    let w1 = (send_data os (os.encode (pos n)) fd w).1 in
    let (ret2, sent2) =
      send_data_stream os net fd all w1 (omega (arith, len)) (omega (arith, len, os.int_le_size)) in
    let w2 = (send_data os all fd w1).1 in
    let (ret3, left, silent, _) =
      receive_int32_lem os net fd z rest w2 int (sent2.2 fd ∙ sent1.2 fd ∙ e) in
    rw
      (
        enabled,
        to_int32_lem n small,
        ret1,
        size_len,
        words,
        whole,
        ret2,
        len,
        below_one_suc n (omega arith),
        ret3,
      )
      (
        refl,
        silent fd
            ∙ sent2.0
            ∙ ap (λ xs. xs ++ all) sent1.0
            ∙ append_assoc (net.outgoing fd w) (os.encode (pos n)) all,
        left,
      )
