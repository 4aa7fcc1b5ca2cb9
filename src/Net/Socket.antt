-- ===== src/Net/Socket.antt =====
-- dom0/dom0-main/server/src/tcp_socket.cc
pub mod Bounds
pub mod Stream
use l4re_tmp_fs.Base.{
  ℕ, ◌%◌, signed, zero, suc, ◌+◌, ◌-◌, Bool, true, false, List, [], ◌++◌, ℤ, pos, negsuc, neg,
  pos_part, ltb, if◌then◌else◌, length, drop,
}
use l4re_tmp_fs.Libfs.Svr.{Method}
use l4re_tmp_fs.Net.Os.{Os}

-- result < 1
abbrev pub below_one : ℤ → Bool
below_one (pos zero) = true
below_one (pos (suc n)) = false
below_one (negsuc n) = true

module _ {W : Type 0} (os : Os W) where
  -- A `position` is an ssize_t, kept as the word that it is stored in: it is compared with a size_t.
  abbrev word : ℕ → ℕ
  word n = n % os.size_mod

  -- The loop of `receiveData`, in at most the given number of rounds; `got` holds what was stored so
  -- far, and its length is `position`.
  receive_from : ℕ → ℕ → ℤ → List ℕ → Method W (ℤ × List ℕ)
  receive_from zero size fd got w = ((signed os.size_mod (length got), got), w)
  receive_from (suc rounds) size fd got w =
      let ((result, bytes), w') = os.read fd (size - word (length got)) w in
      let rest = receive_from rounds size fd (got ++ bytes) w' in
      if below_one result
      then ((neg (os.errno w'), got), w')
      else if ltb (word (length (got ++ bytes))) size
      then rest
      else ((signed os.size_mod (length (got ++ bytes)), got ++ bytes), w')

  -- A round that goes on has stored a byte, so that there are at most `size` rounds; one is made for
  -- no byte as well.
  unfoldable pub receive_data : ℕ → ℤ → Method W (ℤ × List ℕ)
  unfolding receive_from
  receive_data size fd = receive_from (suc size) size fd []

  unfoldable pub receive_int32 : ℤ → Method W (ℤ × ℤ)
  receive_int32 fd w =
      let ((result, bytes), w') = receive_data 4 fd w in ((result, os.decode bytes), w')

  -- The loop of `sendData`, from `position` on, for the size of the buffer.
  send_from : ℕ → ℤ → List ℕ → ℕ → Method W ℤ
  send_from zero fd buf position w = (signed os.size_mod position, w)
  send_from (suc rounds) fd buf position w =
      let (result, w') = os.write fd (drop position buf) w in
      let position' = word (position + pos_part result) in
      let rest = send_from rounds fd buf position' w' in
      if below_one result
      then (neg (os.errno w'), w')
      else if ltb position' (length buf)
      then rest
      else (signed os.size_mod position', w')

  unfoldable pub send_data : List ℕ → ℤ → Method W ℤ
  unfolding send_from
  send_data buf fd = send_from (suc (length buf)) fd buf 0

  unfoldable pub send_int32 : ℤ → ℤ → Method W ℤ
  send_int32 buf fd = send_data (os.encode buf) fd
