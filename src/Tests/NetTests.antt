-- ===== src/Tests/NetTests.antt =====
-- The theorems on dom0/dom0-main, applied.
use l4re_tmp_fs.Base.{
  ℕ, ◌≡◌, refl, List, take_nil, min, [], ◌∷◌, arith, true, false, ℤ, pos, some, length, ◌≢◌,
  replicate, put_at, IsString,
}
use l4re_tmp_fs.Net.Socket.{receive_data, send_data}
use l4re_tmp_fs.Net.Socket.Stream.{Ends, receive_data_stream, send_data_stream}
use l4re_tmp_fs.Net.Remote.{RemoteDom0Instance, TcpClientSocket, is_disabled, execute_lua_string}
use l4re_tmp_fs.Net.Remote.Requests.{execute_lua_string_lem}
use l4re_tmp_fs.Net.Server.{done, execute_string, lua_connection_handler}
use l4re_tmp_fs.Net.Server.Lua.{Notes, frames, lua_connection_handler_lem}
use l4re_tmp_fs.Net.Server.{binary_round}
use l4re_tmp_fs.Net.Server.Binary.{file_frame, binary_round_lem}
use l4re_tmp_fs.Net.Rom.{Stdio, send_elf_binary_from_rom}
use l4re_tmp_fs.Net.Rom.Sending.{send_elf_binary_from_rom_lem}
use l4re_tmp_fs.Net.Listen
use l4re_tmp_fs.Net.Listen.{ServerArgs}
use l4re_tmp_fs.Net.Options
use l4re_tmp_fs.Net.Options.{Parsers, Config, configure, configure-Complete}
use l4re_tmp_fs.Tests.Wire.{World, os, net, encode}

abbrev fd : ℤ
fd = pos 4

abbrev ls : List ℕ
ls = b'l' ∷ b's' ∷ []

abbrev quit : List ℕ
quit = b'q' ∷ []

abbrev quiet : ℤ → List ℕ
quiet fd' = []

-- The world in which these bytes are to come.
abbrev before : List ℕ → World
before bs = record { input = λ fd'. bs; output = quiet; given = [] }

receive_data_stream_example :
    (receive_data os 3 fd (before (1 ∷ 2 ∷ 3 ∷ 4 ∷ []))).0 ≡ (pos 3, 1 ∷ 2 ∷ 3 ∷ [])
receive_data_stream_example =
    (receive_data_stream os net fd 3 (before (1 ∷ 2 ∷ 3 ∷ 4 ∷ [])) (omega arith) (omega arith)
      (omega arith)).0

send_data_stream_example : (send_data os (1 ∷ 2 ∷ 3 ∷ 4 ∷ []) fd (before [])).0 ≡ pos 4
send_data_stream_example =
    (send_data_stream os net fd (1 ∷ 2 ∷ 3 ∷ 4 ∷ []) (before []) (omega arith) (omega arith)).0

abbrev tcp : ℕ → TcpClientSocket
tcp port = record { address = 1; port = port; target_socket = fd; connected = true }

abbrev instance_with : ℕ → RemoteDom0Instance
instance_with port = record { lua_socket = tcp port; binary_socket = tcp port }

off : is_disabled (tcp 0) ≡ true
unfolding is_disabled
off = refl

on : is_disabled (tcp 80) ≡ false
unfolding is_disabled
on = refl

execute_lua_string_example :
    (execute_lua_string os (instance_with 80) ls (before (encode (pos 17469453)))).0 ≡ pos 17469453
execute_lua_string_example =
    (execute_lua_string_lem os net (instance_with 80) ls [] (pos 17469453)
      (before (encode (pos 17469453))) on (omega arith) (omega arith, omega arith) refl).0

notes : Notes os net
unfolding execute_string
notes cmd w = (refl, λ fd'. refl, λ fd'. refl)

ls-IsString : IsString ls
ls-IsString = (omega arith, (omega arith, tt))

ends : Ends net fd
ends n w e = rw (e, take_nil (min n 2)) (refl, refl)

lua_connection_handler_example :
    (w' : World) × (lua_connection_handler os 3 fd [] (before (frames os (ls ∷ quit ∷ [])))
      ≡ done w')
    × (w'.given ≡ ls ∷ quit ∷ [])
lua_connection_handler_example =
    lua_connection_handler_lem os net notes fd (ls ∷ quit ∷ []) []
      (before (frames os (ls ∷ quit ∷ []))) ends (λ v. refl)
      (ls-IsString, omega arith, ((omega arith, tt), omega arith, tt)) refl

abbrev parsers : Parsers
parsers = record {
  atoi = λ arg. pos (length arg);
  inet_aton = λ arg. some (length arg);
  shm_name_size = 8;
}

abbrev args : List (Options.Name × List ℕ)
args =
    (Options.buf_size, ls)
    ∷ (Options.shm_name, ls)
    ∷ (Options.netmask, ls)
    ∷ (Options.gateway, ls)
    ∷ (Options.lua_listen_port, ls)
    ∷ (Options.binary_listen_port, quit)
    ∷ []

abbrev config : Config
config = record {
  bufsize = pos 2;
  shm = ls;
  client = false;
  lua_listen = pos 2;
  binary_listen = pos 1;
  lua_target = pos 0;
  binary_target = pos 0;
  target = 0;
  gateway_addr = 2;
  netmask_addr = 2;
}

configured : configure parsers args ≡ some config
unfolding configure Options.parse Options.set_option Options.is_complete
configured = refl

abbrev file : ℤ
file = pos 9

fd-ne-file : fd ≢ file
fd-ne-file = ground arith

abbrev elf : List ℕ
elf = 127 ∷ 69 ∷ 76 ∷ []

abbrev sent_file : World
sent_file = before (file_frame os ls elf)

binary_round_example :
    (w' : World) × (binary_round os fd [] sent_file ≡ done ((true, b'l' ∷ b's' ∷ 0 ∷ []), w'))
    × (w'.input fd ≡ [])
    × (w'.output file ≡ elf)
    × (w'.output fd ≡ encode (pos 144))
    × (w'.given ≡ [])
unfolding put_at
binary_round_example =
    binary_round_lem os net file fd ls elf [] [] sent_file fd-ne-file
      (λ w. (refl, λ fd'. refl, λ fd'. refl, refl)) ls-IsString (omega arith) (omega arith)
      (omega arith) refl

-- A file system in which every file holds `elf`.
abbrev stdio : Stdio World
stdio = record {
  fopen = λ name w. (some 1, w);
  size_of = λ fp w. 3;
  malloc = λ n. some (replicate n 0);
  fread = λ fp n w. (elf, w);
  fclose = λ fp w. w;
}

abbrev going : World
going = before (encode (pos 144))

send_elf_binary_from_rom_example :
    (send_elf_binary_from_rom os stdio (instance_with 80) ls quit going).0 ≡ pos 3
send_elf_binary_from_rom_example =
    (send_elf_binary_from_rom_lem os stdio net (instance_with 80) elf ls quit [] (pos 144) going
      going on (1, going, 0 ∷ 0 ∷ 0 ∷ [], refl, refl, refl, refl, refl, refl) (omega arith)
      (omega arith) (omega arith) (omega arith, omega arith) refl).0

abbrev ports : ServerArgs
ports = record { lua_port = 7777; binary_port = 8888 }
