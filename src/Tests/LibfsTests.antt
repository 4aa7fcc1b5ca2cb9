-- ===== src/Tests/LibfsTests.antt =====
-- The theorems on dom0/libfs, applied.
use l4re_tmp_fs.Base.{
  ℕ, ◌≤◌, ◌≡◌, refl, List, arith, pos, none, length, replicate, length-replicate,
}
use l4re_tmp_fs.Libfs.Protocol.{label, max_path_size}
use l4re_tmp_fs.Libfs.Client
use l4re_tmp_fs.Libfs.Svr.{Svr}
use l4re_tmp_fs.Libfs.Connection.{Relays, connect, counted}
use l4re_tmp_fs.Libfs.Relayed.{paths_relayed, transfers_relayed}
use l4re_tmp_fs.TmpFs.{Server, server}
use l4re_tmp_fs.Tests.Machine.{
  x86, libc, Disk, tmp_server, side, name, name-IsString, name_short, flags-IsInt,
}

abbrev svr : Svr (Server Disk)
svr = server x86 libc

abbrev long : List ℕ
long = replicate 300 97

long_lem : max_path_size x86 ≤ length long
unfolding max_path_size
long_lem = omega (arith, length-replicate {A = ℕ} 300 97)

unknown : label 19 ≡ none
unfolding label
unknown = refl

paths_relayed_example :
    Relays (Client.mkdir x86 (connect x86 svr) name 7 side) (svr.mkdir name 7 tmp_server)
paths_relayed_example =
    (paths_relayed x86 svr side name (pos 2) 7 name-IsString name_short flags-IsInt).1

transfers_relayed_example :
    Relays
      (Client.pread x86 (connect x86 svr) (pos 3) 4 (pos 1) side)
      (counted x86 (svr.pread (pos 3) 4 (pos 1) tmp_server))
transfers_relayed_example = (transfers_relayed x86 svr side (pos 3) 4 (pos 1) (omega arith)).0
