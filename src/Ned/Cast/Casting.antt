-- ===== src/Ned/Cast/Casting.antt =====
-- dom0/dom0-ned/server/src/lua_cap.cc: the cast of a capability.
use l4re_tmp_fs.Ned.Cap.{Cap}
