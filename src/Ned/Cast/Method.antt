-- ===== src/Ned/Cast/Method.antt =====
-- dom0/dom0-ned/server/src/lua_cap.cc: where Cap::index finds a method.
use l4re_tmp_fs.Ned.LuaState.Tables.{Tables}
