-- ===== src/Ned/CapTypes/Init.antt =====
-- dom0/dom0-ned/server/src/lua_cap.cc: the table of the classes that init_lua_cap makes.
use l4re_tmp_fs.Ned.LuaState.Tables.{Tables}
