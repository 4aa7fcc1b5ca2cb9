-- ===== src/Ned.antt =====
-- dom0/dom0-ned: the loader of the dom0, with its tasks, the capabilities that LUA has, and the LUA commands.
pub mod Task
pub mod Lua
pub mod Objects
pub mod Exec
pub mod Cap
pub mod LuaState
pub mod Cast
pub mod CapTypes
pub mod Namespace
pub mod Model
pub mod Factory
pub mod Boot
pub mod App
pub mod Starting
