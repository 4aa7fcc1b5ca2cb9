-- ===== src/Tests/NedTests.antt =====
-- The theorems on dom0/dom0-ned, applied.
use l4re_tmp_fs.Base.{
  ℕ, zero, suc, ◌≡◌, List, [], ◌∷◌, arith, true, false, pos, terminated, IsString, replicate,
}
use l4re_tmp_fs.Ned.Task
use l4re_tmp_fs.Ned.Task.{Errors, AppTask, signal}
use l4re_tmp_fs.Ned.Lua
use l4re_tmp_fs.Ned.Lua.{
  Lib, Interpreter, NedServer, insert_all, execute_lua_line, buffer_size, run,
}
use l4re_tmp_fs.Ned.Lua.Order.{IsSorted, insert_all-IsSorted}
use l4re_tmp_fs.Ned.Lua.Commands.{dispatch_command}

abbrev errors : Errors
errors = record { ebadproto = 1; enosys = 38; enoreply = 1000 }

abbrev task : AppTask
task = record {
  ref_cnt = pos 1;
  has_caps = true;
  state = Task.running;
  exit_code = 0;
  observer = 5;
  obj_cap = 8;
  log = [];
}

insert_all_example : IsSorted (insert_all ((2, 7) ∷ (0, 8) ∷ (1, 9) ∷ []) [])
insert_all_example = (insert_all-IsSorted ((2, 7) ∷ (0, 8) ∷ (1, 9) ∷ []) [] tt).0

-- An interpreter that notes what it compiled.
abbrev noting : Interpreter (List ℕ)
noting = record { loadbuffer = λ line w. (false, line); pcall = λ w. (false, w) }

abbrev ned : NedServer (List ℕ)
ned = record { buffer = replicate 256 0; answers = []; lua = [] }

abbrev command : List ℕ
command = b'x' ∷ []

xs-IsString : (n : ℕ) → IsString (replicate n b'x')
xs-IsString zero = tt
xs-IsString (suc n) = (omega arith, xs-IsString n)

dispatch_command_example :
    (Lua.dispatch 1 38 200 400 noting (execute_lua_line 2 (terminated command)) ned).1.answers
    ≡ 200 ∷ []
dispatch_command_example =
    (dispatch_command 1 38 200 400 noting command 2 ned (omega arith, tt) (omega arith)).1
