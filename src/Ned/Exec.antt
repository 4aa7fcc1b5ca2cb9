-- ===== src/Ned/Exec.antt =====
-- dom0/dom0-ned/server/src/lua_exec.cc: the observer of the tasks, the operations that LUA has on a task,
-- and `exec`; each operation in the parts between which the server's thread may do something to the task.
pub mod Steps
pub mod Waiting
use Prim.Native.String.{String}
use l4re_tmp_fs.Base.{
  ℕ, zero, suc, ◌+◌, ◌==◌, ◌≡◌, Bool, true, false, List, [], ◌∷◌, ◌++◌, ℤ, pos, neg, is_zero,
  if◌then◌else◌,
}
use l4re_tmp_fs.Ned.Task.{
  Errors, State, initializing, running, zombie, Effect, notify, AppTask, add_ref, remove_ref, start,
  terminate, destroy, release,
}

-- What an operation hands to LUA.
pub data Value : Type 0 where
  nil : Value
  string : String → Value
  integer : ℤ → Value

-- cxx::Ref_ptr: `drop` is what giving up a pointer does. The last one deletes the object.
pub record RefPtr : Type 0 where
  pub drop : AppTask → AppTask
  pub drop_last :
      (t : AppTask) → is_zero (remove_ref t).0 ≡ true → drop t ≡ destroy (remove_ref t).1
  pub drop_shared : (t : AppTask) → is_zero (remove_ref t).0 ≡ false → drop t ≡ (remove_ref t).1

-- Observer::dispatch, with the thread that waits.
unfoldable pub observe : Errors → ℕ → AppTask → ℤ × AppTask
observe errors thread t = elim t.state [
  | zombie ↦ (pos 0, t)
  | _ ↦ (neg errors.enoreply, record t { observer = thread })
]

unfoldable pub state_name : State → String
state_name initializing = "initializing"
state_name running = "running"
state_name zombie = "zombie"

-- The pointer of a LUA object: whether it still points to the task.
unfoldable pub task_state : Bool → AppTask → Value
task_state held t = if held then string (state_name t.state) else nil

-- Where the thread of LUA is: at no operation, at a call of `wait` that the observer has not handled, at
-- one that the observer keeps waiting, at one that was answered, in `kill` in front of its report of a
-- zombie, in `kill` in front of `terminate`, and in front of the end of its pointer, with the values that
-- it hands to LUA behind that.
pub data Phase : Type 0 where
  ready calling blocked answered reporting killing : Phase
  dropping : List Value → Phase

-- Where the server's thread is: at no exit, at one that it has received, with the state set, with the
-- exit code set too, and behind `terminate`.
pub data Exit : Type 0 where
  idle : Exit
  received marked : ℕ → Exit
  coded terminated : Exit

-- The task, the pointer that LUA has, the two threads, what LUA was given, the last value first, and the
-- exit codes that the program has signalled.
pub record System : Type 0 where
  pub task : AppTask
  pub held : Bool
  pub phase : Phase
  pub server : Exit
  pub given : List Value
  pub signalled : List ℕ

abbrev pub give : Value → System → System
give v s = record s { given = v ∷ s.given }

-- The start of `wait`, up to the call of the observer.
unfoldable pub task_wait : System → System
task_wait s = if s.held then record s { phase = calling } else give nil s

-- The start of `kill`, with the look at the state.
unfoldable pub task_kill : System → System
task_kill s =
    let looked : System = elim s.task.state [
      | zombie ↦ record s { phase = reporting }
      | _ ↦ record s { phase = killing }
    ] in
    if s.held then looked else give nil s

-- The rest of `kill`, up to the end of the pointer.
unfoldable pub task_terminate : System → System
task_terminate s = record s { task = terminate s.task; phase = dropping (string "killed" ∷ []) }

unfoldable pub task_gc : System → System
task_gc s = if s.held then record s { phase = dropping [] } else s

-- `to_integer` is the conversion from an `unsigned long` to a `lua_Integer`.
module _ (to_integer : ℕ → ℤ) where
  unfoldable pub task_exit_code : Bool → AppTask → Value
  task_exit_code held t = if held then integer (to_integer t.exit_code) else nil

  -- What `wait` does when its call returns, and `kill` when it saw a zombie.
  unfoldable pub task_report : System → System
  task_report s = record (give (integer (to_integer s.task.exit_code)) s) { phase = dropping [] }

module _ (ref_ptr : RefPtr) where
  open ref_ptr use {drop}

  -- The pointer of the LUA object ends.
  unfoldable pub task_drop : List Value → System → System
  task_drop vs s = record s {
    task = drop s.task;
    held = false;
    phase = ready;
    given = vs ++ s.given;
  }

  -- `exec` on a new task: its pointer `app_task`, the launch, which says whether it failed and what it
  -- did to the task, `running`, the pointer of the LUA object, and the end of `app_task`, also by the
  -- exception.
  unfoldable pub exec : (AppTask → Bool × AppTask) → AppTask → Bool × System
  exec launch new =
      let (failed, t) = launch (add_ref new) in
      let task = if failed then drop t else drop (add_ref (start t)) in
      (
        failed,
        record {
          task = task;
          held = if failed then false else true;
          phase = ready;
          server = idle;
          given = [];
          signalled = [];
        },
      )

-- The server's thread handles the call of the observer. The answer 0 is a reply to the thread of LUA.
unfoldable pub serve_observer : Errors → ℕ → System → System
serve_observer errors thread s =
    let (answer, t) = observe errors thread s.task in
    record s { task = t; phase = if is_zero answer then answered else blocked }

-- The message that `dispatch` sends last ends the call of the thread that it goes to.
unfoldable pub woken : ℕ → List Effect → Phase → Phase
woken thread (notify o ∷ _) blocked = if o == thread then answered else blocked
woken thread _ p = p

-- The server's thread gets the exit of the program, and handles it as `dispatch` of the task does.
unfoldable pub receive_exit : ℕ → System → System
receive_exit val s = record s { server = received val; signalled = val ∷ s.signalled }

unfoldable pub mark_exit : ℕ → System → System
mark_exit val s = record s { task = record s.task { state = zombie }; server = marked val }

unfoldable pub code_exit : ℕ → System → System
code_exit val s = record s { task = record s.task { exit_code = val }; server = coded }

unfoldable pub terminate_exit : System → System
terminate_exit s = record s { task = terminate s.task; server = terminated }

unfoldable pub release_exit : ℕ → System → System
release_exit thread s =
    let t = release s.task in
    record s { task = t; phase = woken thread t.log s.phase; server = idle }
