-- ===== src/Ned/Exec/Steps.antt =====
-- dom0/dom0-ned/server/src/lua_exec.cc: the interleavings of the thread of LUA with that of the server.
use l4re_tmp_fs.Base.{
  ℕ, suc, ◌+◌, ◌-◌, ◌==◌, ◌≡◌, ◌≢◌, Bool, true, false, List, [], ◌∷◌, ℤ, pos, ◌+ℤ◌, is_zero,
  if◌then◌else◌, arith, Bool-cases, inl, inr,
}
use l4re_tmp_fs.Ned.Task.{
  Errors, State, initializing, running, zombie, Effect, delete, AppTask, add_ref, remove_ref, start,
  new_task, terminate, destroy, release,
}
use l4re_tmp_fs.Ned.Exec.{
  Value, RefPtr, exec, System, Phase, ready, calling, blocked, answered, reporting, killing,
  dropping, Exit, idle, received, marked, coded, terminated, give, task_state, task_exit_code,
  task_wait, task_report, task_kill, task_terminate, task_drop, task_gc, serve_observer, observe,
  woken, receive_exit, mark_exit, code_exit, terminate_exit, release_exit,
}

abbrev pub bit : Bool → ℕ
bit true = 1
bit false = 0

-- The reference that a running program has, until the handling of its exit lets go of it.
abbrev pub own : State → Exit → ℕ
own running x = 1
own _ idle = 0
own _ _ = 1

abbrev pub deletes : List Effect → ℕ
deletes [] = 0
deletes (delete ∷ es) = suc (deletes es)
deletes (_ ∷ es) = deletes es

module _ (errors : Errors) (ref_ptr : RefPtr) (to_integer : ℕ → ℤ) (thread : ℕ) where
  open ref_ptr use {drop, drop_last, drop_shared}

  -- The thread of LUA starts an operation when it is at none. The server's thread handles one message
  -- after the other. The program may exit as long as the task has its capabilities, or go on for ever.
  pub data Step : System → System → Type 0 where
    state_of : (s : System) → s.phase ≡ ready → Step s (give (task_state s.held s.task) s)
    exit_code_of :
        (s : System) → s.phase ≡ ready → Step s (give (task_exit_code to_integer s.held s.task) s)
    wait : (s : System) → s.phase ≡ ready → Step s (task_wait s)
    wait_end : (s : System) → s.phase ≡ answered → Step s (task_report to_integer s)
    kill : (s : System) → s.phase ≡ ready → Step s (task_kill s)
    kill_report : (s : System) → s.phase ≡ reporting → Step s (task_report to_integer s)
    kill_terminate : (s : System) → s.phase ≡ killing → Step s (task_terminate s)
    gc : (s : System) → s.phase ≡ ready → Step s (task_gc s)
    end_pointer :
        (s : System) (vs : List Value) → s.phase ≡ dropping vs → Step s (task_drop ref_ptr vs s)
    observer :
        (s : System) → s.phase ≡ calling → s.server ≡ idle → Step s (serve_observer errors thread s)
    exit :
        (s : System) (val : ℕ)
        → s.server ≡ idle
        → s.task.state ≡ running
        → s.task.has_caps ≡ true
        → Step s (receive_exit val s)
    exit_state : (s : System) (val : ℕ) → s.server ≡ received val → Step s (mark_exit val s)
    exit_value : (s : System) (val : ℕ) → s.server ≡ marked val → Step s (code_exit val s)
    exit_terminate : (s : System) → s.server ≡ coded → Step s (terminate_exit s)
    exit_release : (s : System) → s.server ≡ terminated → Step s (release_exit thread s)

  pub data Reach (s : System) : System → Type 0 where
    here : Reach s s
    next : {t u : System} → Reach s t → Step t u → Reach s u

  -- The exit code and the capabilities, as far as the server has come with an exit.
  abbrev pub Codes : Exit → AppTask → List ℕ → Type 0
  Codes idle t codes =
      (t.state ≡ zombie → (codes ≡ t.exit_code ∷ []) × (t.has_caps ≡ false))
      × (t.state ≡ running → codes ≡ [])
  Codes (received val) t codes = (t.state ≡ running) × (codes ≡ val ∷ [])
  Codes (marked val) t codes = (t.state ≡ zombie) × (codes ≡ val ∷ [])
  Codes coded t codes = (t.state ≡ zombie) × (codes ≡ t.exit_code ∷ [])
  Codes terminated t codes = (t.state ≡ zombie) × (codes ≡ t.exit_code ∷ []) × (t.has_caps ≡ false)

  -- `kill` reports the exit code of a zombie, and it has taken the capabilities where it hands out a value
  -- at its end.
  abbrev pub Killed : Phase → AppTask → Type 0
  Killed reporting t = t.state ≡ zombie
  Killed (dropping (v ∷ vs)) t = t.has_caps ≡ false
  Killed p t = Unit

  -- The references are those of LUA and of the program, and the object is deleted once, when there are none
  -- left. Who is in an operation has a pointer. Who waits is known to the task, which is no zombie but
  -- while the server handles the exit; who was answered finds a zombie, and the server at no exit.
  pub record IsSound (s : System) : Type 0 where
    pub refs : s.task.ref_cnt ≡ pos (bit s.held + own s.task.state s.server)
    pub deleted : deletes s.task.log ≡ 1 - (bit s.held + own s.task.state s.server)
    pub started : s.task.state ≢ initializing
    pub holding : s.phase ≢ ready → s.held ≡ true
    pub observed : s.phase ≡ blocked → s.task.observer ≡ thread
    pub alive : s.phase ≡ blocked → s.server ≡ idle → s.task.state ≡ running
    pub over : s.phase ≡ answered → (s.task.state ≡ zombie) × (s.server ≡ idle)
    pub codes : Codes s.server s.task s.signalled
    pub kills : Killed s.phase s.task

  drop_lem :
      (t : AppTask)
      → drop t ≡ (if is_zero (remove_ref t).0 then destroy (remove_ref t).1 else (remove_ref t).1)
  drop_lem t = elim (Bool-cases (is_zero (remove_ref t).0)) [
    | inl e ↦ rw e (drop_last t e)
    | inr e ↦ rw e (drop_shared t e)
  ]

  pub drop_parts :
      (t : AppTask) (b : ℕ)
      → t.ref_cnt ≡ pos (suc b)
      → ((drop t).ref_cnt ≡ pos b)
        × ((drop t).state ≡ t.state)
        × ((drop t).has_caps ≡ t.has_caps)
        × ((drop t).observer ≡ t.observer)
        × ((drop t).exit_code ≡ t.exit_code)
        × (deletes (drop t).log ≡ (if b == 0 then suc (deletes t.log) else deletes t.log))
  unfolding remove_ref destroy ◌+ℤ◌
  drop_parts t b e = ground (arith, drop_lem t)

  module _ (some_thread : thread ≢ 0) (reply : errors.enoreply ≢ 0) where
    wait-IsSound : (s : System) → s.phase ≡ ready → IsSound s → IsSound (task_wait s)
    unfolding task_wait
    wait-IsSound s p i = ground arith

    report-IsSound : (s : System) → s.held ≡ true → IsSound s → IsSound (task_report to_integer s)
    unfolding task_report
    report-IsSound s h i = ground arith

    kill-IsSound : (s : System) → s.phase ≡ ready → IsSound s → IsSound (task_kill s)
    unfolding task_kill
    kill-IsSound s p i = ground arith

    terminate-IsSound : (s : System) → s.phase ≡ killing → IsSound s → IsSound (task_terminate s)
    unfolding task_terminate terminate
    terminate-IsSound s p i = ground arith

    gc-IsSound : (s : System) → s.phase ≡ ready → IsSound s → IsSound (task_gc s)
    unfolding task_gc
    gc-IsSound s p i = ground arith

    drop-IsSound :
        (s : System) (vs : List Value)
        → s.phase ≡ dropping vs
        → IsSound s
        → IsSound (task_drop ref_ptr vs s)
    unfolding task_drop
    drop-IsSound s vs p i = ground (arith, drop_parts s.task (own s.task.state s.server))

    observer-IsSound :
        (s : System)
        → s.phase ≡ calling
        → s.server ≡ idle
        → IsSound s
        → IsSound (serve_observer errors thread s)
    unfolding serve_observer observe
    observer-IsSound s p q i = ground arith

    receive-IsSound :
        (s : System) (val : ℕ)
        → s.server ≡ idle
        → s.task.state ≡ running
        → IsSound s
        → IsSound (receive_exit val s)
    unfolding receive_exit
    receive-IsSound s val q r i = ground arith

    mark-IsSound :
        (s : System) (val : ℕ) → s.server ≡ received val → IsSound s → IsSound (mark_exit val s)
    unfolding mark_exit
    mark-IsSound s val q i = ground arith

    code-IsSound :
        (s : System) (val : ℕ) → s.server ≡ marked val → IsSound s → IsSound (code_exit val s)
    unfolding code_exit
    code-IsSound s val q i = ground arith

    terminate_exit-IsSound :
        (s : System) → s.server ≡ coded → IsSound s → IsSound (terminate_exit s)
    unfolding terminate_exit terminate
    terminate_exit-IsSound s q i = ground arith

    release-IsSound :
        (s : System) → s.server ≡ terminated → IsSound s → IsSound (release_exit thread s)
    unfolding release_exit release remove_ref destroy woken ◌+ℤ◌
    release-IsSound s q i = ground arith

    pub Step-IsSound : {s t : System} → Step s t → IsSound s → IsSound t
    Step-IsSound (state_of s p) i = ground arith
    Step-IsSound (exit_code_of s p) i = ground arith
    Step-IsSound (wait s p) i = wait-IsSound s p i
    Step-IsSound (wait_end s p) i = report-IsSound s (i.holding (cc)) i
    Step-IsSound (kill s p) i = kill-IsSound s p i
    Step-IsSound (kill_report s p) i = report-IsSound s (i.holding (cc)) i
    Step-IsSound (kill_terminate s p) i = terminate-IsSound s p i
    Step-IsSound (gc s p) i = gc-IsSound s p i
    Step-IsSound (end_pointer s vs p) i = drop-IsSound s vs p i
    Step-IsSound (observer s p q) i = observer-IsSound s p q i
    Step-IsSound (exit s val q r h) i = receive-IsSound s val q r i
    Step-IsSound (exit_state s val q) i = mark-IsSound s val q i
    Step-IsSound (exit_value s val q) i = code-IsSound s val q i
    Step-IsSound (exit_terminate s q) i = terminate_exit-IsSound s q i
    Step-IsSound (exit_release s q) i = release-IsSound s q i

    pub Reach-IsSound : {s t : System} → IsSound s → Reach s t → IsSound t
    Reach-IsSound i here = i
    Reach-IsSound i (next r st) = Step-IsSound st (Reach-IsSound i r)

  module _ (launch : AppTask → Bool × AppTask) (obj_cap memory : ℕ) where
    abbrev new : AppTask
    new = new_task obj_cap memory

    -- After `exec` the object is sound, if the program did not change it before `exec` goes on.
    pub exec-IsSound :
        (launch (add_ref new)).1 ≡ add_ref new
        → (launch (add_ref new)).0 ≡ false
        → IsSound (exec ref_ptr launch new).1
    unfolding exec new_task add_ref start ◌+ℤ◌
    exec-IsSound e f = rw (e, f) (ground (arith, drop_parts (add_ref (start (add_ref new))) 2))

    pub exec-failed :
        (launch (add_ref new)).1 ≡ add_ref new
        → (launch (add_ref new)).0 ≡ true
        → ((exec ref_ptr launch new).1.held ≡ false)
          × (deletes (exec ref_ptr launch new).1.task.log ≡ 1)
    unfolding exec new_task add_ref ◌+ℤ◌
    exec-failed e f = rw (e, f) (ground (arith, drop_parts (add_ref new) 0))
