-- ===== src/Tests/ObjectTests.antt =====
-- The theorems on the object lists and the tasks of dom0/dom0-ned, applied.
use l4re_tmp_fs.Base.{
  pos, ℕ, ◌≡◌, ◌≢◌, refl, Bool, true, false, some, [], ◌∷◌, arith, ◌+ℤ◌, is_zero, if◌then◌else◌,
}
use l4re_tmp_fs.Ned.Objects.{State, unlisted, add, remove, clear_from}
use l4re_tmp_fs.Ned.Objects.Links.{contains}
use l4re_tmp_fs.Ned.Objects.Invariant.{IsList, add_lem, remove_lem}
use l4re_tmp_fs.Ned.Objects.Delete.{add_other, clear_list, remove_other}
use l4re_tmp_fs.Ned.Task.{Errors, AppTask, remove_ref, destroy, add_ref, start, new_task}
use l4re_tmp_fs.Ned.Exec.{
  RefPtr, System, exec, task_wait, serve_observer, observe, receive_exit, mark_exit, code_exit,
  terminate_exit, release_exit,
}
use l4re_tmp_fs.Ned.Exec.Steps.{
  Reach, IsSound, exec-IsSound, here, next, wait, observer, exit, exit_state, exit_value,
  exit_terminate, exit_release,
}
use l4re_tmp_fs.Ned.Exec.Waiting.{Served, wait_lem}

abbrev empty : State
empty = record { object = λ o. unlisted; f = 0 }

empty-IsList : (this : ℕ) → this ≢ 0 → IsList this empty []
empty-IsList this t = record {
  first = refl;
  distinct = tt;
  linked = λ o h. absurd (cc);
  owned = λ o z h. absurd (t (ground arith));
}

abbrev one : State
one = add 100 1 empty

one-IsList : IsList 100 one (1 ∷ [])
one-IsList = add_lem 100 1 empty [] (empty-IsList 100 (omega arith)) (omega arith) (omega arith)

free_two : ((one.object 2).l) ≡ 0
unfolding add
free_two = refl

abbrev two : State
two = add 100 2 one

two-IsList : IsList 100 two (2 ∷ 1 ∷ [])
two-IsList = rw free_two at (add_lem 100 2 one (1 ∷ []) one-IsList (omega arith) (omega arith))

remove_example : (remove 100 1 two).0 ≡ 1
remove_example = (remove_lem 100 1 two (2 ∷ 1 ∷ []) two-IsList (omega arith)).0

clear_list_example :
    (s' : State) × (clear_from 3 100 two.f two ≡ some s')
    × ((q : ℕ) → s'.object q ≡ (if contains q (2 ∷ 1 ∷ []) then unlisted else two.object q))
clear_list_example = clear_list 3 100 two (2 ∷ 1 ∷ []) two-IsList (omega arith)

remove_other_example : IsList 200 (record (remove 100 1 one).1 { f = 0 }) []
remove_other_example =
    remove_other 100 200 1 0 one (1 ∷ []) [] one-IsList
      (add_other 100 200 1 0 empty [] [] (empty-IsList 100 (omega arith))
        (empty-IsList 200 (omega arith)) (omega arith) (omega arith))
      (omega arith) (omega arith) (omega arith)

abbrev errors : Errors
errors = record { ebadproto = 1; enosys = 38; enoreply = 1000 }

abbrev dropped : AppTask → AppTask
dropped t = if is_zero (remove_ref t).0 then destroy (remove_ref t).1 else (remove_ref t).1

dropped_last :
    (t : AppTask) → is_zero (remove_ref t).0 ≡ true → dropped t ≡ destroy (remove_ref t).1
dropped_last t e = rw e refl

dropped_shared : (t : AppTask) → is_zero (remove_ref t).0 ≡ false → dropped t ≡ (remove_ref t).1
dropped_shared t e = rw e refl

abbrev ref_ptr : RefPtr
ref_ptr = record { drop = dropped; drop_last = dropped_last; drop_shared = dropped_shared }

-- A launch that succeeds, and leaves the object alone.
abbrev launch : AppTask → Bool × AppTask
launch t = (false, t)

abbrev started : System
started = (exec ref_ptr launch (new_task 8 0)).1

started-IsSound : IsSound errors ref_ptr pos 7 started
started-IsSound = exec-IsSound errors ref_ptr pos 7 launch 8 0 refl refl

thread_pos : ◌≢◌ {A = ℕ} 7 0
thread_pos = omega arith

reply_pos : errors.enoreply ≢ 0
reply_pos = omega arith

-- A program that exits with 3 while LUA waits for it, up to the answer.
abbrev waiting : System
waiting = serve_observer errors 7 (task_wait started)

abbrev exited : System
exited = release_exit 7 (terminate_exit (code_exit 3 (mark_exit 3 (receive_exit 3 waiting))))

exited_reached : Reach errors ref_ptr pos 7 started exited
unfolding task_wait serve_observer observe exec new_task add_ref start remove_ref destroy ◌+ℤ◌
    receive_exit mark_exit code_exit terminate_exit
exited_reached =
    let called = task_wait started in
    let r1 = next here (wait started refl) in
    let r2 = next r1 (observer called refl refl) in
    let r3 = next r2 (exit waiting 3 refl refl refl) in
    let r4 = next r3 (exit_state (receive_exit 3 waiting) 3 refl) in
    let r5 = next r4 (exit_value (mark_exit 3 (receive_exit 3 waiting)) 3 refl) in
    let r6 = next r5 (exit_terminate (code_exit 3 (mark_exit 3 (receive_exit 3 waiting))) refl) in
    next r6
      (exit_release (terminate_exit (code_exit 3 (mark_exit 3 (receive_exit 3 waiting)))) refl)

wait_example : Served errors ref_ptr pos 7 exited.phase exited.server exited
wait_example = wait_lem errors ref_ptr pos 7 thread_pos reply_pos started-IsSound exited_reached
