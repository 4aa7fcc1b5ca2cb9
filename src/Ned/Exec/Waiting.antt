-- ===== src/Ned/Exec/Waiting.antt =====
-- dom0/dom0-ned/server/src/lua_exec.cc: the calls of `wait`, and the exit that ends them.
use l4re_tmp_fs.Base.{ℕ, ◌≡◌, ◌≢◌, refl, [], ◌∷◌, ℤ, ◌+ℤ◌, arith}
use l4re_tmp_fs.Ned.Task.{
  Errors, running, remove_ref, terminate, destroy, release, signal, dispatch, exit as task_exit,
}
use l4re_tmp_fs.Ned.Exec.{
  RefPtr, System, Phase, ready, calling, blocked, answered, reporting, killing, dropping, Exit,
  idle, received, marked, coded, terminated, integer, task_report, woken, receive_exit, mark_exit,
  code_exit, terminate_exit, release_exit,
}
use l4re_tmp_fs.Ned.Exec.Steps.{Reach, IsSound, Reach-IsSound}

-- The parts of the handling of an exit do together to the task what `dispatch` of the task does.
pub exit_parts :
    (errors : Errors) (thread val : ℕ) (s : System)
    → (release_exit thread
        (terminate_exit (code_exit val (mark_exit val (receive_exit val s))))).task
      ≡ (dispatch errors (signal 0 val) s.task).1
unfolding dispatch task_exit receive_exit mark_exit code_exit terminate_exit release_exit terminate
exit_parts errors thread val s = refl

module _ (errors : Errors) (ref_ptr : RefPtr) (to_integer : ℕ → ℤ) (thread : ℕ) where
  release_blocked :
      (s : System)
      → IsSound errors ref_ptr to_integer thread s
      → s.phase ≡ blocked
      → s.server ≡ terminated
      → thread ≢ 0
      → (release_exit thread s).phase ≡ answered
  unfolding release_exit release remove_ref destroy woken ◌+ℤ◌
  release_blocked s i b t z = ground (arith, i.refs, i.observed b, i.holding (cc))

  -- What holds of a call of `wait`, for each place of the two threads.
  abbrev pub Served : Phase → Exit → System → Type 0
  Served blocked idle s = (s.task.observer ≡ thread) × (s.task.state ≡ running)
  Served blocked terminated s =
      (s.task.observer ≡ thread) × ((release_exit thread s).phase ≡ answered)
  Served blocked x s = s.task.observer ≡ thread
  Served answered x s =
      (c : ℕ) × (s.signalled ≡ c ∷ [])
      × ((task_report to_integer s).given ≡ integer (to_integer c) ∷ s.given)
  Served p x s = Unit

  Served_lem :
      thread ≢ 0
      → (s : System) (p : Phase) (x : Exit) → s.phase ≡ p
      → s.server ≡ x
      → IsSound errors ref_ptr to_integer thread s
      → Served p x s
  unfolding task_report
  Served_lem z s ready x e f i = tt
  Served_lem z s calling x e f i = tt
  Served_lem z s blocked idle e f i = (i.observed e, i.alive e f)
  Served_lem z s blocked (received val) e f i = i.observed e
  Served_lem z s blocked (marked val) e f i = i.observed e
  Served_lem z s blocked coded e f i = i.observed e
  Served_lem z s blocked terminated e f i = (i.observed e, release_blocked s i e f z)
  Served_lem z s answered x e f i = (s.task.exit_code, ground (arith, i.codes, i.over e), refl)
  Served_lem z s reporting x e f i = tt
  Served_lem z s killing x e f i = tt
  Served_lem z s (dropping vs) x e f i = tt

  -- From a sound state, as `exec` leaves it, and in whatever order the parts of the operations on a task
  -- are done, each in one step, a call of `wait` that the observer keeps waiting is known to the task,
  -- which runs as long as the server does not handle its exit, and the end of that answers the call; and
  -- a call that was answered hands the exit code to LUA that the program has signalled, as its only one.
  pub wait_lem :
      thread ≢ 0
      → errors.enoreply ≢ 0
      → {s t : System} → IsSound errors ref_ptr to_integer thread s
      → Reach errors ref_ptr to_integer thread s t
      → Served t.phase t.server t
  wait_lem z reply {t} i r =
      Served_lem z t t.phase t.server refl refl
        (Reach-IsSound errors ref_ptr to_integer thread z reply i r)
