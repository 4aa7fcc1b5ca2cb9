-- ===== src/Ned/Task.antt =====
-- dom0/dom0-ned/server/src/app_task.cc and app_task.h: the task of a program that Ned started.
pub mod Life
use l4re_tmp_fs.Base.{
  ℕ, zero, suc, ◌+◌, ◌==◌, ◌≡◌, Bool, true, false, List, [], ◌∷◌, Option, none, some, ℤ, pos,
  negsuc, neg, ◌+ℤ◌, is_zero, if◌then◌else◌,
}

-- The error numbers of the dispatcher, of which no two are used for one.
pub record Errors : Type 0 where
  pub ebadproto : ℕ
  pub enosys : ℕ
  pub enoreply : ℕ

pub data State : Type 0 where
  initializing running zombie : State

-- What a call of `dispatch` and `terminate` does outside the object, the last thing first.
pub data Effect : Type 0 where
  unregister : Effect
  free_cap : ℕ → Effect
  delete : Effect
  notify : ℕ → Effect

-- The object. `has_caps` says whether the capabilities of the task, its thread and its region map are
-- held; `observer` is the capability of the waiting thread, 0 if there is none; `obj_cap` is the
-- object's own capability. `log` lists the effects.
pub record AppTask : Type 0 where
  pub ref_cnt : ℤ
  pub has_caps : Bool
  pub state : State
  pub exit_code : ℕ
  pub observer : ℕ
  pub obj_cap : ℕ
  pub log : List Effect

abbrev did : Effect → AppTask → AppTask
did e t = record t { log = e ∷ t.log }

unfoldable pub add_ref : AppTask → AppTask
add_ref t = record t { ref_cnt = t.ref_cnt +ℤ pos 1 }

unfoldable pub remove_ref : AppTask → ℤ × AppTask
remove_ref t = let n = t.ref_cnt +ℤ negsuc 0 in (n, record t { ref_cnt = n })

unfoldable pub start : AppTask → AppTask
start t = add_ref (record t { state = running })

-- The object after its constructor: `memory` is what the exit code's place held.
unfoldable pub new_task : ℕ → ℕ → AppTask
new_task obj_cap memory = record {
  ref_cnt = pos 0;
  has_caps = true;
  state = initializing;
  exit_code = memory;
  observer = 0;
  obj_cap = obj_cap;
  log = [];
}

unfoldable pub terminate : AppTask → AppTask
terminate t = did (free_cap t.obj_cap) (did unregister (record t { has_caps = false }))

-- ~App_task()
unfoldable pub destroy : AppTask → AppTask
destroy t = did delete (did (free_cap t.obj_cap) (did unregister t))

-- The end of an exit: the reference of the running program goes. An object that is deleted is not touched
-- again.
unfoldable pub release : AppTask → AppTask
release t =
    let (refs, t') = remove_ref t in
    let told = did (notify t'.observer) (record t' { observer = 0 }) in
    if is_zero refs then destroy t' else if t'.observer == 0 then t' else told

-- The case of the signal 0.
unfoldable pub exit : Errors → ℕ → AppTask → ℤ × AppTask
exit errors val t =
    (neg errors.enoreply, release (terminate (record t { state = zombie; exit_code = val })))

-- The message: whether its label is that of the parent protocol, its operation, and the two words that
-- follow a signal.
pub data Request : Type 0 where
  other_protocol : Request
  signal : ℕ → ℕ → Request
  other_opcode : Request

unfoldable pub dispatch : Errors → Request → AppTask → ℤ × AppTask
dispatch errors other_protocol t = (neg errors.ebadproto, t)
dispatch errors (signal sig val) t = if sig == 0 then exit errors val t else (pos 0, t)
dispatch errors other_opcode t = (neg errors.enosys, t)
