-- ===== src/Ned/Task/Life.antt =====
-- The life of the task of dom0/dom0-ned/server/src/app_task.cc.
use l4re_tmp_fs.Base.{
  ℕ, ◌≡◌, ◌≢◌, refl, ◌⊎◌, inl, inr, true, false, ◌∷◌, negsuc, neg, is_zero, arith, ◌==◌, ◌+ℤ◌,
  Bool-cases,
}
use l4re_tmp_fs.Ned.Task.{
  Errors, zombie, unregister, free_cap, delete, notify, AppTask, remove_ref, terminate, destroy,
  exit, signal, dispatch, release,
}

-- When a task exits, it becomes a zombie with the exit code and without capabilities, and one reference
-- goes. The last reference deletes the object, and no one is told; otherwise the observer, if there is
-- one, is told once, and is forgotten.
pub exit_lem :
    (errors : Errors) (val : ℕ) (t : AppTask)
    → let r = dispatch errors (signal 0 val) t in
      let gone = free_cap t.obj_cap ∷ unregister ∷ t.log in
      (r.0 ≡ neg errors.enoreply)
      × (r.1.state ≡ zombie)
      × (r.1.exit_code ≡ val)
      × (r.1.has_caps ≡ false)
      × (r.1.ref_cnt ≡ t.ref_cnt +ℤ negsuc 0)
      × (((is_zero (t.ref_cnt +ℤ negsuc 0) ≡ true)
            × (r.1.log ≡ delete ∷ free_cap t.obj_cap ∷ unregister ∷ gone))
          ⊎ ((is_zero (t.ref_cnt +ℤ negsuc 0) ≡ false) × (t.observer ≡ 0) × (r.1.log ≡ gone))
          ⊎ ((is_zero (t.ref_cnt +ℤ negsuc 0) ≡ false)
              × (t.observer ≢ 0)
              × (r.1.observer ≡ 0)
              × (r.1.log ≡ notify t.observer ∷ gone)))
unfolding dispatch exit terminate remove_ref destroy release
exit_lem errors val t =
    let refs = t.ref_cnt +ℤ negsuc 0 in
    elim (Bool-cases (is_zero refs)) [
      | inl last ↦ rw last (refl, refl, refl, refl, refl, inl (refl, refl))
      | inr more ↦ elim (Bool-cases (t.observer == 0)) [
        | inl alone ↦
            let none : t.observer ≡ 0 = ground arith in
            rw (more, alone) (refl, refl, refl, refl, refl, inr (inl (refl, none, refl)))
        | inr seen ↦
            let some_one : t.observer ≢ 0 = ground arith in
            rw (more, seen) (refl, refl, refl, refl, refl, inr (inr (refl, some_one, refl, refl)))
      ]
    ]
