-- ===== src/Tests/StartTests.antt =====
-- The theorems on the start of the server thread of dom0/dom0-ned, and on dom0/fs_srv from its start, applied.
use l4re_tmp_fs.Base.{
  ℕ, ◌≡◌, ◌⊎◌, ◌<◌, refl, true, false, List, [], ◌∷◌, some, pos, arith, replicate, length-replicate,
}
use l4re_tmp_fs.Ned.Starting.{
  System, new_server, Step, Reach, start, step, lock, create, lock_again, destroy, make, unlock,
  done, looping,
}
use l4re_tmp_fs.Ned.Starting.Handover.{rank, Ends, constructor_returns, done-registry}
use l4re_tmp_fs.TmpFs
use l4re_tmp_fs.TmpFs.{Server, path_len, Libc}
use l4re_tmp_fs.TmpFs.Paths.{IsReady}
use l4re_tmp_fs.TmpFs.Start.{Start, main, serving, register}
use l4re_tmp_fs.TmpFs.Session.{
  Call, mkdir, rename, open_file, pwrite, pread, AllFit, serve_all, call_all, session_lem,
}
use l4re_tmp_fs.Tests.Machine
use l4re_tmp_fs.Tests.Machine.{x86, libc, disk, name, name-IsString}

abbrev begun : System
begun = new_server

-- The constructor waits, and the thread has made the registry.
started : (s : System) × Reach s
unfolding new_server
started =
    let r1 = step _ _ start (lock new_server refl refl) in
    let r2 = step _ _ r1 (create _ refl) in (_, step _ _ r2 (make _ 5 refl))

returned : (s : System) × Reach s
unfolding started
returned =
    let r1 = step _ _ (started.1) (unlock _ refl) in
    let r2 = step _ _ r1 (lock_again _ refl refl) in (_, step _ _ r2 (destroy _ refl))

returned-done : returned.0.creator ≡ done
unfolding returned
returned-done = refl

constructor_returns_example :
    (Ends (started.0) ⊎ ((t : System) × Step started.0 t))
    × ((t : System) → Step started.0 t → rank t < rank started.0)
constructor_returns_example = constructor_returns started.0 started.1

done-registry_example :
    (returned.0.runner ≡ looping)
    × ((r : ℕ) × (returned.0.registry ≡ some r))
    × (returned.0.mutex_held ≡ true)
    × (returned.0.mutex_alive ≡ false)
done-registry_example = done-registry returned.0 returned.1 returned-done

abbrev begin : Start Machine.Disk
begin = record { mount_tmpfs = λ from to f. (pos 0, f); register_obj = λ svr f. (true, f) }

abbrev memory : List ℕ
memory = replicate path_len 0

abbrev svr : Server Machine.Disk
svr = TmpFs.new_server x86 libc memory disk

abbrev calls : List Call
calls =
    mkdir name 7
    ∷ open_file name (pos 2) 0
    ∷ rename name (b'c' ∷ [])
    ∷ pwrite (pos 3) (7 ∷ []) (pos 0)
    ∷ pread (pos 3) 2 (pos 0)
    ∷ []

runs : main x86 libc begin memory disk ≡ serving svr
unfolding main register TmpFs.new_server
runs = refl

calls_fit : AllFit calls
calls_fit = (
  (name-IsString, omega arith),
  (
    (name-IsString, omega arith),
    (
      ((name-IsString, omega arith), ((omega arith, tt), omega arith)),
      (omega arith, (omega arith, tt)),
    ),
  ),
)

session_example :
    let r = serve_all x86 libc calls svr in
    let t = call_all x86 libc calls svr.files in (r.0 ≡ t.0) × (r.1.files ≡ t.1) × IsReady r.1
session_example =
    session_lem x86 libc begin memory disk svr calls (length-replicate {A = ℕ} path_len 0) runs
      calls_fit
