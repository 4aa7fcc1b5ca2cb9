-- ===== src/Ned/Starting/Handover.antt =====
-- dom0/dom0-ned/server/src/server.cc: the mutex by which the constructor waits for its thread.
use l4re_tmp_fs.Base.{
  subst, ◌+◌, ◌<◌, ℕ, ◌≡◌, ◌⊎◌, inl, inr, refl, Bool, true, false, Option, none, some, arith,
}
use l4re_tmp_fs.Ned.Starting.{
  Creator, begun, locked, waiting, woken, done, thrown, Runner, absent, running, made, looping,
  System, new_server, Step, lock, create, create_thrown, create_unseen, lock_again, destroy, make,
  unlock, Reach, start, step,
}

-- What holds whatever the two threads have done, by where the constructor is.
abbrev Phase : Creator → Runner → Bool → Bool → Option ℕ → Type 0
Phase begun r held alive reg = (r ≡ absent) × (held ≡ false) × (alive ≡ true) × (reg ≡ none)
Phase locked r held alive reg = (r ≡ absent) × (held ≡ true) × (alive ≡ true) × (reg ≡ none)
Phase waiting r held alive reg =
    (alive ≡ true)
    × (((r ≡ absent) × (held ≡ true))
        ⊎ (((r ≡ running) × (held ≡ true) × (reg ≡ none))
            ⊎ (((r ≡ made) × (held ≡ true) × ((n : ℕ) × (reg ≡ some n)))
                ⊎ ((r ≡ looping) × (held ≡ false) × ((n : ℕ) × (reg ≡ some n))))))
Phase woken r held alive reg =
    (r ≡ looping) × (held ≡ true) × (alive ≡ true) × ((n : ℕ) × (reg ≡ some n))
Phase done r held alive reg =
    (r ≡ looping) × (held ≡ true) × (alive ≡ false) × ((n : ℕ) × (reg ≡ some n))
Phase thrown r held alive reg = (r ≡ absent) × (alive ≡ true)

IsOrdered : System → Type 0
IsOrdered s = Phase s.creator s.runner s.mutex_held s.mutex_alive s.registry

-- The steps of the thread, which are only possible while the constructor waits.
make_lem :
    (c : Creator) (r : Runner) (held alive : Bool) (reg : Option ℕ) (n : ℕ)
    → r ≡ running
    → Phase c r held alive reg
    → Phase c made held alive (some n)
make_lem begun r held alive reg n at i = absurd (ground (arith, i.0))
make_lem locked r held alive reg n at i = absurd (ground (arith, i.0))
make_lem waiting r held alive reg n at (a, inl (p, h)) = absurd (ground (arith, p))
make_lem waiting r held alive reg n at (a, inr (inl (p, h, e))) =
    (a, inr (inr (inl (refl, h, (n, refl)))))
make_lem waiting r held alive reg n at (a, inr (inr (inl (p, h, e)))) = absurd (ground (arith, p))
make_lem waiting r held alive reg n at (a, inr (inr (inr (p, h, e)))) = absurd (ground (arith, p))
make_lem woken r held alive reg n at i = absurd (ground (arith, i.0))
make_lem done r held alive reg n at i = absurd (ground (arith, i.0))
make_lem thrown r held alive reg n at i = absurd (ground (arith, i.0))

unlock_lem :
    (c : Creator) (r : Runner) (held alive : Bool) (reg : Option ℕ)
    → r ≡ made
    → Phase c r held alive reg
    → Phase c looping false alive reg × (alive ≡ true)
unlock_lem begun r held alive reg at i = absurd (ground (arith, i.0))
unlock_lem locked r held alive reg at i = absurd (ground (arith, i.0))
unlock_lem waiting r held alive reg at (a, inl (p, h)) = absurd (ground (arith, p))
unlock_lem waiting r held alive reg at (a, inr (inl (p, h, e))) = absurd (ground (arith, p))
unlock_lem waiting r held alive reg at (a, inr (inr (inl (p, h, e)))) =
    ((a, inr (inr (inr (refl, refl, e)))), a)
unlock_lem waiting r held alive reg at (a, inr (inr (inr (p, h, e)))) = absurd (ground (arith, p))
unlock_lem woken r held alive reg at i = absurd (ground (arith, i.0))
unlock_lem done r held alive reg at i = absurd (ground (arith, i.0))
unlock_lem thrown r held alive reg at i = absurd (ground (arith, i.0))

at_phase :
    {c : Creator} (s : System)
    → s.creator ≡ c
    → IsOrdered s
    → Phase c s.runner s.mutex_held s.mutex_alive s.registry
unfolding IsOrdered
at_phase s at i = subst (λ c. Phase c s.runner s.mutex_held s.mutex_alive s.registry) at i

Step-IsOrdered : {s t : System} → Step s t → IsOrdered s → IsOrdered t
unfolding IsOrdered
Step-IsOrdered (lock s at free) i = let j = at_phase s at i in (j.0, refl, j.2, j.3)
Step-IsOrdered (create s at) i = let j = at_phase s at i in (j.2, inr (inl (refl, j.1, j.3)))
Step-IsOrdered (create_thrown s at) i = let j = at_phase s at i in (j.0, j.2)
Step-IsOrdered (create_unseen s at) i = let j = at_phase s at i in (j.2, inl (j.0, j.1))
Step-IsOrdered (lock_again s at free) i =
    let (alive, phase) = at_phase s at i in
    elim phase [
      | inl (r, h) ↦ absurd (ground (arith, h))
      | inr (inl (r, h, e)) ↦ absurd (ground (arith, h))
      | inr (inr (inl (r, h, e))) ↦ absurd (ground (arith, h))
      | inr (inr (inr (r, h, e))) ↦ (r, refl, alive, e)
    ]
Step-IsOrdered (destroy s at) i = let j = at_phase s at i in (j.0, j.1, refl, j.3)
Step-IsOrdered (make s r at) i =
    make_lem s.creator s.runner s.mutex_held s.mutex_alive s.registry r at i
Step-IsOrdered (unlock s at) i =
    (unlock_lem s.creator s.runner s.mutex_held s.mutex_alive s.registry at i).0

Reach-IsOrdered : {s : System} → Reach s → IsOrdered s
unfolding new_server IsOrdered
Reach-IsOrdered start = (refl, refl, refl, refl)
Reach-IsOrdered (step s t r e) = Step-IsOrdered e (Reach-IsOrdered r)

-- How many steps the two threads have in front of them, at most.
abbrev creator_rank : Creator → ℕ
creator_rank begun = 4
creator_rank locked = 3
creator_rank waiting = 2
creator_rank woken = 1
creator_rank done = 0
creator_rank thrown = 0

abbrev runner_rank : Runner → ℕ
runner_rank absent = 2
runner_rank running = 2
runner_rank made = 1
runner_rank looping = 0

abbrev pub rank : System → ℕ
rank s = creator_rank s.creator + runner_rank s.runner

Step-rank : {s t : System} → Step s t → IsOrdered s → rank t < rank s
Step-rank (lock s at free) i = rw at (omega arith)
Step-rank (create s at) i = rw (at, (at_phase s at i).0) (omega arith)
Step-rank (create_thrown s at) i = rw at (omega arith)
Step-rank (create_unseen s at) i = rw at (omega arith)
Step-rank (lock_again s at free) i = rw at (omega arith)
Step-rank (destroy s at) i = rw at (omega arith)
Step-rank (make s r at) i = rw at (omega arith)
Step-rank (unlock s at) i = rw at (omega arith)

-- The constructor has come to its end: it has returned, it has thrown because there is no thread, or it waits
-- for ever for a thread that there is not, with the mutex in its own hands.
abbrev pub Ends : System → Type 0
Ends s =
    (s.creator ≡ done)
    ⊎ ((s.creator ≡ thrown) × (s.runner ≡ absent))
    ⊎ ((s.creator ≡ waiting) × (s.runner ≡ absent) × (s.mutex_held ≡ true))

-- Either the constructor has come to its end, or there is a step.
progress :
    (c : Creator) (s : System) → s.creator ≡ c → IsOrdered s → Ends s ⊎ ((t : System) × Step s t)
progress begun s at i = inr (_, lock s at (at_phase s at i).1)
progress locked s at i = inr (_, create s at)
progress waiting s at i = elim ((at_phase s at i).1) [
  | inl (r, h) ↦ inl (inr (inr (at, r, h)))
  | inr (inl (r, h, e)) ↦ inr (_, make s 0 r)
  | inr (inr (inl (r, h, e))) ↦ inr (_, unlock s r)
  | inr (inr (inr (r, h, e))) ↦ inr (_, lock_again s at h)
]
progress woken s at i = inr (_, destroy s at)
progress done s at i = inl (inl at)
progress thrown s at i = inl (inr (inl (at, (at_phase s at i).0)))

-- Whatever the two threads have done so far, each further step brings the end nearer, so that there is no
-- endless run, and where there is no step left the constructor has returned, or its thread could not be
-- created: then it has thrown, or it waits for ever where `chksys` takes the error for a success.
pub constructor_returns :
    (s : System)
    → Reach s
    → (Ends s ⊎ ((t : System) × Step s t)) × ((t : System) → Step s t → rank t < rank s)
constructor_returns s r =
    let i = Reach-IsOrdered r in (progress s.creator s refl i, λ t e. Step-rank e i)

-- When the constructor has returned, the thread is in its loop and the registry is there; and the mutex was
-- held when it was destroyed.
pub done-registry :
    (s : System)
    → Reach s
    → s.creator ≡ done
    → (s.runner ≡ looping)
      × ((r : ℕ) × (s.registry ≡ some r))
      × (s.mutex_held ≡ true)
      × (s.mutex_alive ≡ false)
done-registry s r at = let j = at_phase s at (Reach-IsOrdered r) in (j.0, j.3, j.1, j.2)
