-- ===== src/Ned/Starting.antt =====
-- dom0/dom0-ned/server/src/server.cc and server.h: the start of the server's thread, and its registry.
pub mod Handover
use l4re_tmp_fs.Base.{ℕ, ◌≡◌, Bool, true, false, Option, none, some}
use l4re_tmp_fs.Ned.Objects
use l4re_tmp_fs.Ned.Objects.{remove}

-- Where the constructor `Server()` is: in front of its first lock, behind it, in its second lock, behind that,
-- and at its end, behind the end of the mutex; or left by the exception of `chksys`.
pub data Creator : Type 0 where
  begun locked waiting woken done thrown : Creator

-- Where the thread is: not there, at the beginning of `run`, behind the creation of the registry, and in the
-- loop of the server.
pub data Runner : Type 0 where
  absent running made looping : Runner

-- The server, the mutex `_start_mutex`, and the two threads.
pub record System : Type 0 where
  pub creator : Creator
  pub runner : Runner
  pub mutex_held : Bool
  pub mutex_alive : Bool
  pub registry : Option ℕ

-- Server::Server has initialised the mutex.
unfoldable pub new_server : System
new_server = record {
  creator = begun;
  runner = absent;
  mutex_held = false;
  mutex_alive = true;
  registry = none;
}

-- One step of one of the threads. When there is no thread, `pthread_create` answers an error: `chksys` throws
-- a negative one, and takes a positive one for a success.
pub data Step : System → System → Type 0 where
  lock :
      (s : System)
      → s.creator ≡ begun
      → s.mutex_held ≡ false
      → Step s (record s { creator = locked; mutex_held = true })
  create :
      (s : System) → s.creator ≡ locked → Step s (record s { creator = waiting; runner = running })
  create_thrown : (s : System) → s.creator ≡ locked → Step s (record s { creator = thrown })
  create_unseen : (s : System) → s.creator ≡ locked → Step s (record s { creator = waiting })
  lock_again :
      (s : System)
      → s.creator ≡ waiting
      → s.mutex_held ≡ false
      → Step s (record s { creator = woken; mutex_held = true })
  destroy :
      (s : System) → s.creator ≡ woken → Step s (record s { creator = done; mutex_alive = false })
  make :
      (s : System) (r : ℕ)
      → s.runner ≡ running
      → Step s (record s { runner = made; registry = some r })
  unlock :
      (s : System) → s.runner ≡ made → Step s (record s { runner = looping; mutex_held = false })

pub data Reach : System → Type 0 where
  start : Reach new_server
  step : (s t : System) → Reach s → Step s t → Reach t

-- Registry::unregister_obj, where `reap_list` is the list of the registry, and `base` what the library's
-- registry does and answers.
unfoldable pub unregister_obj :
    {W : Type 0} → (ℕ → W → Bool × W) → ℕ → ℕ → Objects.State × W → Bool × (Objects.State × W)
unregister_obj base reap_list o (s, w) =
    let (_, s') = remove reap_list o s in let (ok, w') = base o w in (ok, (s', w'))
