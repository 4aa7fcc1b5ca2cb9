-- ===== src/Net/Listen.antt =====
-- dom0/dom0-main/server/src/dom0_server.cc: the two listeners, their threads, and the thread that starts
-- them.
pub mod Frames
use l4re_tmp_fs.Base.{
  ℕ, zero, suc, ◌≡◌, ◌≢◌, Bool, true, false, List, [], ◌∷◌, Option, none, some, ℤ, if◌then◌else◌,
}
use l4re_tmp_fs.Libfs.Svr.{Method}

pub data ListenerType : Type 0 where
  lua binary : ListenerType

pub record ListenerArgs : Type 0 where
  pub port : ℕ
  pub type : ListenerType

-- The ports of ServerArgs.
pub record ServerArgs : Type 0 where
  pub lua_port : ℕ
  pub binary_port : ℕ

-- The calls of the sockets, and the start of a thread that runs a handler on a connection. Their answers
-- are printed at most.
pub record Sockets (W : Type 0) : Type 0 where
  pub socket : Method W ℤ
  pub bind : ℤ → ℕ → Method W ℤ
  pub listen : ℤ → ℕ → Method W ℤ
  pub accept : ℤ → Method W ℤ
  pub handle : ListenerType → ℤ → W → W

module _ {W : Type 0} (sockets : Sockets W) where
  open sockets use {socket, bind, listen, accept, handle}

  -- The loop of `serverCombined`, for so many connections.
  unfoldable pub accept_all : ℕ → ListenerType → ℤ → W → W
  accept_all zero type sock w = w
  accept_all (suc n) type sock w =
      let (newfd, w') = accept sock w in accept_all n type sock (handle type newfd w')

  unfoldable pub server_combined : ℕ → ListenerArgs → W → W
  server_combined connections args w =
      let (sock, w1) = socket w in
      let (_, w2) = bind sock args.port w1 in
      let (_, w3) = listen sock 10 w2 in accept_all connections args.type sock w3

-- A thread of a listener: not created, created, or with the arguments that it has read.
pub data Thread : Type 0 where
  absent created : Thread
  listening : ListenerArgs → Thread

-- Where `dom0Server` is: in front of its first `pthread_create`, of its second one, of its end, or behind that.
pub data Stage : Type 0 where
  at_lua at_binary at_end returned : Stage

-- The stack frame of `dom0Server` with the two arguments, where the function is, and the threads.
pub record Frame : Type 0 where
  pub lua_args : ListenerArgs
  pub binary_args : ListenerArgs
  pub stage : Stage
  pub lua_thread : Thread
  pub binary_thread : Thread

-- The frame when the arguments are set.
unfoldable pub dom0_server : ServerArgs → Frame
dom0_server args = record {
  lua_args = record { port = args.lua_port; type = lua };
  binary_args = record { port = args.binary_port; type = binary };
  stage = at_lua;
  lua_thread = absent;
  binary_thread = absent;
}

-- The rest of `dom0Server`, which does not look at the answers of `pthread_create`, the threads that read their
-- arguments through the pointers that they were given, and what later calls of the thread of `dom0Server` leave
-- in the place of its frame.
pub data Step : Frame → Frame → Type 0 where
  create_lua :
      (f : Frame) → f.stage ≡ at_lua → Step f (record f { stage = at_binary; lua_thread = created })
  lua_fails : (f : Frame) → f.stage ≡ at_lua → Step f (record f { stage = at_binary })
  create_binary :
      (f : Frame)
      → f.stage ≡ at_binary
      → Step f (record f { stage = at_end; binary_thread = created })
  binary_fails : (f : Frame) → f.stage ≡ at_binary → Step f (record f { stage = at_end })
  return : (f : Frame) → f.stage ≡ at_end → Step f (record f { stage = returned })
  read_lua :
      (f : Frame)
      → f.lua_thread ≡ created
      → Step f (record f { lua_thread = listening (f.lua_args) })
  read_binary :
      (f : Frame)
      → f.binary_thread ≡ created
      → Step f (record f { binary_thread = listening (f.binary_args) })
  overwrite :
      (f : Frame) (a b : ListenerArgs)
      → f.stage ≡ returned
      → Step f (record f { lua_args = a; binary_args = b })

pub data Reach (f : Frame) : Frame → Type 0 where
  here : Reach f f
  next : {g h : Frame} → Reach f g → Step g h → Reach f h
