-- ===== src/Ned/Boot.antt =====
-- dom0/dom0-ned/server/src/lua.cc: the start of Ned, from the command line to its end or the server's
-- loop, as the Makefile builds it: without USE_READLINE.
pub mod Trace
use Prim.Native.String.{String}
use l4re_tmp_fs.Base.{
  ℕ, zero, suc, ◌+◌, ◌==◌, Bool, true, false, not, ◌||◌, List, [], ◌∷◌, Option, none, some, ltb,
  leb, length, drop, if◌then◌else◌,
}
use l4re_tmp_fs.Libfs.Svr.{Method}
use l4re_tmp_fs.Ned.Lua.{Lib}

-- What `getopt_long` returns for an option.
pub data Opt : Type 0 where
  opt_i opt_s opt_other : Opt

-- The LUA library, the libraries of Ned, and the registry; `tell` says that the interactive mode is not
-- compiled in. `load_script` and `run_script` are the
-- steps on ned.lua; they and `do_file` say whether there was an error.
pub record Ned (W : Type 0) : Type 0 where
  pub new_state : Method W Bool
  pub open_lib : String → W → W
  pub init_lua_cap : W → W
  pub init : Lib → W → W
  pub load_script : Method W Bool
  pub run_script : Method W Bool
  pub do_file : List ℕ → Method W Bool
  pub register_obj : Method W Bool
  pub collect : W → W
  pub tell : W → W

-- `lua` returns, or it is in the loop of the server for good.
pub data Outcome : Type 0 where
  returned : ℕ → Outcome
  serving : Outcome

-- `interactive` and `ipcServer`
unfoldable pub set_option : Opt → Bool × Bool → Bool × Bool
set_option opt_i (interactive, ipc_server) = (true, ipc_server)
set_option opt_s (interactive, ipc_server) = (interactive, true)
set_option opt_other flags = flags

unfoldable pub parse : List Opt → Bool × Bool → Bool × Bool
parse [] flags = flags
parse (o ∷ opts) flags = parse opts (set_option o flags)

-- The flags for a command line of `argc` words, of which those from `optind` on are no options.
unfoldable pub flags_of : ℕ → List Opt → ℕ → Bool × Bool
flags_of argc opts optind =
    let (interactive, ipc_server) = parse opts (ltb argc 2, false) in
    (interactive || leb argc optind, ipc_server)

-- The names in `libs`
abbrev pub libs : List String
libs = "" ∷ "string" ∷ "package" ∷ "debug" ∷ []

module _ {W : Type 0} (ned : Ned W) where
  open ned use {
    new_state, open_lib, init_lua_cap, init, load_script, run_script, do_file, register_obj,
    collect, tell,
  }

  unfoldable pub open_libs : List String → W → W
  open_libs [] w = w
  open_libs (l ∷ ls) w = open_libs ls (open_lib l w)

  -- Lib::run_init
  unfoldable pub run_init : List Lib → W → W
  run_init [] w = w
  run_init (c ∷ cs) w = run_init cs (init c w)

  -- The loop over the files; an error is printed at most.
  unfoldable pub do_files : List (List ℕ) → W → W
  do_files [] w = w
  do_files (f ∷ fs) w = do_files fs (do_file f w).1

  -- What comes behind the server.
  unfoldable pub finish : Bool → W → Outcome × W
  finish interactive w =
      let w' = collect w in (returned 0, elim interactive [ true ↦ tell w' | false ↦ w' ])

  -- What comes behind the files.
  unfoldable pub serve : Bool × Bool → W → Outcome × W
  serve (interactive, ipc_server) w = elim ipc_server [
    | true ↦ let (valid, w') = register_obj w in (if valid then serving else returned 1, w')
    | false ↦ finish interactive w
  ]

  -- ned.lua, and what comes behind it.
  unfoldable pub run_scripts : Bool × Bool → List (List ℕ) → W → Outcome × W
  run_scripts flags files w =
      let (e, w1) = load_script w in
      elim e [
        | true ↦ (returned 0, w1)
        | false ↦
            let (e', w2) = run_script w1 in
            elim e' [ true ↦ (returned 0, w2) | false ↦ serve flags (do_files files w2) ]
      ]

  -- `lua`, with `argv`, the options and the index that `getopt_long` makes of it, and `_lua_init`.
  unfoldable pub lua : List Lib → (argv : List (List ℕ)) → List Opt → (optind : ℕ) → W → Outcome × W
  lua lua_init argv opts optind w =
      let (valid, w1) = new_state w in
      elim valid [
        | false ↦ (returned 1, w1)
        | true ↦
            run_scripts (flags_of (length argv) opts optind) (drop optind argv)
              (run_init lua_init (init_lua_cap (open_libs libs w1)))
      ]
