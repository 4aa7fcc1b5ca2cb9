-- ===== src/Ned/Boot/Trace.antt =====
-- dom0/dom0-ned/server/src/lua.cc: what happens in the start of Ned, in its order.
use Prim.Native.String.{String}
use l4re_tmp_fs.Base.{
  ap₂, ltb, leb, ◌||◌, ℕ, ◌≡◌, refl, sym, ap, ◌∙◌, Bool, true, false, List, [], ◌∷◌, ◌++◌,
  append_assoc, append-nil, length, drop, arith,
}
use l4re_tmp_fs.Ned.Lua.{Lib}
use l4re_tmp_fs.Ned.Boot.{
  Opt, opt_i, opt_s, opt_other, Ned, Outcome, returned, serving, flags_of, libs, open_libs,
  run_init, do_files, parse, set_option, finish, serve, run_scripts, lua,
}

pub data Event : Type 0 where
  opened : String → Event
  caps loaded ran registered collected told : Event
  inited : Lib → Event
  file : List ℕ → Event

-- What has happened.
abbrev pub World : Type 0
World = List Event

abbrev log : Event → World → World
log e events = events ++ e ∷ []

-- A machine that notes what happens; `fails` says which steps end with an error.
abbrev pub recorder : (Event → Bool) → Ned World
recorder fails = record {
  new_state = λ w. (true, w);
  open_lib = λ l w. log (opened l) w;
  init_lua_cap = log caps;
  init = λ c w. log (inited c) w;
  load_script = λ w. (fails loaded, log loaded w);
  run_script = λ w. (fails ran, log ran w);
  do_file = λ f w. (fails (file f), log (file f) w);
  register_obj = λ w. (true, log registered w);
  collect = log collected;
  tell = log told;
}

abbrev map {ℓ κ} : {A : Type ℓ} {B : Type κ} → (A → B) → List A → List B
map f [] = []
map f (a ∷ xs) = f a ∷ map f xs

-- The start, up to the last file.
unfoldable pub startup : List Lib → List (List ℕ) → List Event
startup ls files = map opened libs ++ (caps ∷ (map inited ls ++ (loaded ∷ ran ∷ map file files)))

abbrev same_opt : Opt → Opt → Bool
same_opt opt_i opt_i = true
same_opt opt_s opt_s = true
same_opt opt_other opt_other = true
same_opt _ _ = false

-- Whether the option is one of these.
abbrev pub given : Opt → List Opt → Bool
given o [] = false
given o (p ∷ opts) = same_opt o p || given o opts

-- Ned serves when -s is given.
abbrev pub serves : List Opt → Bool
serves opts = given opt_s opts

-- It is interactive when -i is given, when it has no argument, or when all its arguments are options.
abbrev pub is_interactive : ℕ → List Opt → ℕ → Bool
is_interactive argc opts optind = ltb argc 2 || given opt_i opts || leb argc optind

-- What comes behind the files.
unfoldable pub ending : (server : Bool) → (interactive : Bool) → List Event → Outcome × World
ending true _ s = (serving, s ++ registered ∷ [])
ending false false s = (returned 0, s ++ collected ∷ [])
ending false true s = (returned 0, (s ++ collected ∷ []) ++ told ∷ [])

parse_lem :
    (opts : List Opt) (i s : Bool)
    → parse opts (i, s) ≡ (i || given opt_i opts, s || given opt_s opts)
unfolding parse set_option
parse_lem [] i s = ground arith
parse_lem (opt_i ∷ opts) i s = parse_lem opts true s ∙ ground arith
parse_lem (opt_s ∷ opts) i s = parse_lem opts i true ∙ ground arith
parse_lem (opt_other ∷ opts) i s = parse_lem opts i s

flags_of_lem :
    (argc : ℕ) (opts : List Opt) (optind : ℕ)
    → flags_of argc opts optind ≡ (is_interactive argc opts optind, serves opts)
unfolding flags_of
flags_of_lem argc opts optind = rw (parse_lem opts (ltb argc 2) false) (ground arith)

snoc : {A : Type 0} (xs : List A) (x : A) (ys : List A) → (xs ++ x ∷ []) ++ ys ≡ xs ++ (x ∷ ys)
snoc xs x ys = append_assoc xs (x ∷ []) ys

module _ (fails : Event → Bool) where
  open_libs_lem :
      (ls : List String) (es : List Event) → open_libs (recorder fails) ls es ≡ es ++ map opened ls
  unfolding open_libs
  open_libs_lem [] es = sym (append-nil es)
  open_libs_lem (l ∷ ls) es =
      open_libs_lem ls (es ++ opened l ∷ []) ∙ snoc es (opened l) (map opened ls)

  run_init_lem :
      (cs : List Lib) (es : List Event) → run_init (recorder fails) cs es ≡ es ++ map inited cs
  unfolding run_init
  run_init_lem [] es = sym (append-nil es)
  run_init_lem (c ∷ cs) es =
      run_init_lem cs (es ++ inited c ∷ []) ∙ snoc es (inited c) (map inited cs)

  do_files_lem :
      (fs : List (List ℕ)) (es : List Event) → do_files (recorder fails) fs es ≡ es ++ map file fs
  unfolding do_files
  do_files_lem [] es = sym (append-nil es)
  do_files_lem (f ∷ fs) es = do_files_lem fs (es ++ file f ∷ []) ∙ snoc es (file f) (map file fs)

  serve_lem :
      (server interactive : Bool) (es : List Event)
      → serve (recorder fails) (interactive, server) es ≡ ending server interactive es
  unfolding serve finish ending
  serve_lem true interactive es = refl
  serve_lem false false es = refl
  serve_lem false true es = refl

  -- What has happened when the last file has run.
  started :
      (ls : List Lib) (files : List (List ℕ))
      → do_files (recorder fails) files (
          log ran (
            log loaded
              (run_init (recorder fails) ls (log caps (open_libs (recorder fails) libs [])))))
        ≡ startup ls files
  unfolding startup open_libs
  started ls files =
      let begun : List Event = map opened libs ++ (caps ∷ []) in
      let ready = begun ++ map inited ls in
      ap (λ w. do_files (recorder fails) files (log ran (log loaded w))) (run_init_lem ls begun)
      ∙ do_files_lem files ((ready ++ loaded ∷ []) ++ ran ∷ [])
      ∙ snoc (ready ++ loaded ∷ []) ran (map file files)
      ∙ snoc ready loaded (ran ∷ map file files)

  -- When ned.lua compiles and runs, Ned opens the libraries of LUA and then its own, in the order of their
  -- list, loads and runs ned.lua, and then every file of the command line once and in order, whatever becomes
  -- of the files in front of it. With -s it registers and serves. Without, it collects and returns, and first
  -- says that there is no interactive mode if it has no argument, only options, or -i.
  pub lua_lem :
      (ls : List Lib) (argv : List (List ℕ)) (opts : List Opt) (optind : ℕ)
      → fails loaded ≡ false
      → fails ran ≡ false
      → lua (recorder fails) ls argv opts optind []
        ≡ ending
            (serves opts)
            (is_interactive (length argv) opts optind)
            (startup ls (drop optind argv))
  unfolding lua run_scripts
  lua_lem ls argv opts optind ok good =
      rw (ok, good)
        (ap₂ (serve (recorder fails)) (flags_of_lem (length argv) opts optind)
            (started ls (drop optind argv))
          ∙ serve_lem (serves opts) (is_interactive (length argv) opts optind) _)
