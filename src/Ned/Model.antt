-- ===== src/Ned/Model.antt =====
-- dom0/dom0-ned/server/src/lua_exec.cc: the class `Am`, which reads what LUA says of a program that is to be
-- started: the settings, the capabilities, the arguments and the environment.
pub mod InitialCaps
use l4re_tmp_fs.Base.{
  ◌>>=◌, ℕ, zero, suc, ◌+◌, ◌-◌, ◌==◌, ◌^◌, Bool, true, false, not, ◌&&◌, List, [], ◌∷◌, Option,
  none, some, ℤ, is_neg, to_word, ltb, length, if◌then◌else◌,
}
use l4re_tmp_fs.Libfs.Svr.{Method}
use l4re_tmp_fs.Ned.Cap.{Rights, Cap, ext_rights, rights, meet}

-- A value of LUA. A function is given with what it returns; `number` has what `lua_tointeger` gives, and its
-- text; `foreign` is an object of another type than Cap, and `other` is none of these.
pub data Value : Type 0 where
  nil foreign other : Value
  cap : Cap → Value
  number : ℤ → List ℕ → Value
  string : List ℕ → Value
  function : Value → Value

-- The loop that calls functions until there is another value.
unfoldable pub resolve : Value → Value
resolve (function v) = resolve v
resolve v = v

-- A capability with rights, as it is sent.
pub record Fpage : Type 0 where
  pub c : ℕ
  pub rights : Rights

unfoldable pub fpage : Cap → Fpage
fpage c = record { c = c.c; rights = rights c }

-- `_cfg_integer`, with the value of the field.
unfoldable pub cfg_integer : Value → ℕ → ℕ → ℕ
cfg_integer (number z s) limit def = to_word limit z
cfg_integer v limit def = def

-- `_cfg_cap`, with the value of the field. None is an error of LUA.
unfoldable pub set_cap : Value → Fpage → Option Fpage
set_cap nil r = some r
set_cap (cap c) r = some (fpage c)
set_cap v r = none

unfoldable pub cfg_cap : Value → Fpage → Option Fpage
cfg_cap v r = set_cap (resolve v) r

-- What `parse_cfg` sets of the program's information, and `_rm_fab`.
pub record ProgInfo : Type 0 where
  pub mem_alloc : Fpage
  pub log : Fpage
  pub factory : Fpage
  pub scheduler : Fpage
  pub ldr_flags : ℕ
  pub l4re_dbg : ℕ
  pub rm_fab : ℕ

-- The fields of the table that `parse_cfg` reads.
pub record Cfg : Type 0 where
  pub log : Value
  pub mem : Value
  pub factory : Value
  pub scheduler : Value
  pub rm_fab : Value
  pub ldr_flags : Value
  pub l4re_dbg : Value

-- The capabilities of Ned's own environment.
pub record Env : Type 0 where
  pub mem_alloc : Fpage
  pub log : Fpage
  pub factory : Fpage
  pub scheduler : Fpage

-- `limit` is the number of the values of an l4_umword_t.
unfoldable pub parse_cfg : ℕ → Env → Cfg → Option ProgInfo
parse_cfg limit env cfg = do
  log ← cfg_cap cfg.log env.log
  mem ← cfg_cap cfg.mem env.mem_alloc
  factory ← cfg_cap cfg.factory env.factory
  scheduler ← cfg_cap cfg.scheduler env.scheduler
  fab ← cfg_cap cfg.rm_fab mem
  some (record {
    mem_alloc = mem;
    log = log;
    factory = factory;
    scheduler = scheduler;
    ldr_flags = cfg_integer cfg.ldr_flags limit 0;
    l4re_dbg = cfg_integer cfg.l4re_dbg limit 0;
    rm_fab = fab.c;
  })

-- An entry of the program's environment: the name and the index of a capability.
pub record Entry : Type 0 where
  pub name : List ℕ
  pub index : ℕ

-- `valid` is l4re_env_cap_entry_t::is_valid_name, `offset` is L4_CAP_OFFSET. The stack has its last entry
-- first. None is an error of LUA.
module _ (valid : List ℕ → Bool) (offset : ℕ) where
  unfoldable pub push_initial_caps :
      List (List ℕ × Value) → ℕ → List Entry → Option (ℕ × List Entry)
  push_initial_caps [] start stack = some (start, stack)
  push_initial_caps ((name, v) ∷ tab) start stack =
      if valid name
      then elim (resolve v) [
        | cap c ↦
            push_initial_caps tab (start + offset) (record { name = name; index = start } ∷ stack)
        | foreign ↦ none
        | _ ↦ push_initial_caps tab start stack
      ]
      else none

-- What is mapped into the new task: a capability, the index of the destination, and the extended rights.
pub record Mapping : Type 0 where
  pub source : Fpage
  pub destination : ℕ
  pub ext : Rights

-- `task_map` is the call of the kernel; an error is thrown, like one of LUA.
module _ {W : Type 0} (task_map : Mapping → Method W ℤ) (offset : ℕ) where
  unfoldable pub map_initial_caps : List (List ℕ × Value) → ℕ → W → Bool × W
  map_initial_caps [] start w = (true, w)
  map_initial_caps ((name, v) ∷ tab) start w = elim (resolve v) [
    | cap c ↦
        let (r, w') =
          task_map (record { source = fpage c; destination = start; ext = ext_rights c }) w in
        elim (is_neg r) [ true ↦ (false, w') | false ↦ map_initial_caps tab (start + offset) w' ]
    | foreign ↦ (false, w)
    | _ ↦ map_initial_caps tab start w
  ]

-- The stack of the program in Ned, `_stack`: what is pushed lies at the address that the call returns.
pub record Stack (S : Type 0) : Type 0 where
  pub push_str : List ℕ → ℕ → Method S ℕ
  pub push_char : ℕ → S → S
  pub push_object : List ℕ → ℕ → Method S ℕ

-- `a0` and `al` of `argv` and `envp`.
pub record Strings : Type 0 where
  pub a0 : ℕ
  pub al : ℕ

-- `luaL_checklstring`
unfoldable pub text : Value → Option (List ℕ)
text (string s) = some s
text (number z s) = some s
text v = none

module _ {S : Type 0} (stack : Stack S) where
  -- The loop of `push_argv_strings`; its flag is false after an error of LUA.
  unfoldable pub push_args : List Value → Strings → S → (Bool × Strings) × S
  push_args [] argv s = ((true, argv), s)
  push_args (nil ∷ args) argv s = push_args args argv s
  push_args (v ∷ args) argv s = elim (text v) [
    | none ↦ ((false, argv), s)
    | some t ↦
        let (a, s') = stack.push_str t (length t) s in
        push_args args (record { a0 = if argv.a0 == 0 then a else argv.a0; al = a }) s'
  ]

  unfoldable pub push_argv_strings : List Value → Strings → S → (Bool × Strings) × S
  push_argv_strings args argv s = push_args args (record argv { a0 = 0 }) s

  -- The loop of `push_env_strings`, where `first` is its `_f`.
  unfoldable pub push_env : List (Value × Value) → Bool → Strings → S → (Bool × Strings) × S
  push_env [] first envp s = ((true, envp), s)
  push_env ((key, v) ∷ env) first envp s = elim (text key) [
    | none ↦ ((false, envp), s)
    | some k ↦ elim (text v) [
      | none ↦ ((false, envp), s)
      | some t ↦
          let s1 = stack.push_char b'=' (stack.push_str t (length t) s).1 in
          let (a, s') = stack.push_object k (length k) s1 in
          push_env env false (record { a0 = if first then a else envp.a0; al = a }) s'
    ]
  ]

  -- Without a table of the environment nothing is pushed.
  unfoldable pub push_env_strings :
      Option (List (Value × Value)) → Strings → S → (Bool × Strings) × S
  push_env_strings none envp s = ((true, envp), s)
  push_env_strings (some env) envp s = push_env env true envp s

-- `_env_idx` and `_argc` as the constructor of `Am` sets them, from the number of the arguments and the test
-- whether the last one is a table.
unfoldable pub am : ℕ → Bool → ℕ × ℕ
am argc is_table = if ltb 2 argc && is_table then (argc, argc - 1) else (0, argc)
