-- ===== src/Net/Options.antt =====
-- The command line of dom0/dom0-main/server/src/main.cc: the options, and the checks before the start.
use l4re_tmp_fs.Base.{
  ℕ, ◌-◌, ◌==◌, ◌≡◌, ◌≢◌, ◌⊎◌, inl, inr, arith, subst, Bool, Bool-cases, Option-cases, true, false,
  not, List, [], ◌∷◌, Option, none, some, ℤ, pos, is_zero, if◌then◌else◌, take,
}

-- The enum `options`, in its order; `other` stands for what `getopt_long` returns for an option that it
-- does not know.
pub data Name : Type 0 where
  buf_size shm_name enable_client listen_address lua_listen_port binary_listen_port gateway netmask
        target_address lua_target_port binary_target_port other :
      Name

-- The local variables of `main`, and the static `cfg`.
pub record Config : Type 0 where
  pub bufsize : ℤ
  pub shm : List ℕ
  pub client : Bool
  pub lua_listen : ℤ
  pub binary_listen : ℤ
  pub lua_target : ℤ
  pub binary_target : ℤ
  pub target : ℕ
  pub gateway_addr : ℕ
  pub netmask_addr : ℕ

abbrev pub initial : Config
initial = record {
  bufsize = pos 1024;
  shm = [];
  client = false;
  lua_listen = pos 0;
  binary_listen = pos 0;
  lua_target = pos 0;
  binary_target = pos 0;
  target = 0;
  gateway_addr = 0;
  netmask_addr = 0;
}

-- The C library: `atoi`, `inet_aton` (`none` for what is no address), and the size of the name in `cfg`.
pub record Parsers : Type 0 where
  pub atoi : List ℕ → ℤ
  pub inet_aton : List ℕ → Option ℕ
  pub shm_name_size : ℕ

abbrev with_address : Option ℕ → (ℕ → Config) → Option Config
with_address a f = elim a [ some n ↦ some (f n) | none ↦ none ]

module _ (p : Parsers) where
  -- The `switch`; `none` is `return -1`. The case LISTEN_ADDRESS is commented out.
  unfoldable pub set_option : Name → List ℕ → Config → Option Config
  set_option buf_size arg c = some (record c { bufsize = p.atoi arg })
  set_option shm_name arg c = some (record c { shm = take (p.shm_name_size - 1) arg })
  set_option enable_client arg c = some (record c { client = true })
  set_option listen_address arg c = some c
  set_option lua_listen_port arg c = some (record c { lua_listen = p.atoi arg })
  set_option binary_listen_port arg c = some (record c { binary_listen = p.atoi arg })
  set_option gateway arg c = with_address (p.inet_aton arg) (λ a. record c { gateway_addr = a })
  set_option netmask arg c = with_address (p.inet_aton arg) (λ a. record c { netmask_addr = a })
  set_option target_address arg c = with_address (p.inet_aton arg) (λ a. record c { target = a })
  set_option lua_target_port arg c = some (record c { lua_target = p.atoi arg })
  set_option binary_target_port arg c = some (record c { binary_target = p.atoi arg })
  set_option other arg c = some c

  -- The loop over the options, in the order in which `getopt_long` returns them with `optarg`.
  unfoldable pub parse : List (Name × List ℕ) → Config → Option Config
  parse [] c = some c
  parse ((o, arg) ∷ args) c = elim (set_option o arg c) [ some c' ↦ parse args c' | none ↦ none ]

-- cfg.shm_name[0] == a NUL
abbrev pub is_empty : List ℕ → Bool
is_empty [] = true
is_empty (b ∷ bs) = b == 0

-- The checks after the loop: whether `main` goes on.
unfoldable pub is_complete : Config → Bool
is_complete c =
    if is_zero c.bufsize
    then false
    else if is_empty c.shm
    then false
    else if c.netmask_addr == 0
    then false
    else if c.gateway_addr == 0
    then false
    else if is_zero c.lua_listen
    then false
    else if is_zero c.binary_listen
    then false
    else if c.client
    then (if c.target == 0
        then false
        else if is_zero c.lua_target
        then false
        else not (is_zero c.binary_target))
    else true

-- `main` starts the network with these settings, or returns -1.
unfoldable pub configure : Parsers → List (Name × List ℕ) → Option Config
configure p args = elim (parse p args initial) [
  | some c ↦ if is_complete c then some c else none
  | none ↦ none
]

-- What the checks are for: a buffer, a name for the shared memory, the network's addresses and ports,
-- and the partner's address and ports if the client is enabled.
abbrev pub Complete : Config → Type 0
Complete c =
    (is_zero c.bufsize ≡ false)
    × (is_empty c.shm ≡ false)
    × (c.netmask_addr ≢ 0)
    × (c.gateway_addr ≢ 0)
    × (is_zero c.lua_listen ≡ false)
    × (is_zero c.binary_listen ≡ false)
    × ((c.client ≡ false)
        ⊎ ((c.target ≢ 0) × (is_zero c.lua_target ≡ false) × (is_zero c.binary_target ≡ false)))

is_complete_lem : (c : Config) → is_complete c ≡ true → Complete c
unfolding is_complete
is_complete_lem c h = ground arith

abbrev AllComplete : Option Config → Type 0
AllComplete none = Unit {0}
AllComplete (some c) = Complete c

checked : (c : Config) → AllComplete (if is_complete c then some c else none)
checked c = elim (Bool-cases (is_complete c)) [
  | inl yes_complete ↦ rw yes_complete (is_complete_lem c yes_complete)
  | inr incomplete ↦ rw incomplete tt
]

configure-AllComplete : (p : Parsers) (args : List (Name × List ℕ)) → AllComplete (configure p args)
unfolding configure
configure-AllComplete p args = elim (Option-cases (parse p args initial)) [
  | inl failed ↦ rw (failed, AllComplete) tt
  | inr (c, parsed) ↦ rw (parsed, AllComplete) (checked c)
]

-- The settings with which the network is started are complete, whatever the options were.
pub configure-Complete :
    (p : Parsers) (args : List (Name × List ℕ)) (c : Config)
    → configure p args ≡ some c
    → Complete c
configure-Complete p args c e = subst AllComplete e (configure-AllComplete p args)
