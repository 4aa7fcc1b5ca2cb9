-- ===== src/Ned/Factory.antt =====
-- dom0/dom0-ned/server/src/lua_factory.cc, which makes an object for LUA, and lua_env.cc, which hands Ned's own
-- capabilities to LUA.
pub mod Made
use Prim.Native.String.{String}
use l4re_tmp_fs.Base.{
  ℕ, zero, suc, ◌^◌, ◌≡◌, ◌⊎◌, inl, inr, refl, ◌∙◌, Bool, Bool-cases, true, false, List, [], ◌∷◌,
  Option, none, some, ℤ, is_neg, if◌then◌else◌,
}
use l4re_tmp_fs.Libfs.Svr.{Method}
use l4re_tmp_fs.Ned.Cap.{Rights, bits, CapFpage, Cap, new_cap, set, set_rights}
use l4re_tmp_fs.Ned.Model.{Value, nil, foreign, other, cap, number, string, function}
use l4re_tmp_fs.Ned.Namespace.{L4re, Result, raised, pushed}

-- What the arguments are to the factory.
pub data Item : Type 0 where
  word : ℤ → Item
  text : List ℕ → Item
  empty : Item

-- The loop over the arguments from the third on. A value of another kind is left out.
unfoldable pub items : List Value → List Item
items [] = []
items (number z s ∷ args) = word z ∷ items args
items (string s ∷ args) = text s ∷ items args
items (nil ∷ args) = empty ∷ items args
items (_ ∷ args) = items args

-- `create` is the call of the factory, with the slot of the new object, its type and the arguments.
module _ {W : Type 0} (k : CapFpage) (l4re : L4re W)
    (create : ℕ → ℕ → ℤ → List Item → Method W ℤ) where
  -- The rest of `__alloc`, from the call of the factory on.
  unfoldable pub create_in : Cap → ℤ → List Value → ℕ → Method W Result
  create_in n objt args obj w =
      let (r, w') = create n.c obj objt (items args) w in
      if is_neg r
      then (raised, l4re.unwind obj w')
      else (pushed (set obj (new_cap k l4re.invalid (bits 0))), w')

  -- `__alloc`
  unfoldable pub create_object : Cap → ℤ → List Value → Method W Result
  create_object n objt args w =
      let (obj, w') = l4re.alloc w in
      elim obj [ none ↦ (raised, w') | some o ↦ create_in n objt args o w' ]

-- A capability as `register_cap` makes it, where `rws` is L4_CAP_FPAGE_RWS.
unfoldable pub env_cap : CapFpage → Rights → ℕ → ℕ → Cap
env_cap k rws invalid c = set_rights k rws (set c (new_cap k invalid (bits 0)))

-- The capabilities of L4Re::Env, in which `initial_caps` has the name of each; `initial_caps` ends in front of the entry whose flags are ~0UL.
pub record Env : Type 0 where
  pub parent : ℕ
  pub mem_alloc : ℕ
  pub rm : ℕ
  pub log : ℕ
  pub factory : ℕ
  pub scheduler : ℕ
  pub initial_caps : List (String × ℕ)

-- The loop over the initial capabilities. The fields are in the order in which they are set.
unfoldable pub initial_fields : (ℕ → Cap) → List (String × ℕ) → List (String × Cap)
initial_fields make [] = []
initial_fields make ((name, c) ∷ caps) = (name, make c) ∷ initial_fields make caps

-- What `Lib_env::init` sets in the table `Env`.
unfoldable pub init_env : CapFpage → Rights → ℕ → Env → List (String × Cap)
init_env k rws invalid e =
    let make = env_cap k rws invalid in
    ("parent", make e.parent)
    ∷ ("mem_alloc", make e.mem_alloc)
    ∷ ("rm", make e.rm)
    ∷ ("log", make e.log)
    ∷ ("factory", make e.factory)
    ∷ ("scheduler", make e.scheduler)
    ∷ initial_fields make e.initial_caps
