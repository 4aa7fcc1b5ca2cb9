-- ===== src/Kernel/Regions.antt =====
-- dom0/dom0-l4re_kernel/server/src/main.cc and region.cc: the kernel of the loader takes over the regions
-- and areas of its own region map, and serves page faults in them.
pub mod Insert
pub mod Faults
use l4re_tmp_fs.Base.{
  ℕ, zero, suc, ◌+◌, ◌-◌, ◌*◌, ◌%◌, ◌==◌, ◌≡◌, Bool, true, false, not, ◌||◌, List, [], ◌∷◌, Option,
  none, some, if◌then◌else◌, ℤ, pos, neg,
}
use l4re_tmp_fs.Libfs.Svr.{Method}

-- The addresses from `start` to `end`, both included.
pub record Region : Type 0 where
  pub start : ℕ
  pub end : ℕ

-- How a loop of `insert_regions` ends: at the address behind the last region, with exit(1), or not within
-- the rounds.
pub data Outcome (L : Type 0) : Type 0 where
  done : ℕ → L → Outcome L
  exited : L → Outcome L
  out_of_rounds : Outcome L

-- `limit` is the number of the addresses. `attach` gets a start and a size, and answers an address.
module _ {L : Type 0} (limit : ℕ) where
  -- The loop over one answer of the region map.
  unfoldable pub insert_some : (ℕ → ℕ → Method L ℕ) → List Region → ℕ → L → Outcome L
  insert_some attach [] addr l = done addr l
  insert_some attach (r ∷ rs) addr l =
      let (x, l') = attach r.start ((r.end + limit - r.start + 1) % limit) l in
      let rest = insert_some attach rs ((r.end + 1) % limit) l' in
      if x == 0 then exited l' else rest

  -- The loop around it. `get` answers some of the regions from an address on.
  unfoldable pub insert_from : ℕ → (ℕ → List Region) → (ℕ → ℕ → Method L ℕ) → ℕ → L → Outcome L
  insert_from zero get attach addr l = out_of_rounds
  insert_from (suc rounds) get attach addr l = elim (get addr) [
    | [] ↦ done addr l
    | r ∷ rs ↦ elim (insert_some attach (r ∷ rs) addr l) [
      | done addr' l' ↦ insert_from rounds get attach addr' l'
      | exited l' ↦ exited l'
      | out_of_rounds ↦ out_of_rounds
    ]
  ]

  unfoldable pub insert_regions :
      ℕ
      → (ℕ → List Region)
      → (ℕ → List Region)
      → (ℕ → ℕ → Method L ℕ)
      → (ℕ → ℕ → Method L ℕ)
      → L
      → Outcome L
  insert_regions rounds get_regions get_areas attach attach_area l =
      elim (insert_from rounds get_regions attach 0 l) [
        | done addr l' ↦ insert_from rounds get_areas attach_area addr l'
        | exited l' ↦ exited l'
        | out_of_rounds ↦ out_of_rounds
      ]

-- A memory descriptor of the kernel's information page.
pub data MemType : Type 0 where
  conventional reserved other : MemType

pub record MemDesc : Type 0 where
  pub is_virtual : Bool
  pub start : ℕ
  pub end : ℕ
  pub type : MemType

-- What `init` calls of the region map; the last argument of `attach_area` says whether the area is
-- reserved.
pub record Map (L : Type 0) : Type 0 where
  pub set_limits : ℕ → ℕ → L → L
  pub attach_area : ℕ → ℕ → Bool → L → L

module _ {L : Type 0} (limit page_size : ℕ) (map : Map L) where
  unfoldable pub init_from : List MemDesc → L → L
  init_from [] l = l
  init_from (m ∷ ms) l =
      let l' : L = elim m.type [
        | conventional ↦ map.set_limits m.start m.end l
        | reserved ↦ map.attach_area m.start ((m.end + limit - m.start + 1) % limit) true l
        | other ↦ l
      ] in
      init_from ms (if m.is_virtual then l' else l)

  -- Region_map::init
  unfoldable pub init : List MemDesc → L → L
  init ms l = map.attach_area 0 page_size false (init_from ms l)

-- Region_handler, by what its flags are tested for; `memory` is none if the capability is not valid.
pub record RegionHandler : Type 0 where
  pub memory : Option ℕ
  pub offset : ℕ
  pub is_reserved : Bool
  pub is_pager : Bool

-- The dataspaces and the pager. `map` takes the capability, the offset, whether to write, the address,
-- and the bounds of the region.
pub record Paging (W : Type 0) : Type 0 where
  pub map : ℕ → ℕ → Bool → ℕ → ℕ → ℕ → Method W ℤ
  pub page_fault : ℕ → ℕ → Bool → W → W
  pub clear : ℕ → ℕ → ℕ → W → W

module _ {W : Type 0} (limit enoent : ℕ) (paging : Paging W) where
  open paging use {page_fault, clear}

  -- Region_ops::map
  unfoldable pub map : RegionHandler → ℕ → Region → Bool → Method W ℤ
  map h local_adr r writable w = elim (h.memory) [
    | none ↦ (neg enoent, w)
    | some cap ↦
        let fault = page_fault cap local_adr writable w in
        let offset = (local_adr + limit - r.start + h.offset) % limit in
        let mapped = paging.map cap offset writable local_adr r.start r.end w in
        if h.is_reserved then (neg enoent, w) else if h.is_pager then (pos 0, fault) else mapped
  ]

  -- Region_ops::free
  unfoldable pub free : RegionHandler → ℕ → ℕ → W → W
  free h start size w = elim (h.memory) [
    | none ↦ w
    | some cap ↦
        if h.is_reserved || h.is_pager then w else clear cap ((h.offset + start) % limit) size w
  ]

-- Rm_server::validate_ds: the capability that was received, if it was received as a local one.
unfoldable pub validate_ds : ℕ → Option ℕ → ℤ × Option ℕ
validate_ds enoent (some cap) = (pos 0, some cap)
validate_ds enoent none = (neg enoent, none)
