-- ===== src/Kernel/Main.antt =====
-- dom0/dom0-l4re_kernel/server/src/main.cc: the start of the loader's kernel.
pub mod Named
use l4re_tmp_fs.Base.{
  ℕ, zero, suc, ◌+◌, ◌==◌, Bool, true, false, ◌&&◌, List, [], ◌∷◌, ◌++◌, Option, none, some, ℤ, pos,
  negsuc, length, take, drop, replicate, put_at, if◌then◌else◌, c_string, ◌-◌,
}
use l4re_tmp_fs.Libfs.Svr.{Method}

-- Whether a string begins with another one, and `strstr`: the rest of the string from the first place on at
-- which the other one stands.
unfoldable pub starts_with : List ℕ → List ℕ → Bool
starts_with [] s = true
starts_with (b ∷ bs) [] = false
starts_with (b ∷ bs) (c ∷ s) = (b == c) && starts_with bs s

unfoldable pub strstr : List ℕ → List ℕ → Option (List ℕ)
strstr [] needle = if starts_with needle [] then some [] else none
strstr (c ∷ s) needle =
    let rest = strstr s needle in if starts_with needle (c ∷ s) then some (c ∷ s) else rest

-- "rom/"
abbrev pub rom : List ℕ
rom = b'r' ∷ b'o' ∷ b'm' ∷ b'/' ∷ []

-- The bytes that `strncpy` stores.
unfoldable pub strncpy : ℕ → List ℕ → List ℕ
strncpy n s = take n s ++ replicate (n - length s) 0

-- The part of a path that an object is named after.
unfoldable pub short_name : List ℕ → List ℕ
short_name binary = elim (strstr binary rom) [ some t ↦ drop 4 t | none ↦ binary ]

-- The buffer `s` of 15 bytes, which held `junk`.
unfoldable pub object_name : List ℕ → List ℕ → List ℕ
object_name binary junk =
    put_at 14 (0 ∷ []) (put_at 1 (strncpy 14 (short_name binary)) (put_at 0 (b'#' ∷ []) junk))

-- How `main` ends: with `exit`, with a value, or not at all, since it serves.
pub data Outcome : Type 0 where
  exited : ℕ → Outcome
  returned : ℤ → Outcome
  serving : Outcome

-- What `main` calls. `binary` is the path in the AUX vector, if there is one, and an environment; the
-- calls that throw give false, `insert_regions` gives false where it calls `exit`.
pub record Boot (W : Type 0) : Type 0 where
  pub max_local_rm_caps : ℕ
  pub binary : W → Option (List ℕ)
  pub set_name : List ℕ → W → W
  pub add_free_caps : ℕ → W → W
  pub mem_alloc : W → Option ℕ
  pub init_pages : ℕ → Method W Bool
  pub alloc_rcv_cap : W → W
  pub init_map : W → W
  pub insert_regions : Method W Bool
  pub init_local_rm : Method W Bool
  pub open_file : List ℕ → Method W (Option ℕ)
  pub start_loader : ℕ → Method W (Option Bool)
  pub raise_prio : W → W

module _ {W : Type 0} (boot : Boot W) where
  open boot use {
    max_local_rm_caps, binary, set_name, add_free_caps, mem_alloc, init_pages, alloc_rcv_cap,
    init_map, insert_regions, init_local_rm, open_file, start_loader, raise_prio,
  }

  -- From the loading of the binary on. What `start` returns is not looked at; none is an exception.
  unfoldable pub load : List ℕ → W → Outcome × W
  load name w =
      let (file, w1) = open_file name w in
      elim file [
        | none ↦ (returned (pos 1), w1)
        | some f ↦
            let (started, w2) = start_loader f w1 in
            elim started [ none ↦ (returned (pos 1), w2) | some _ ↦ (serving, raise_prio w2) ]
      ]

  -- From the regions on.
  unfoldable pub set_up : List ℕ → W → Outcome × W
  set_up name w =
      let (ok, w1) = insert_regions (init_map (alloc_rcv_cap w)) in
      elim ok [
        | false ↦ (exited 1, w1)
        | true ↦
            let (ok', w2) = init_local_rm w1 in
            elim ok' [ false ↦ (returned (pos 1), w2) | true ↦ load name w2 ]
      ]

  -- From the memory allocator on.
  unfoldable pub set_up_pages : List ℕ → W → Outcome × W
  set_up_pages name w = elim (mem_alloc w) [
    | none ↦ (returned (negsuc 0), w)
    | some obj ↦
        let (ok, w1) = init_pages obj w in
        elim ok [ false ↦ (returned (pos 1), w1) | true ↦ set_up name w1 ]
  ]

  unfoldable pub main : (junk : List ℕ) → W → Outcome × W
  main junk w = elim (binary w) [
    | none ↦ (exited 1, w)
    | some name ↦
        set_up_pages name (add_free_caps max_local_rm_caps (set_name (object_name name junk) w))
  ]
