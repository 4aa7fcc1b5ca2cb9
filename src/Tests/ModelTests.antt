-- ===== src/Tests/ModelTests.antt =====
-- The theorem on the capabilities that dom0/dom0-ned starts a program with, applied.
use l4re_tmp_fs.Base.{ℕ, ◌≡◌, refl, true, List, [], ◌∷◌, ◌++◌, some, ℤ, pos, length, ltb}
use l4re_tmp_fs.Libfs.Svr.{Method}
use l4re_tmp_fs.Ned.Cap.{bits, Cap}
use l4re_tmp_fs.Ned.Model.{
  Value, nil, cap, function, Entry, push_initial_caps, Mapping, map_initial_caps, Fpage, parse_cfg,
  cfg_integer, cfg_cap, set_cap, resolve, fpage,
}
use l4re_tmp_fs.Ned.Model.InitialCaps.{numbered, map_all, initial_caps_lem}

abbrev log_cap : Cap
log_cap = record { c = 7; all_rights = bits 5; flags = bits 0 }

abbrev rom_cap : Cap
rom_cap = record { c = 9; all_rights = bits 4; flags = bits 0 }

-- The second value is a function that returns a capability, the third is dropped.
abbrev caps : List (List ℕ × Value)
caps = (b'l' ∷ [], cap log_cap) ∷ (b'r' ∷ [], function (cap rom_cap)) ∷ (b'x' ∷ [], nil) ∷ []

-- A task that notes what was mapped to it.
abbrev noting : Mapping → Method (List ℕ) ℤ
noting m seen = (pos 0, seen ++ m.destination ∷ [])

abbrev entries : List Entry
entries = record { name = b'r' ∷ []; index = 104 } ∷ record { name = b'l' ∷ []; index = 100 } ∷ []

pushed_entries : push_initial_caps (λ s. ltb (length s) 16) 4 caps 100 [] ≡ some (108, entries)
unfolding push_initial_caps resolve
pushed_entries = refl

initial_caps_example :
    map_initial_caps noting 4 caps 100 [] ≡ map_all noting (numbered 4 caps 100) []
initial_caps_example =
    (initial_caps_lem noting (λ s. ltb (length s) 16) 4 caps 100 [] (108, entries) pushed_entries).2
      []

both_mapped : map_initial_caps noting 4 caps 100 [] ≡ (true, 100 ∷ 104 ∷ [])
unfolding map_initial_caps resolve
both_mapped = refl

abbrev any_page : Fpage
any_page = record { c = 1; rights = bits 0 }

-- Without a factory of its own, the region map of the program is made by its memory allocator.
default_factory :
    parse_cfg 65536
      (record { mem_alloc = any_page; log = any_page; factory = any_page; scheduler = any_page })
      (record {
        log = nil;
        mem = cap rom_cap;
        factory = nil;
        scheduler = nil;
        rm_fab = nil;
        ldr_flags = nil;
        l4re_dbg = nil;
      })
    ≡ some (record {
      mem_alloc = fpage rom_cap;
      log = any_page;
      factory = any_page;
      scheduler = any_page;
      ldr_flags = 0;
      l4re_dbg = 0;
      rm_fab = 9;
    })
unfolding parse_cfg cfg_cap set_cap resolve cfg_integer fpage
default_factory = refl
