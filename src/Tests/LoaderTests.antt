-- ===== src/Tests/LoaderTests.antt =====
-- The theorems on the loader of dom0/dom0-l4re_kernel, applied.
use l4re_tmp_fs.Base.{
  ℕ, suc, ◌<◌, ◌≡◌, refl, true, false, some, List, [], ◌∷◌, arith, pos, take, ◌==◌, if◌then◌else◌,
}
use l4re_tmp_fs.Kernel.Memory.{Memory, Word, Words, load_word, load}
use l4re_tmp_fs.Kernel.Stack
use l4re_tmp_fs.Kernel.Stack.{push_argv, push_envp}
use l4re_tmp_fs.Kernel.Stack.Frame.{Frame, find_aux-push}
use l4re_tmp_fs.Kernel.Regions.{Region, RegionHandler, Paging, done, insert_regions}
use l4re_tmp_fs.Kernel.Regions.Insert.{Answers, from, insert_regions_lem}
use l4re_tmp_fs.Kernel.Regions.Faults.{Served, map-free}
use l4re_tmp_fs.Kernel.Loader
use l4re_tmp_fs.Kernel.Loader.{Platform, returned, local_attach_ds, start}
use l4re_tmp_fs.Kernel.Loader.Windows.{local_detach_ds-local_attach_ds}

abbrev first_byte : List ℕ → ℕ
first_byte [] = 0
first_byte (b ∷ bs) = b

one_pos : 0 < 1
one_pos = omega arith

decoded : (v : ℕ) → v < 256 → first_byte (v ∷ []) ≡ v
decoded v h = refl

-- A machine whose words are bytes.
abbrev word : Word
word = record {
  size = 1;
  limit = 256;
  encode = λ v. v ∷ [];
  decode = first_byte;
  size_pos = one_pos;
  length-encode = λ v. refl;
  decode-encode = decoded;
}

abbrev bytes : Memory
bytes a = if a == 16 then 240 else if a == 17 then 9 else 0

abbrev stacked : Stack.State
stacked = record { stack = record { addr = 0; size = 64; sp = 16 }; memory = bytes }

framed : Frame word stacked 16 (240 ∷ 9 ∷ 0 ∷ [])
unfolding load_word load
framed = (refl, omega arith, (refl, (refl, (refl, tt))))

abbrev pushed : Stack.State
pushed = push_argv word (5 ∷ []) (push_envp word (6 ∷ 7 ∷ []) stacked)

find_aux_example :
    (pushed.stack.sp ≡ 10)
    × Words word 11 (5 ∷ 0 ∷ []) pushed.memory
    × (Stack.find_aux word 5 0 (load_word word 10 pushed.memory) 11 pushed.memory ≡ some 9)
find_aux_example =
    find_aux-push word (5 ∷ []) (6 ∷ 7 ∷ []) [] ((240, 9) ∷ []) 10 5 0 stacked (omega arith)
      (omega arith) (omega arith) (omega arith) (omega arith) (omega arith) (omega arith) framed

abbrev region : ℕ → ℕ → Region
region s e = record { start = s; end = e }

abbrev regions : List Region
regions = region 1 9 ∷ region 20 29 ∷ []

abbrev areas : List Region
areas = region 10 19 ∷ region 40 49 ∷ []

-- A region map that answers one region at a time.
abbrev answer_one : List Region → ℕ → List Region
answer_one rs a = take 1 (from a rs)

answers : (rs : List Region) → Answers 0 rs (answer_one rs)
answers rs a h = (1, refl, λ some. omega arith)

-- A map that notes what is attached.
abbrev noted : ℕ → ℕ → List ℕ → ℕ × List ℕ
noted start size l = (start, start ∷ l)

insert_regions_example :
    insert_regions 1000 5 (answer_one regions) (answer_one areas) noted noted []
    ≡ done 50 (40 ∷ 20 ∷ 1 ∷ [])
insert_regions_example =
    insert_regions_lem 1000 5 (answer_one regions) (answer_one areas) noted noted regions areas []
      (omega arith) (omega arith) (answers regions) (answers areas) (omega arith, (omega arith, tt))
      (omega arith, tt) (omega arith) (omega arith)

abbrev handler : RegionHandler
handler = record { memory = some 3; offset = 5; is_reserved = false; is_pager = false }

abbrev paging : Paging (List ℕ)
paging = record {
  map = λ cap offset writable a s e w. (pos 0, offset ∷ w);
  page_fault = λ cap a writable w. w;
  clear = λ cap offset size w. offset ∷ w;
}

map-free_example : Served 1000 2 paging handler (region 20 29) 4 true []
map-free_example = map-free 1000 2 paging handler (region 20 29) 4 true [] (omega arith)

-- A kernel all of whose calls succeed.
abbrev kernel : Platform ℕ
kernel = record {
  word_size = 8;
  cap_mod = 4096;
  utcb_offset = 512;
  page_size = 4096;
  addr_mod = 4294967296;
  loader_vma_start = 65536;
  tls_address = 2952790016;
  alloc_cap = λ w. (some 3, w);
  alloc = λ size cap w. (pos 0, w);
  attach_local = λ a size cap w. (some a, w);
  attach = λ a size cap offset w. ((pos 0, 8192), suc w);
  detach = λ a w. (pos 0, w);
  store_word = λ a v w. w;
  create_thread = λ cap w. (pos 0, w);
  control = λ cap utcb w. (pos 0, w);
  run_thread = λ cap prio w. (pos 0, w);
  ex_regs = λ cap sp w. (pos 0, w);
  adjust_sp = λ sp. sp;
  copy_in = λ dst dst_offs src src_offs size w. (pos 0, w);
}

abbrev idle : Loader.State ℕ
idle = record {
  env = record { first_free_cap = 40; first_free_utcb = 1024 };
  app_thread = 0;
  world = 0;
}

local_attach_ds_example :
    local_attach_ds kernel 3 100 5000 idle ≡ (returned 9096, record idle { world = 1 })
local_attach_ds_example =
    (local_detach_ds-local_attach_ds kernel 3 100 5000 idle (omega arith) (omega arith) refl refl
      (omega arith)).0
