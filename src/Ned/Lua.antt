-- ===== src/Ned/Lua.antt =====
-- dom0/dom0-ned/server/src/lua.cc: the libraries in the order of their priority, and the server of LUA
-- commands.
pub mod Order
pub mod Commands
use l4re_tmp_fs.Base.{
  ℕ, zero, suc, ◌+◌, ◌-◌, ◌==◌, ◌≡◌, Bool, true, false, List, [], ◌∷◌, Option, none, some, ℤ, pos,
  neg, ltb, length, take, put_at, c_string, if◌then◌else◌,
}
use l4re_tmp_fs.Libfs.Svr.{Method}

-- A library: its priority, and what it is.
abbrev pub Lib : Type 0
Lib = ℕ × ℕ

-- Lib(Prio prio): the place is behind all libraries of lower priority.
unfoldable pub insert : Lib → List Lib → List Lib
insert l [] = l ∷ []
insert l (c ∷ cs) = let rest = insert l cs in if ltb c.0 l.0 then c ∷ rest else l ∷ c ∷ cs

-- The static constructors, one after the other.
unfoldable pub insert_all : List Lib → List Lib → List Lib
insert_all [] cs = cs
insert_all (l ∷ ls) cs = insert_all ls (insert l cs)

-- The LUA library: whether a string compiles, and whether what was compiled runs.
pub record Interpreter (W : Type 0) : Type 0 where
  pub loadbuffer : List ℕ → Method W Bool
  pub pcall : Method W Bool

-- A request: another protocol, another operation, or a command with the bytes of its string. The length
-- that is sent in front of it is read and not used.
pub data Request : Type 0 where
  other_protocol other_opcode : Request
  execute_lua_line : ℕ → List ℕ → Request

abbrev pub buffer_size : ℕ
buffer_size = 256

-- The server's buffer, the answers that were written to the stream, and the interpreter's state.
pub record NedServer (W : Type 0) : Type 0 where
  pub buffer : List ℕ
  pub answers : List ℕ
  pub lua : W

unfoldable pub run : {W : Type 0} → Interpreter W → List ℕ → W → W
run interpreter line w =
    let (failed, w') = interpreter.loadbuffer line w in
    let (_, w'') = interpreter.pcall w' in if failed then w' else w''

module _ {W : Type 0} (l4_ebadproto l4_enosys lua_ok lua_error : ℕ)
    (interpreter : Interpreter W) where
  unfoldable pub dispatch : Request → Method (NedServer W) ℤ
  dispatch other_protocol s = (neg l4_ebadproto, s)
  dispatch other_opcode s = (neg l4_enosys, s)
  dispatch (execute_lua_line length_sent chars) s =
      let bytes = take buffer_size chars in
      let buffer = put_at 0 bytes s.buffer in
      let line = c_string buffer in
      (
        pos 0,
        if length line + 1 == length bytes
            then record {
              buffer = buffer;
              answers = lua_ok ∷ s.answers;
              lua = run interpreter line s.lua;
            }
            else record s { buffer = buffer; answers = lua_error ∷ s.answers },
      )
