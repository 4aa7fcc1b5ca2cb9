-- ===== src/Ned/Lua/Commands.antt =====
-- `Ned_server::dispatch` of dom0/dom0-ned/server/src/lua.cc.
use l4re_tmp_fs.Base.{
  ℕ, zero, suc, ◌+◌, ◌==◌, ◌≤◌, ◌≡◌, refl, true, false, List, [], ◌∷◌, ◌++◌, pos, arith, length,
  take, drop, put_at, terminated, IsString, c_string, c_string-put_at_zero, take_all, length-append,
  length-take,
}
use l4re_tmp_fs.Ned.Lua.{Interpreter, execute_lua_line, NedServer, buffer_size, run, dispatch}

beyond : (a b : ℕ) → b ≤ a → (a + 1 == b) ≡ false
beyond a b h = ground arith

-- Without a NUL a string goes on behind the copied bytes.
c_string-long : (bs rest : List ℕ) → IsString bs → length bs ≤ length (c_string (bs ++ rest))
unfolding c_string
c_string-long [] rest h = omega arith
c_string-long (b ∷ bs) rest h = ground (arith, c_string-long bs rest h.1)

IsString-take : (n : ℕ) (s : List ℕ) → IsString s → n ≤ length s → IsString (take n (terminated s))
IsString-take zero s h le = tt
IsString-take (suc n) [] h le = absurd (omega arith)
IsString-take (suc n) (b ∷ s) h le = (h.0, IsString-take n s h.1 (omega arith))

module _ {W : Type 0} (l4_ebadproto l4_enosys lua_ok lua_error : ℕ) (interpreter : Interpreter W)
    (cmd : List ℕ) (n : ℕ) (s : NedServer W) (h : IsString cmd) where
  -- A command that fits in the server's buffer with its NUL is acknowledged, and run as it was sent.
  pub dispatch_command :
      length cmd + 1 ≤ buffer_size
      → let r =
          dispatch l4_ebadproto l4_enosys lua_ok lua_error interpreter
            (execute_lua_line n (terminated cmd))
            s in
        (r.0 ≡ pos 0) × (r.1.answers ≡ lua_ok ∷ s.answers) × (r.1.lua ≡ run interpreter cmd s.lua)
  unfolding dispatch
  dispatch_command fits =
      let whole : take buffer_size (terminated cmd) ≡ terminated cmd =
        take_all buffer_size (terminated cmd) (omega (arith, length-append cmd (0 ∷ []))) in
      let same : (length cmd + 1 == length (terminated cmd)) ≡ true =
        let len = length-append cmd (0 ∷ []) in ground (arith, len) in
      rw (whole, c_string-put_at_zero cmd s.buffer h, same) (refl, refl, refl)

  -- A longer command is refused, and the interpreter is not touched.
  pub dispatch_too_long :
      buffer_size ≤ length cmd
      → let r =
          dispatch l4_ebadproto l4_enosys lua_ok lua_error interpreter
            (execute_lua_line n (terminated cmd))
            s in
        (r.0 ≡ pos 0) × (r.1.answers ≡ lua_error ∷ s.answers) × (r.1.lua ≡ s.lua)
  unfolding dispatch put_at
  dispatch_too_long long =
      let bs = take buffer_size (terminated cmd) in
      let len : length bs ≡ buffer_size =
        omega (arith, length-take buffer_size (terminated cmd), length-append cmd (0 ∷ [])) in
      let line = c_string (bs ++ drop (0 + length bs) s.buffer) in
      let over : length bs ≤ length line =
        c_string-long bs (drop (0 + length bs) s.buffer) (IsString-take buffer_size cmd h long) in
      let differs : (length line + 1 == length bs) ≡ false =
        beyond (length line) (length bs) over in
      rw differs (refl, refl, refl)
