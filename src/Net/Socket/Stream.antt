-- ===== src/Net/Socket/Stream.antt =====
-- Connections that lose no byte: `receiveData` and `sendData` of
-- dom0/dom0-main/server/src/tcp_socket.cc on them.
use l4re_tmp_fs.Base.{
  ℕ, ◌%◌, ◌*◌, signed_small, zero, suc, ◌+◌, ◌-◌, ◌≤◌, ◌<◌, ◌≡◌, ◌≢◌, refl, sym, ap, ◌∙◌, inl, inr,
  List, [], ◌++◌, append_assoc, ℤ, pos, neg, ltb, ltb→lt, arith, true, false, Bool-cases, length,
  take, drop, length-append, length-take, length-drop, take-append-take, drop-drop, take_all,
  take-append, drop-append, take-append-drop,
}
use l4re_tmp_fs.Net.Os.{Os}
use l4re_tmp_fs.Net.Socket.Bounds.{word_lem}
use l4re_tmp_fs.Net.Socket.{below_one, receive_from, receive_data, send_from, send_data}

-- `incoming` holds the bytes that are still to be read, and `outgoing` those that were written. A read
-- gives some of the bytes that are there, and a write takes some of those that it is given; neither
-- has another effect on the streams, or on the commands that Ned was given.
pub record Reliable {W : Type 0} (os : Os W) : Type 0 where
  pub incoming : ℤ → W → List ℕ
  pub outgoing : ℤ → W → List ℕ
  pub commands : W → List (List ℕ)
  pub read_lem :
      (fd : ℤ) (n : ℕ) (w : W)
      → 0 < n
      → 0 < length (incoming fd w)
      → let r = os.read fd n w in
        (k : ℕ) × (0 < k)
        × (k ≤ n)
        × (k ≤ length (incoming fd w))
        × (r.0 ≡ (pos k, take k (incoming fd w)))
        × (incoming fd r.1 ≡ drop k (incoming fd w))
        × ((fd' : ℤ) → outgoing fd' r.1 ≡ outgoing fd' w)
        × (commands r.1 ≡ commands w)
  pub write_lem :
      (fd : ℤ) (bs : List ℕ) (w : W)
      → 0 < length bs
      → let r = os.write fd bs w in
        (k : ℕ) × (0 < k)
        × (k ≤ length bs)
        × (r.0 ≡ pos k)
        × (outgoing fd r.1 ≡ outgoing fd w ++ take k bs)
        × ((fd' : ℤ) → fd' ≢ fd → outgoing fd' r.1 ≡ outgoing fd' w)
        × ((fd' : ℤ) → incoming fd' r.1 ≡ incoming fd' w)
        × (commands r.1 ≡ commands w)

pub below_one_suc : (k : ℕ) → 0 < k → below_one (pos k) ≡ false
below_one_suc k h = ground arith

below_one-neg : (n : ℕ) → below_one (neg n) ≡ true
below_one-neg zero = refl
below_one-neg (suc n) = refl

pub chunks :
    (k m : ℕ) (got input rest : List ℕ)
    → k ≤ m
    → rest ≡ drop k input
    → (got ++ take k input) ++ take (m - k) rest ≡ got ++ take m input
chunks k m got input rest le e =
    let split : k + (m - k) ≡ m = omega arith in
    append_assoc got (take k input) (take (m - k) rest)
    ∙ ap (λ xs. got ++ (take k input ++ take (m - k) xs)) e
    ∙ ap (λ xs. got ++ xs) (take-append-take k (m - k) input)
    ∙ ap (λ t. got ++ take t input) split

pub drop_chunks :
    (k m : ℕ) (input rest : List ℕ) → k ≤ m → rest ≡ drop k input → drop (m - k) rest ≡ drop m input
drop_chunks k m input rest le e =
    let split : k + (m - k) ≡ m = omega arith in
    ap (drop (m - k)) e ∙ drop-drop k (m - k) input ∙ ap (λ t. drop t input) split

rejoined :
    (position k : ℕ) (buf out : List ℕ)
    → (out ++ take k (drop position buf)) ++ drop (position + k) buf ≡ out ++ drop position buf
rejoined position k buf out =
    append_assoc out (take k (drop position buf)) (drop (position + k) buf)
    ∙ ap (λ xs. out ++ (take k (drop position buf) ++ xs)) (sym (drop-drop position k buf))
    ∙ ap (λ xs. out ++ xs) (take-append-drop k (drop position buf))

-- The next `m` bytes have been received, and nothing has been sent.
abbrev pub Received : {W : Type 0} {os : Os W} → Reliable os → ℤ → ℕ → W → W → Type 0
Received net fd m w w' =
    (net.incoming fd w' ≡ drop m (net.incoming fd w))
    × ((fd' : ℤ) → net.outgoing fd' w' ≡ net.outgoing fd' w)
    × (net.commands w' ≡ net.commands w)

-- The bytes have been sent, and nothing else.
abbrev pub Sent : {W : Type 0} {os : Os W} → Reliable os → ℤ → List ℕ → W → W → Type 0
Sent net fd bs w w' =
    (net.outgoing fd w' ≡ net.outgoing fd w ++ bs)
    × ((fd' : ℤ) → fd' ≢ fd → net.outgoing fd' w' ≡ net.outgoing fd' w)
    × ((fd' : ℤ) → net.incoming fd' w' ≡ net.incoming fd' w)
    × (net.commands w' ≡ net.commands w)

module _ {W : Type 0} (os : Os W) (net : Reliable os) (fd : ℤ) where
  receive_from_stream :
      (rounds size m : ℕ) (got : List ℕ) (w : W)
      → length got + m ≡ size
      → 0 < m
      → m ≤ length (net.incoming fd w)
      → m < rounds
      → 2 * size < os.size_mod
      → let r = receive_from os rounds size fd got w in
        (r.0 ≡ (pos size, got ++ take m (net.incoming fd w))) × Received net fd m w r.1
  unfolding receive_from
  receive_from_stream zero size m got w total more there enough small = absurd (omega arith)
  receive_from_stream (suc rounds) size m got w total more there enough small =
      let missing : size - length got ≡ m = omega arith in
      let here = word_lem os.size_mod (length got) size small (omega arith) in
      let input = net.incoming fd w in
      let (k, some_byte, k_le, k_there, e, left, silent, same) =
        net.read_lem fd m w more (omega arith) in
      let w' = (os.read fd m w).1 in
      let so_far : length (got ++ take k input) ≡ length got + k =
        omega (arith, length-append got (take k input), length-take k input) in
      let there' = word_lem os.size_mod (length got + k) size small (omega arith) in
      let count = signed_small os.size_mod (length got + k) (omega arith) in
      elim (Bool-cases (ltb (length got + k) size)) [
        | inr all ↦
            let whole : length got + k ≡ size = ground arith in
            let m_eq : k ≡ m = omega arith in
            rw (here, missing, e, below_one_suc k some_byte, so_far, there', all, count)
              (rw (whole, m_eq) refl, (left ∙ ap (λ t. drop t input) m_eq, silent, same))
        | inl open_end ↦
            let ahead : length got + k < size = ltb→lt _ _ open_end in
            let (ret, later) =
              receive_from_stream rounds size (m - k) (got ++ take k input) w' (omega arith)
                (omega arith) (omega (arith, ap length left, length-drop k input)) (omega arith)
                small in
            rw (here, missing, e, below_one_suc k some_byte, so_far, there', open_end)
              (
                ret ∙ ap (λ xs. (pos size, xs)) (chunks k m got input _ k_le left),
                (
                  later.0 ∙ drop_chunks k m input _ k_le left,
                  λ fd'. later.1 fd' ∙ silent fd',
                  later.2 ∙ same,
                ),
              )
      ]

  -- `receiveData` gets the next `size` bytes of the connection, and leaves the rest: given that they
  -- are there, in whatever pieces the reads give them, and that an ssize_t can count them.
  pub receive_data_stream :
      (size : ℕ) (w : W)
      → 0 < size
      → size ≤ length (net.incoming fd w)
      → 2 * size < os.size_mod
      → let r = receive_data os size fd w in
        (r.0 ≡ (pos size, take size (net.incoming fd w))) × Received net fd size w r.1
  unfolding receive_data
  receive_data_stream size w more there small =
      receive_from_stream (suc size) size size [] w (omega arith) more there (omega arith) small

  send_from_stream :
      (rounds position : ℕ) (buf : List ℕ) (w : W)
      → position < length buf
      → length buf - position < rounds
      → 2 * length buf < os.size_mod
      → let r = send_from os rounds fd buf position w in
        (r.0 ≡ pos (length buf)) × Sent net fd (drop position buf) w r.1
  unfolding send_from
  send_from_stream zero position buf w more enough small = absurd (omega arith)
  send_from_stream (suc rounds) position buf w more enough small =
      let rest = drop position buf in
      let (k, some_byte, k_le, e, out, others, silent, same) =
        net.write_lem fd rest w (omega (arith, length-drop position buf)) in
      let w' = (os.write fd rest w).1 in
      let room : k ≤ length buf - position = omega (arith, k_le, length-drop position buf) in
      let there = word_lem os.size_mod (position + k) (length buf) small (omega arith) in
      let count = signed_small os.size_mod (position + k) (omega arith) in
      elim (Bool-cases (ltb (position + k) (length buf))) [
        | inr all ↦
            let whole : position + k ≡ length buf = ground arith in
            rw (e, below_one_suc k some_byte, there, all, count)
              (
                ap pos whole,
                (
                  out
                      ∙ ap (λ xs. net.outgoing fd w ++ xs)
                          (take_all k rest (omega (arith, length-drop position buf))),
                  others,
                  silent,
                  same,
                ),
              )
        | inl open_end ↦
            let ahead : position + k < length buf = ltb→lt _ _ open_end in
            let (ret, later) =
              send_from_stream rounds (position + k) buf w' ahead (omega arith) small in
            rw (e, below_one_suc k some_byte, there, open_end)
              (
                ret,
                (
                  later.0
                      ∙ ap (λ xs. xs ++ drop (position + k) buf) out
                      ∙ rejoined position k buf _,
                  λ fd' ne. later.1 fd' ne ∙ others fd' ne,
                  λ fd'. later.2 fd' ∙ silent fd',
                  later.3 ∙ same,
                ),
              )
      ]

  -- `sendData` puts all its bytes on the connection, in their order and nothing else, in whatever
  -- pieces the writes take them: given that there are some, and that an ssize_t can count them.
  pub send_data_stream :
      (buf : List ℕ) (w : W)
      → 0 < length buf
      → 2 * length buf < os.size_mod
      → let r = send_data os buf fd w in (r.0 ≡ pos (length buf)) × Sent net fd buf w r.1
  unfolding send_data
  send_data_stream buf w more small =
      send_from_stream (suc (length buf)) 0 buf w more (omega arith) small

  -- What one side sent in one piece, the other side gets back from in front of the rest.
  pub receive_data-append :
      (size : ℕ) (bs rest : List ℕ) (w : W)
      → length bs ≡ size
      → 0 < size
      → 2 * size < os.size_mod
      → net.incoming fd w ≡ bs ++ rest
      → let r = receive_data os size fd w in
        (r.0 ≡ (pos size, bs))
        × (net.incoming fd r.1 ≡ rest)
        × ((fd' : ℤ) → net.outgoing fd' r.1 ≡ net.outgoing fd' w)
        × (net.commands r.1 ≡ net.commands w)
  receive_data-append size bs rest w len more small e =
      let there : size ≤ length (net.incoming fd w) =
        omega (arith, ap length e, length-append bs rest, len) in
      let (ret, moved) = receive_data_stream size w more there small in
      let front : take size (net.incoming fd w) ≡ bs =
        ap (take size) e ∙ ap (λ n. take n (bs ++ rest)) (sym len) ∙ take-append bs rest in
      let behind : drop size (net.incoming fd w) ≡ rest =
        ap (drop size) e ∙ ap (λ n. drop n (bs ++ rest)) (sym len) ∙ drop-append bs rest in
      (ret ∙ ap (λ xs. (pos size, xs)) front, moved.0 ∙ behind, moved.1, moved.2)

-- At the end of a connection a read gives nothing, and changes nothing but `errno`.
abbrev pub Ends : {W : Type 0} {os : Os W} → Reliable os → ℤ → Type 0
Ends {W = W} {os = os} net fd =
    (n : ℕ) (w : W)
    → net.incoming fd w ≡ []
    → ((os.read fd n w).0 ≡ (pos 0, [])) × (net.commands (os.read fd n w).1 ≡ net.commands w)

-- `receiveData` does not take the end of the connection for a success, whatever `errno` holds.
pub receive_data_end :
    {W : Type 0} (os : Os W) (net : Reliable os) (fd : ℤ) (size : ℕ) (w : W)
    → Ends net fd
    → net.incoming fd w ≡ []
    → let r = receive_data os size fd w in
      (below_one r.0.0 ≡ true) × (net.commands r.1 ≡ net.commands w)
unfolding receive_data receive_from
receive_data_end os net fd size w ends e =
    let (stop, same) = ends (size - 0 % os.size_mod) w e in
    rw stop (below_one-neg (os.errno (os.read fd (size - 0 % os.size_mod) w).1), same)
