-- ===== src/Memory/Socket/Carried.antt =====
-- python/rsyscall/memory/socket_transport.py: the bytes that arrive.
use rsyscall.Base.{
  ℕ, zero, suc, ◌+◌, ◌-◌, ◌≤◌, ◌<◌, ◌≡◌, refl, ap, ◌∙◌, true, false, List, [], ◌∷◌, ◌++◌, Option,
  some, if◌then◌else◌, ltb, leb, ◌==◌, ◌&&◌, length, take, drop, arith, length-take, length-append,
  take-all, drop-all,
}
use rsyscall.Memory.Socket.{
  Underlying, SpanAllocation, partial_write, done, fault, offset_span, split_span, to_span, Wire,
  store_at, load_from, recv_all, send_local, do_write, write_socket, send_remote, do_read,
  read_socket,
}

load_from-cong :
    (a n : ℕ) (m m' : ℕ → ℕ) → ((i : ℕ) → a ≤ i → m i ≡ m' i) → load_from a n m ≡ load_from a n m'
load_from-cong a zero m m' h = refl
load_from-cong a (suc n) m m' h =
    rw (h a (omega arith))
      (ap (λ x. m' a ∷ x) (load_from-cong (a + 1) n m m' (λ i k. h i (omega arith))))

store_at-head : (a b : ℕ) (l : List ℕ) (m : ℕ → ℕ) → store_at a (b ∷ l) m a ≡ b
store_at-head a b l m = ground arith

store_at-tail :
    (a b : ℕ) (l : List ℕ) (m : ℕ → ℕ) (i : ℕ)
    → a + 1 ≤ i
    → store_at a (b ∷ l) m i ≡ store_at (a + 1) l m i
store_at-tail a b l m i h = ground arith

load_from-store_at : (a : ℕ) (l : List ℕ) (m : ℕ → ℕ) → load_from a (length l) (store_at a l m) ≡ l
load_from-store_at a [] m = refl
load_from-store_at a (b ∷ l) m = rw (store_at-head a b l m) (
    ap (λ x. b ∷ x)
      (load_from-cong (a + 1) (length l) (store_at a (b ∷ l) m) (store_at (a + 1) l m)
          (store_at-tail a b l m)
        ∙ load_from-store_at (a + 1) l m))

store_at-below : (a : ℕ) (l : List ℕ) (m : ℕ → ℕ) (i : ℕ) → i < a → store_at a l m i ≡ m i
store_at-below a [] m i h = refl
store_at-below a (b ∷ l) m i h = ground (arith, store_at-below (a + 1) l m i)

store_at-above :
    (a : ℕ) (l : List ℕ) (m : ℕ → ℕ) (i : ℕ) → a + length l ≤ i → store_at a l m i ≡ m i
store_at-above a [] m i h = refl
store_at-above a (b ∷ l) m i h = ground (arith, store_at-above (a + 1) l m i)

length-load_from : (a n : ℕ) (m : ℕ → ℕ) → length (load_from a n m) ≡ n
length-load_from a zero m = refl
length-load_from a (suc n) m = ap suc (length-load_from (a + 1) n m)

-- What a complete write leaves.
abbrev pub written : Underlying → List ℕ → Wire → Wire
written u src w = record w {
  outgoing = drop (length src) (w.outgoing ++ src);
  memory = store_at u.start (take (length src) (w.outgoing ++ src)) w.memory;
}

abbrev whole : Underlying → ℕ → SpanAllocation
whole u n = record { alloc = u; span_offset = 0; span_size = n }

to_span-whole : (u : Underlying) → to_span u ≡ done (whole u u.length_of)
unfolding to_span
to_span-whole u = ground arith

split_span-whole :
    (u : Underlying) (n k : ℕ)
    → n ≤ u.length_of
    → k ≤ n
    → split_span (whole u n) k
      ≡ done (whole u k, record { alloc = u; span_offset = 0 + k; span_size = n - k })
unfolding split_span
split_span-whole u n k h l = ground arith

recv_all-whole :
    (u : Underlying) (src : List ℕ) (w : Wire)
    → recv_all (whole u (length src)) (record w { outgoing = w.outgoing ++ src })
      ≡ (done tt, written u src w)
unfolding recv_all offset_span
recv_all-whole u src w =
    let e : ltb (length (w.outgoing ++ src)) (length src) ≡ false =
      ground (arith, length-append w.outgoing src) in
    let z : u.start + 0 ≡ u.start = omega arith in rw (e, z) refl

same_size : (n k : ℕ) → n ≡ k → (n - k == 0) ≡ true
same_size n k h = ground arith

send_local-whole :
    (u : Underlying) (src : List ℕ) (n : ℕ) (w : Wire)
    → u.length_of ≡ length src
    → length src ≤ n
    → send_local (whole u u.length_of) src (some n) w ≡ (done tt, written u src w)
send_local-whole u src n w h k =
    rw
      (
        take-all n src k,
        split_span-whole u u.length_of (length src) (omega arith) (omega arith),
        same_size u.length_of (length src) h,
      )
      (recv_all-whole u src w)

other_size : (n k : ℕ) → k < n → (n - k == 0) ≡ false
other_size n k h = ground arith

send_local-part :
    (u : Underlying) (src : List ℕ) (n : ℕ) (w : Wire)
    → u.length_of ≡ length src
    → n < length src
    → send_local (whole u u.length_of) src (some n) w
      ≡ (fault partial_write, record w { outgoing = w.outgoing ++ take n src })
send_local-part u src n w h k =
    let l : length (take n src) < u.length_of = omega (arith, length-take n src) in
    rw
      (
        split_span-whole u u.length_of (length (take n src)) (omega arith) (omega arith),
        other_size u.length_of (length (take n src)) l,
      )
      refl

-- The tests before the send.
write_socket-send :
    (u : Underlying) (src : List ℕ) (sent : Option ℕ) (w : Wire)
    → u.length_of ≡ length src
    → 0 < length src
    → write_socket u src sent w ≡ send_local (whole u u.length_of) src sent w
unfolding write_socket do_write
write_socket-send u src sent w h k =
    let a : (u.length_of == length src) ≡ true = ground arith in
    let b : (u.length_of == 0) ≡ false = ground arith in rw (a, to_span-whole u) (rw b refl)

write_socket-whole :
    (u : Underlying) (src : List ℕ) (n : ℕ) (w : Wire)
    → u.length_of ≡ length src
    → 0 < length src
    → length src ≤ n
    → write_socket u src (some n) w ≡ (done tt, written u src w)
write_socket-whole u src n w h k l =
    write_socket-send u src (some n) w h k ∙ send_local-whole u src n w h l

-- What a complete read leaves: everything as it was.
abbrev at_rest : (ℕ → ℕ) → List ℕ → Wire
at_rest memory outgoing = record { memory = memory; outgoing = outgoing; incoming = [] }

send_remote-whole :
    (u : Underlying) (n : ℕ) (memory : ℕ → ℕ) (outgoing : List ℕ)
    → u.length_of ≤ n
    → send_remote u.length_of (whole u u.length_of) (some n) (some n) (at_rest memory outgoing)
      ≡ (done (load_from u.start u.length_of memory), at_rest memory outgoing)
unfolding offset_span
send_remote-whole u n memory outgoing k =
    let bytes : List ℕ = load_from u.start u.length_of memory in
    let z : u.start + 0 ≡ u.start = omega arith in
    let e : length bytes ≡ u.length_of = length-load_from u.start u.length_of memory in
    let t : take n bytes ≡ bytes = take-all n bytes (omega (arith, e)) in
    let s : take u.length_of bytes ≡ bytes = take-all u.length_of bytes (omega (arith, e)) in
    let c : (length bytes == u.length_of) ≡ true = ground (arith, e) in
    let d : drop (length bytes) bytes ≡ [] = drop-all (length bytes) bytes (omega arith) in
    rw (z, t, c) (rw (t, s, c) (rw d refl))

read_socket-whole :
    (u : Underlying) (n : ℕ) (memory : ℕ → ℕ) (outgoing : List ℕ)
    → 0 < u.length_of
    → u.length_of ≤ n
    → read_socket u (some n) (some n) (at_rest memory outgoing)
      ≡ (done (load_from u.start u.length_of memory), at_rest memory outgoing)
unfolding read_socket do_read
read_socket-whole u n memory outgoing h k =
    let b : (u.length_of == 0) ≡ false = ground arith in
    rw (to_span-whole u) (rw b (send_remote-whole u n memory outgoing k))

outside :
    (u : Underlying) (src : List ℕ) (memory : ℕ → ℕ) (i : ℕ)
    → u.length_of ≡ length src
    → store_at u.start src memory i ≡ (
        if leb u.start i && ltb i (u.start + u.length_of)
        then store_at u.start src memory i
        else memory i)
outside u src memory i h =
    ground (arith, store_at-below u.start src memory i, store_at-above u.start src memory i)

-- If the sockets carry no other bytes, a write of all of the data, which fills the allocation and is
-- not empty, returns. A read of the same allocation that is not cut short then returns the data. After
-- the read the memory is the one after the write, no byte outside of the allocation differs from before
-- the write, and both sockets are empty again.
pub read_socket-write_socket :
    (u : Underlying) (src : List ℕ) (n : ℕ) (w : Wire)
    → u.length_of ≡ length src
    → 0 < length src
    → length src ≤ n
    → w.outgoing ≡ []
    → w.incoming ≡ []
    → let (answer, after) = write_socket u src (some n) w in
      let (read, end) = read_socket u (some n) (some n) after in
      (answer ≡ done tt)
      × (read ≡ done src)
      × ((i : ℕ)
          → end.memory i ≡ (
              if leb u.start i && ltb i (u.start + u.length_of)
              then store_at u.start src w.memory i
              else w.memory i))
      × (end.memory ≡ after.memory)
      × (end.outgoing ≡ [])
      × (end.incoming ≡ [])
read_socket-write_socket u src n w h k l e f =
    let a : drop (length src) src ≡ [] = drop-all (length src) src (omega arith) in
    let b : take (length src) src ≡ src = take-all (length src) src (omega arith) in
    let m : ℕ → ℕ = store_at u.start src w.memory in
    let r : load_from u.start u.length_of m ≡ src =
      rw h (load_from-store_at u.start src w.memory) in
    rw (write_socket-whole u src n w h k l, e, f)
      (rw (a, b, read_socket-whole u n m [] (omega arith) (omega arith), r)
        (refl, refl, (λ i. outside u src w.memory i h), refl, refl, refl))

-- If only a part of the data is sent, the write raises and the memory is as before, but what was sent
-- stays in the socket: the next write, of all of its data, returns, and stores those bytes in front of
-- its own.
pub write_socket-part :
    (u v : Underlying) (src next : List ℕ) (n m : ℕ) (w : Wire)
    → u.length_of ≡ length src
    → v.length_of ≡ length next
    → n < length src
    → 0 < length next
    → length next ≤ m
    → w.outgoing ≡ []
    → ((write_socket u src (some n) w).0 ≡ fault partial_write)
      × ((write_socket u src (some n) w).1.memory ≡ w.memory)
      × ((write_socket v next (some m) (write_socket u src (some n) w).1).0 ≡ done tt)
      × ((write_socket v next (some m) (write_socket u src (some n) w).1).1.memory
          ≡ store_at v.start (take (length next) (take n src ++ next)) w.memory)
write_socket-part u v src next n m w h k l p q e =
    let w' : Wire = record w { outgoing = w.outgoing ++ take n src } in
    let sent : write_socket u src (some n) w ≡ (fault partial_write, w') =
      write_socket-send u src (some n) w h (omega arith) ∙ send_local-part u src n w h l in
    rw (sent, write_socket-whole v next m w' k p q, e) (refl, refl, refl, refl)
