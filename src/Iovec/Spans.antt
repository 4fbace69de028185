-- ===== src/Iovec/Spans.antt =====
-- sys/uio.py over memory/socket_transport.py: the spans of allocations are such pointers.
use rsyscall.Base.{
  ℕ, zero, suc, ◌+◌, ◌-◌, ◌≤◌, ◌<◌, ◌≡◌, refl, ap, arith, List, [], ◌∷◌, Option, none, some, take,
  drop, length, dec_lt,
}
use rsyscall.Struct.{Bytes}
use rsyscall.Memory.Socket.{SpanAllocation, done, offset_span, split_span}
use rsyscall.Memory.Socket.Span.{Within}
use rsyscall.Iovec.{Buffers}
use rsyscall.Iovec.Covered.{IsBuffers}

abbrev pub range : ℕ → ℕ → List ℕ
range start zero = []
range start (suc n) = start ∷ range (start + 1) n

pub length-range : (start n : ℕ) → length (range start n) ≡ n
length-range start zero = refl
length-range start (suc n) = ap suc (length-range (start + 1) n)

pub take-range : (start k n : ℕ) → k ≤ n → range start k ≡ take k (range start n)
take-range start zero n h = refl
take-range start (suc k) zero h = elim h [ ]
take-range start (suc k) (suc n) h =
    ap (λ l. start ∷ l) (take-range (start + 1) k n (omega (arith, h)))

pub drop-range : (start k n : ℕ) → k ≤ n → range (start + k) (n - k) ≡ drop k (range start n)
drop-range start zero n h =
    let e : start + 0 ≡ start = omega arith in let f : n - 0 ≡ n = omega arith in rw (e, f) refl
drop-range start (suc k) zero h = elim h [ ]
drop-range start (suc k) (suc n) h =
    let e : start + suc k ≡ start + 1 + k = omega arith in
    let f : suc n - suc k ≡ n - k = omega arith in
    rw (e, f) (drop-range (start + 1) k n (omega (arith, h)))

-- A span within its allocation.
abbrev Buffer : Type 0
Buffer = (s : SpanAllocation) × Within s

abbrev first : SpanAllocation → ℕ → SpanAllocation
first s n = record s { span_size = n }

abbrev second : SpanAllocation → ℕ → SpanAllocation
second s n = record s { span_offset = s.span_offset + n; span_size = s.span_size - n }

split_span-parts :
    (s : SpanAllocation) (n : ℕ)
    → Within s
    → n ≤ s.span_size
    → split_span s n ≡ done (first s n, second s n)
unfolding split_span
split_span-parts s n w h = ground arith

first-Within : (s : SpanAllocation) (n : ℕ) → Within s → ¬ (s.span_size < n) → Within (first s n)
first-Within s n w h = omega (arith, w, h)

second-Within : (s : SpanAllocation) (n : ℕ) → Within s → ¬ (s.span_size < n) → Within (second s n)
second-Within s n w h = omega (arith, w, h)

-- What `split_span` returns, or `none` where it raises.
abbrev split_if :
    (s : SpanAllocation) (n : ℕ) → Within s → Dec (s.span_size < n) → Option (Buffer × Buffer)
split_if s n w (yes h) = none
split_if s n w (no h) =
    some ((first s n, first-Within s n w h), (second s n, second-Within s n w h))

abbrev split_buffer : Buffer → ℕ → Option (Buffer × Buffer)
split_buffer (s, w) n = split_if s n w (dec_lt s.span_size n)

abbrev buffers : (Buffer → Bytes) → ℕ → Buffers Buffer
buffers entry entry_size = record {
  size = λ p. p.0.span_size;
  split = split_buffer;
  entry = entry;
  entry_size = entry_size;
}

abbrev cover : Buffer → List ℕ
cover p = range (offset_span p.0) p.0.span_size

cover-split_if :
    (s : SpanAllocation) (n : ℕ) (w : Within s) (d : Dec (s.span_size < n))
    → n ≤ s.span_size
    → (a : Buffer) × (b : Buffer) × (split_if s n w d ≡ some (a, b))
      × (cover a ≡ take n (cover (s, w)))
      × (cover b ≡ drop n (cover (s, w)))
unfolding offset_span
cover-split_if s n w (yes h) le = absurd (omega (arith, h, le))
cover-split_if s n w (no h) le =
    let e : s.alloc.start + (s.span_offset + n) ≡ s.alloc.start + s.span_offset + n = omega arith in
    (
      (first s n, first-Within s n w h),
      (second s n, second-Within s n w h),
      refl,
      take-range (s.alloc.start + s.span_offset) n s.span_size le,
      rw e (drop-range (s.alloc.start + s.span_offset) n s.span_size le),
    )

-- The spans keep the promises that the split of a list relies on.
buffers-IsBuffers : (entry : Buffer → Bytes) (entry_size : ℕ) → IsBuffers (buffers entry entry_size)
buffers-IsBuffers entry entry_size = record {
  cover = cover;
  length-cover = λ p. length-range (offset_span p.0) p.0.span_size;
  cover-split = λ p n h. cover-split_if p.0 n p.1 (dec_lt p.0.span_size n) h;
}
