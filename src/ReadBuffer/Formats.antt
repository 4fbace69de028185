-- ===== src/ReadBuffer/Formats.antt =====
-- AsyncReadBuffer: netstrings and arrays of strings, written by an independent printer.
use rsyscall.Base.{
  ℕ, zero, suc, ◌<◌, ◌≡◌, refl, sym, ap, subst, ◌∙◌, true, List, [], ◌∷◌, ◌++◌, Option, none, some,
  if◌then◌else◌, arith, length, length-append, lt→ltb,
}
use mathlib.Core.List.{append_assoc, append-nil}
use rsyscall.Struct.{Bytes}
use rsyscall.ReadBuffer.{
  done, raised, Arrival, arrived, failed, interrupted, ReadBuffer, Exec, then_do, ◌>>=◌, eof,
  unbound_local, read_some, read_until, turns, take_length, read_length, read_until_delimiter,
  or_value_error, starts_with, read_netstring, Native, elem_or_unbound, read_length_prefixed_string,
  read_length_prefixed_array, bad_delimiter,
}
use rsyscall.ReadBuffer.Kept.{coming, content}
use rsyscall.ReadBuffer.Reads.{
  AllData, IsFlowing, Parses, Without, read_length-Parses, read_until_delimiter-Parses, flowing,
  take_length-exact,
}

module _ {ℓ κ} {A : Type ℓ} {B : Type κ} (m : Exec A) (f : A → Exec B) (x y : Bytes) (a : A)
    (b : B) where
  >>=-Parses : Parses m x a → Parses (f a) y b → Parses (m >>= f) (x ++ y) b
  >>=-Parses p q s rest w e =
      let (u, d, v, c) = p s (y ++ rest) w (e ∙ append_assoc x y rest) in
      let (u', d', v', c') = q u rest v c in (u', ap (λ r. then_do r f) d ∙ d', v', c')

or_value_error-Parses {ℓ} :
    {A : Type ℓ} (o : Option A) (a : A) → o ≡ some a → Parses (or_value_error o) [] a
or_value_error-Parses o a h s rest w e = (s, ap (λ p. or_value_error p s) h, w, e)

-- The end of `read_netstring`, after a comma.
comma-Parses :
    (x : Bytes)
    → Parses
        (λ s.
          if starts_with (b',' ∷ []) (b',' ∷ []) then (done x, s) else (raised bad_delimiter, s))
        []
        x
comma-Parses x s rest w e = (s, refl, w, e)

-- A netstring of the bytes `x`: its length in digits, a colon, the bytes and a comma.
abbrev pub netstring : Bytes → Bytes → Bytes
netstring digits x = (digits ++ (b':' ∷ [])) ++ ([] ++ (x ++ ((b',' ∷ []) ++ [])))

read_netstring-Parses :
    (int : Bytes → Option ℕ) (digits x : Bytes)
    → int digits ≡ some (length x)
    → Without b':' digits
    → Parses (read_netstring int) (netstring digits x) x
unfolding read_netstring
read_netstring-Parses int digits x e w =
    >>=-Parses (read_until_delimiter (b':' ∷ [])) _ (digits ++ (b':' ∷ []))
      ([] ++ (x ++ ((b',' ∷ []) ++ []))) digits x (read_until_delimiter-Parses b':' digits w)
      (>>=-Parses (or_value_error (int digits)) _ [] (x ++ ((b',' ∷ []) ++ [])) (length x) x
        (or_value_error-Parses (int digits) (length x) e)
        (>>=-Parses (read_length (length x) true) _ x ((b',' ∷ []) ++ []) x x (read_length-Parses x)
          (>>=-Parses (read_length 1 true) _ (b',' ∷ []) [] (b',' ∷ []) x
            (read_length-Parses (b',' ∷ [])) (comma-Parses x))))

-- A netstring is read as the bytes that it holds, however the stream is cut into reads, each of which
-- brings at least one byte, and what follows it is left, when `int` reads its digits and no digit is a
-- colon.
pub read_netstring_lem :
    (int : Bytes → Option ℕ) (digits x : Bytes) (s : ReadBuffer) (rest : Bytes)
    → int digits ≡ some (length x)
    → Without b':' digits
    → IsFlowing s
    → content s ≡ netstring digits x ++ rest
    → (u : ReadBuffer) × (read_netstring int s ≡ (done x, u)) × IsFlowing u × (content u ≡ rest)
read_netstring_lem int digits x s rest e w f c = read_netstring-Parses int digits x e w s rest f c

-- A printer of sizes for the reader of sizes.
pub record IsNative (size_t : Native) (print : ℕ → Bytes) : Type 0 where
  pub size_of : (n : ℕ) → length (print n) ≡ size_t.sizeof
  pub reads_back : (n : ℕ) → size_t.number (print n) ≡ n

module _ (size_t : Native) (print : ℕ → Bytes) (n : IsNative size_t print) where
  abbrev pub prefixed : List Bytes → Bytes
  prefixed [] = []
  prefixed (x ∷ l) = (print (length x) ++ x) ++ prefixed l

  read_length_prefixed_string-Parses :
      (x : Bytes) → Parses (read_length_prefixed_string size_t) (print (length x) ++ x) x
  unfolding read_length_prefixed_string
  read_length_prefixed_string-Parses x =
      >>=-Parses (read_length size_t.sizeof true) _ (print (length x)) x (print (length x)) x
        (subst (λ k. Parses (read_length k true) (print (length x)) (print (length x)))
          (n.size_of (length x)) (read_length-Parses (print (length x))))
        (λ s rest w e.
          let (u, d, v, c) = read_length-Parses x s rest w e in
          (
            u,
            ap (λ k. elem_or_unbound (read_length k true s)) (n.reads_back (length x))
                ∙ ap elem_or_unbound d,
            v,
            c,
          ))

  read_length_prefixed_array-Parses :
      (l : List Bytes) → Parses (read_length_prefixed_array size_t (length l)) (prefixed l) l
  unfolding read_length_prefixed_array
  read_length_prefixed_array-Parses [] = λ s rest w e. (s, refl, w, e)
  read_length_prefixed_array-Parses (x ∷ l) =
      >>=-Parses (read_length_prefixed_string size_t)
        (λ y. read_length_prefixed_array size_t (length l) >>= λ l' u. (done (y ∷ l'), u))
        (print (length x) ++ x) (prefixed l) x (x ∷ l) (read_length_prefixed_string-Parses x)
        (λ s rest w e.
          let (u, d, v, c) = read_length_prefixed_array-Parses l s rest w e in
          (u, ap (λ r. then_do r (λ l' u'. (done (x ∷ l'), u'))) d, v, c))

  -- An array is read as the strings that it holds, however the stream is cut into reads, each of
  -- which brings at least one byte, and what follows it is left, when each size is printed as it is
  -- read.
  pub read_length_prefixed_array_lem :
      (l : List Bytes) (s : ReadBuffer) (rest : Bytes)
      → IsFlowing s
      → content s ≡ prefixed l ++ rest
      → (u : ReadBuffer) × (read_length_prefixed_array size_t (length l) s ≡ (done l, u))
        × IsFlowing u
        × (content u ≡ rest)
  read_length_prefixed_array_lem l s rest f c = read_length_prefixed_array-Parses l s rest f c

take_length-short : (n : ℕ) (buf : Bytes) → length buf < n → take_length n true buf ≡ none
unfolding take_length
take_length-short n buf h = rw (lt→ltb (length buf) n h) refl

-- The file ends before `n` bytes have come: the loop raises EOFError and keeps what came.
read_until-eof :
    (n fuel : ℕ) (buf : Bytes) (l m : List Arrival)
    → AllData l
    → length l < fuel
    → length (buf ++ coming l) < n
    → read_until fuel (take_length n true) (flowing buf (l ++ (arrived [] ∷ m)))
      ≡ (raised eof, flowing (buf ++ coming l) m)
unfolding read_until read_some
read_until-eof n zero buf l m w lt h = elim lt [ ]
read_until-eof n (suc fuel) buf [] m w lt h =
    rw
      (
        take_length-short n buf (subst (λ x. length x < n) (append-nil buf) h),
        read_until,
        append-nil buf,
      )
      refl
read_until-eof n (suc fuel) buf (arrived [] ∷ l) m w lt h = elim w [ ]
read_until-eof n (suc fuel) buf (failed ∷ l) m w lt h = elim w [ ]
read_until-eof n (suc fuel) buf (interrupted b x ∷ l) m w lt h = elim w [ ]
read_until-eof n (suc fuel) buf (arrived (b ∷ x) ∷ l) m w lt h =
    rw
      (
        take_length-short n buf (omega (arith, h, length-append buf ((b ∷ x) ++ coming l))),
        read_until,
      )
      (read_until-eof n fuel (buf ++ (b ∷ x)) l m w (omega (arith, lt))
          (subst (λ y. length y < n) (sym (append_assoc buf (b ∷ x) (coming l))) h)
        ∙ rw (append_assoc buf (b ∷ x) (coming l)) refl)

-- The bytes are in the buffer.
read_length-buffered :
    (x rest : Bytes) (l : List Arrival)
    → read_length (length x) true (flowing (x ++ rest) l) ≡ (done x, flowing rest l)
unfolding read_length read_until
read_length-buffered x rest l = rw (take_length-exact x rest, read_until) refl

-- When the file ends after the size of a string and before its last byte, the caller does not get an
-- EOFError: the variable that is to be returned has no value.
pub read_length_prefixed_string-eof :
    (size_t : Native) (size part : Bytes) (l m : List Arrival)
    → length size ≡ size_t.sizeof
    → AllData l
    → length (part ++ coming l) < size_t.number size
    → (read_length_prefixed_string size_t (flowing (size ++ part) (l ++ (arrived [] ∷ m)))).0
      ≡ raised unbound_local
unfolding read_length_prefixed_string
read_length_prefixed_string-eof size_t size part l m e w h =
    ap (λ r. (then_do r (λ x s. elem_or_unbound (read_length (size_t.number x) true s))).0)
      (ap (λ k. read_length k true (flowing (size ++ part) (l ++ (arrived [] ∷ m)))) (sym e)
        ∙ read_length-buffered size part (l ++ (arrived [] ∷ m)))
    ∙ ap (λ r. (elem_or_unbound r).0)
        (unfold read_length in
          read_until-eof (size_t.number size) (turns (flowing part (l ++ (arrived [] ∷ m)))) part l
            m w (omega (arith, length-append l (arrived [] ∷ m))) h)
