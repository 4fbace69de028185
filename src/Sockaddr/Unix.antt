-- ===== src/Sockaddr/Unix.antt =====
-- sys/un.py: which paths are read back as they were written.
use mathlib.Core.List.{append_assoc, append-nil}
use rsyscall.Base.{
  suc, ◌+◌, ◌-◌, ◌<◌, ◌≡◌, refl, sym, ap, ◌∙◌, false, if◌then◌else◌, ◌==◌, [], ◌∷◌, ◌++◌, some, ltb,
  drop, take, replicate, length, arith, length-append, drop-length, take-append_ge,
}
use rsyscall.Struct.{Bytes, before_null}
use rsyscall.Struct.Whole.{NoNull, before_null-append}
use rsyscall.Sockaddr.{
  ok, err, path_too_long, Af, unix, Bindings, check_family, new_un, un_path, un_to_bytes,
  un_from_bytes,
}

-- What the bindings promise for AF: `sa_family_t` has one size, and is read back before other bytes.
pub record IsFamily (c : Bindings) : Type 0 where
  pub length-family_bytes : (f : Af) → length (c.family_bytes f) ≡ c.header
  pub family-family_bytes : (f : Af) (rest : Bytes) → c.family (c.family_bytes f ++ rest) ≡ some f

-- A path in the file system with room for the null byte.
abbrev pub IsPath : Bytes → Type 0
IsPath path = NoNull path × (0 < length path) × (length path < 108)

-- The byte behind a path: there is one unless the path fills the struct.
abbrev pub after_path : Bytes → Bytes
after_path path = take 1 (replicate (108 - length path) 0)

after_path-null : (path : Bytes) → length path < 108 → after_path path ≡ 0 ∷ []
after_path-null path h =
    let e : 108 - length path ≡ suc (107 - length path) = omega (arith, h) in rw e refl

after_path-full : (path : Bytes) → length path ≡ 108 → after_path path ≡ []
after_path-full path h = rw h refl

new_un-fits : (path : Bytes) → length path < 109 → new_un path ≡ ok path
unfolding new_un
new_un-fits path h = ground (arith, h)

-- What `un_path` reads of a path without null bytes.
un_path-path :
    (beyond path rest : Bytes)
    → NoNull path
    → 0 < length path
    → un_path (path ++ rest) beyond ≡ new_un (path ++ before_null (rest ++ beyond))
unfolding un_path
un_path-path beyond [] rest n g = absurd (omega (arith, g))
un_path-path beyond (b ∷ path) rest (p, n) g =
    rw (p, append_assoc path rest beyond, before_null-append path (rest ++ beyond) n) refl

null_first : (beyond name : Bytes) → length name < 108 → un_path (0 ∷ name) beyond ≡ ok (0 ∷ name)
unfolding un_path
null_first beyond name h = new_un-fits (0 ∷ name) (omega (arith, h))

terminated :
    (beyond path : Bytes)
    → NoNull path
    → 0 < length path
    → length path < 108
    → un_path (path ++ (0 ∷ [])) beyond ≡ ok path
terminated beyond path n g h =
    un_path-path beyond path (0 ∷ []) n g
    ∙ rw (append-nil path) (new_un-fits path (omega (arith, h)))

-- Nothing can be added to a path that fills the struct.
new_un-full :
    (path more : Bytes)
    → length path ≡ 108
    → new_un (path ++ more) ≡ (if length more == 0 then ok path else err path_too_long)
unfolding new_un
new_un-full path [] h = rw (append-nil path, h) refl
new_un-full path (b ∷ more) h = ground (arith, h, length-append path (b ∷ more))

module _ (c : Bindings) (w : IsFamily c) where
  pub un_to_bytes_lem :
      (path : Bytes) → un_to_bytes c path ≡ c.family_bytes unix ++ (path ++ after_path path)
  unfolding un_to_bytes
  un_to_bytes_lem path =
      let n = c.header + length path + 1 in
      let padded = path ++ replicate (108 - length path) 0 in
      let e : n - length (c.family_bytes unix) ≡ length path + 1 =
        omega (arith, w.length-family_bytes unix) in
      let f : length path + 1 - length path ≡ 1 = omega arith in
      take-append_ge n (c.family_bytes unix) padded (omega (arith, w.length-family_bytes unix))
      ∙ ap (λ k. c.family_bytes unix ++ take k padded) e
      ∙ ap (λ l. c.family_bytes unix ++ l)
          (take-append_ge (length path + 1) path (replicate (108 - length path) 0) (omega arith)
            ∙ ap (λ k. path ++ take k (replicate (108 - length path) 0)) f)

  pub drop-family_bytes : (f : Af) (rest : Bytes) → drop c.header (c.family_bytes f ++ rest) ≡ rest
  drop-family_bytes f rest =
      ap (λ k. drop k (c.family_bytes f ++ rest)) (sym (w.length-family_bytes f))
      ∙ drop-length (c.family_bytes f) rest

  pub family-fits :
      (f : Af) (rest : Bytes) → ltb (length (c.family_bytes f ++ rest)) c.header ≡ false
  family-fits f rest =
      ground (arith, length-append (c.family_bytes f) rest, w.length-family_bytes f)

  un_from_bytes_lem :
      (beyond rest : Bytes)
      → un_from_bytes c beyond (c.family_bytes unix ++ rest) ≡ un_path rest beyond
  unfolding un_from_bytes check_family
  un_from_bytes_lem beyond rest =
      rw (family-fits unix rest, w.family-family_bytes unix rest, drop-family_bytes unix rest) refl

  written :
      (beyond path tail : Bytes)
      → after_path path ≡ tail
      → un_from_bytes c beyond (un_to_bytes c path) ≡ un_path (path ++ tail) beyond
  written beyond path tail e =
      ap (un_from_bytes c beyond) (un_to_bytes_lem path)
      ∙ un_from_bytes_lem beyond (path ++ after_path path)
      ∙ ap (λ l. un_path (path ++ l) beyond) e

  -- A nonempty path without null bytes that leaves room for one is read back as it was written,
  -- whatever follows it in memory.
  pub un_from_bytes-un_to_bytes :
      (beyond path : Bytes) → IsPath path → un_from_bytes c beyond (un_to_bytes c path) ≡ ok path
  un_from_bytes-un_to_bytes beyond path (n, g, h) =
      written beyond path (0 ∷ []) (after_path-null path h) ∙ terminated beyond path n g h

  -- An abstract name, which starts with a null byte and leaves room for another one, is read back with
  -- one more null byte at its end, and so is the empty path of an unnamed socket. A path without null
  -- bytes that fills the struct has none behind it: it is read with the memory behind the struct up to
  -- the next null byte, so that it is read back if that byte comes first, and raises as too long if any
  -- other byte does.
  pub un_from_bytes-misread :
      (beyond name path : Bytes)
      → length name < 107
      → NoNull path
      → length path ≡ 108
      → (un_from_bytes c beyond (un_to_bytes c (0 ∷ name)) ≡ ok (0 ∷ name ++ (0 ∷ [])))
        × (un_from_bytes c beyond (un_to_bytes c []) ≡ ok (0 ∷ []))
        × (un_from_bytes c beyond (un_to_bytes c path)
            ≡ (if length (before_null beyond) == 0 then ok path else err path_too_long))
  un_from_bytes-misread beyond name path g n h = (
    written beyond (0 ∷ name) (0 ∷ []) (after_path-null (0 ∷ name) (omega (arith, g)))
        ∙ null_first beyond (name ++ (0 ∷ [])) (omega (arith, g, length-append name (0 ∷ []))),
    written beyond [] (0 ∷ []) refl ∙ null_first beyond [] (omega arith),
    written beyond path [] (after_path-full path h)
        ∙ un_path-path beyond path [] n (omega (arith, h))
        ∙ new_un-full path (before_null beyond) h,
  )
