-- ===== src/Fuse/Xattr.antt =====
-- fuse.py: `FuseGetxattrIn` is not read back.
use rsyscall.Base.{
  ℕ, ◌+◌, ◌-◌, ◌<◌, ◌^◌, ◌≡◌, sym, [], ltb, if◌then◌else◌, arith, length, take-nil, drop-all,
}
use rsyscall.Fuse.{
  ok, err, partial_packet, Str, Bindings, getxattr_to_bytes, getxattr_from_bytes, before_end,
}

-- The bindings write the struct with the given size, which has 32 bits, and read it back.
pub record IsGetxattr (c : Bindings) : Type 0 where
  pub length_of : (n : ℕ) → n < 2 ^ 32 → length (c.getxattr_bytes n) ≡ c.getxattr_sizeof
  pub size_of : (n : ℕ) → n < 2 ^ 32 → c.getxattr_size (c.getxattr_bytes n) ≡ n

before_end-nil : (c : Bindings) (size : ℕ) → before_end c size [] ≡ []
before_end-nil c size =
    ground (arith, take-nil {A = ℕ} (size - 5), take-nil {A = ℕ} (0 - (5 - size)))

-- The bytes of a getxattr message, for a name whose size with its null byte fits into 32 bits, hold
-- that size and not the name: reading them back raises for a name of more than three characters, and gives the name of no bytes for any other.
pub getxattr_from_bytes-getxattr_to_bytes :
    (c : Bindings) (name : Str)
    → IsGetxattr c
    → length name + 1 < 2 ^ 32
    → getxattr_from_bytes c (getxattr_to_bytes c name)
      ≡ (if ltb 3 (length name) then err partial_packet else ok (c.fsdecode []))
unfolding getxattr_from_bytes getxattr_to_bytes
getxattr_from_bytes-getxattr_to_bytes c name w h =
    let n = length name + 1 in
    rw
      (
        sym (w.length_of n h),
        drop-all (length (c.getxattr_bytes n)) (c.getxattr_bytes n) (omega arith),
        w.size_of n h,
        before_end-nil c n,
      )
      (ground arith)
