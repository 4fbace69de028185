-- ===== src/Cmsg/Written.antt =====
-- sys/socket.py: the bytes of a control message, and what the bindings promise of them.
use mathlib.Core.List.{append_assoc}
use rsyscall.Base.{
  ℕ, ◌+◌, ◌≤◌, ◌<◌, ◌≡◌, sym, ap, ◌∙◌, ◌^◌, true, List, [], ◌∷◌, ◌++◌, ◌==◌, arith, drop, length,
  length-append, drop-length,
}
use rsyscall.Struct.{Bytes, list_to_bytes}
use rsyscall.Struct.Whole.{IsSerializer}
use rsyscall.Cmsg.{Bindings, rights_to_bytes}

-- What the bindings promise, for a length of 64 bits and a level and a type that fit into an int, as
-- those of the constants do: the header has one size, at least one byte, and its fields are read back
-- before other bytes.
pub record IsBindings {ℓ} {Fd : Type ℓ} (c : Bindings Fd) : Type ℓ where
  pub int_serializer : IsSerializer c.int_struct
  pub nonempty : 1 ≤ c.header_size
  pub socket_fits : c.sol_socket < 2 ^ 31
  pub rights_fits : c.scm_rights < 2 ^ 31
  pub length-header_bytes :
      (n level type : ℕ)
      → n < 2 ^ 64
      → level < 2 ^ 31
      → type < 2 ^ 31
      → length (c.header_bytes n level type) ≡ c.header_size
  pub cmsg_len-header_bytes :
      (n level type : ℕ) (rest : Bytes)
      → n < 2 ^ 64
      → level < 2 ^ 31
      → type < 2 ^ 31
      → c.cmsg_len (c.header_bytes n level type ++ rest) ≡ n
  pub cmsg_level-header_bytes :
      (n level type : ℕ) (rest : Bytes)
      → n < 2 ^ 64
      → level < 2 ^ 31
      → type < 2 ^ 31
      → c.cmsg_level (c.header_bytes n level type ++ rest) ≡ level
  pub cmsg_type-header_bytes :
      (n level type : ℕ) (rest : Bytes)
      → n < 2 ^ 64
      → level < 2 ^ 31
      → type < 2 ^ 31
      → c.cmsg_type (c.header_bytes n level type ++ rest) ≡ type

pub ==_refl : (n : ℕ) → (n == n) ≡ true
==_refl n = ground arith

module _ {ℓ} {Fd : Type ℓ} (c : Bindings Fd) (w : IsBindings c) where
  -- The length of each message fits into the header.
  pub data AllFit : List (List Fd) → Type ℓ where
    none_left : AllFit []
    next_fits :
        {fds : List Fd} {l : List (List Fd)}
        → c.header_size + length (list_to_bytes c.int_struct fds) < 2 ^ 64
        → AllFit l
        → AllFit (fds ∷ l)

  abbrev pub LengthFits : List Fd → Type 0
  LengthFits fds = c.header_size + length (list_to_bytes c.int_struct fds) < 2 ^ 64

  abbrev header : List Fd → Bytes
  header fds =
      c.header_bytes (c.header_size + length (list_to_bytes c.int_struct fds)) c.sol_socket
        c.scm_rights

  pub length-rights_to_bytes :
      (fds : List Fd)
      → LengthFits fds
      → length (rights_to_bytes c fds) ≡ c.header_size + length (list_to_bytes c.int_struct fds)
  unfolding rights_to_bytes
  length-rights_to_bytes fds h =
      length-append (header fds) (list_to_bytes c.int_struct fds)
      ∙ ap (λ n. n + length (list_to_bytes c.int_struct fds))
          (w.length-header_bytes _ _ _ h w.socket_fits w.rights_fits)

  pub message_len :
      (fds : List Fd) (rest : Bytes)
      → LengthFits fds
      → c.cmsg_len (rights_to_bytes c fds ++ rest) ≡ length (rights_to_bytes c fds)
  unfolding rights_to_bytes
  message_len fds rest h =
      ap c.cmsg_len (append_assoc (header fds) (list_to_bytes c.int_struct fds) rest)
      ∙ w.cmsg_len-header_bytes _ _ _ (list_to_bytes c.int_struct fds ++ rest) h w.socket_fits
          w.rights_fits
      ∙ sym (length-rights_to_bytes fds h)

  pub message_level :
      (fds : List Fd) (rest : Bytes)
      → LengthFits fds
      → c.cmsg_level (rights_to_bytes c fds ++ rest) ≡ c.sol_socket
  unfolding rights_to_bytes
  message_level fds rest h =
      ap c.cmsg_level (append_assoc (header fds) (list_to_bytes c.int_struct fds) rest)
      ∙ w.cmsg_level-header_bytes _ _ _ (list_to_bytes c.int_struct fds ++ rest) h w.socket_fits
          w.rights_fits

  pub message_type :
      (fds : List Fd) (rest : Bytes)
      → LengthFits fds
      → c.cmsg_type (rights_to_bytes c fds ++ rest) ≡ c.scm_rights
  unfolding rights_to_bytes
  message_type fds rest h =
      ap c.cmsg_type (append_assoc (header fds) (list_to_bytes c.int_struct fds) rest)
      ∙ w.cmsg_type-header_bytes _ _ _ (list_to_bytes c.int_struct fds ++ rest) h w.socket_fits
          w.rights_fits

  pub payload_lem :
      (fds : List Fd)
      → LengthFits fds
      → drop c.header_size (rights_to_bytes c fds) ≡ list_to_bytes c.int_struct fds
  unfolding rights_to_bytes
  payload_lem fds h =
      ap (λ n. drop n (header fds ++ list_to_bytes c.int_struct fds))
        (sym (w.length-header_bytes _ _ _ h w.socket_fits w.rights_fits))
      ∙ drop-length (header fds) (list_to_bytes c.int_struct fds)
