-- ===== src/Cmsg.antt =====
-- python/rsyscall/sys/socket.py: the control messages that carry file descriptors.
pub mod Written
pub mod RoundTrip
pub mod Handles
mod Examples
use rsyscall.Base.{
  ℕ, zero, suc, ◌+◌, Bool, ◌&&◌, List, [], ◌∷◌, ◌++◌, Option, none, some, ◌==◌, if◌then◌else◌, drop,
  take, length,
}
use rsyscall.Handle.Fd as FdHandles
use rsyscall.Handle.Fd.{Fds, make_fd_handle}
use rsyscall.Struct.{
  Bytes, Serializer, Loop, returned, raised, running, append_entry, list_to_bytes, list_from_bytes,
}

-- What the generated bindings and Python give: `struct cmsghdr` with its length, level and type, the
-- numbers of SOL.SOCKET and SCM.RIGHTS, `struct.Struct('i')` for a file descriptor, and the number that
-- the handles know it by.
pub record Bindings {ℓ} (Fd : Type ℓ) : Type ℓ where
  pub header_size : ℕ
  pub header_bytes : ℕ → ℕ → ℕ → Bytes
  pub cmsg_len : Bytes → ℕ
  pub cmsg_level : Bytes → ℕ
  pub cmsg_type : Bytes → ℕ
  pub sol_socket : ℕ
  pub scm_rights : ℕ
  pub int_struct : Serializer Fd
  pub number : Fd → ℕ

-- `iter_unpack` of all the data; an incomplete element raises.
abbrev unpacked {ℓ} : {A : Type ℓ} → Loop A → Option (List A)
unpacked (returned l) = some l
unpacked raised = none
unpacked running = none

-- What the task has done when its handles are made or an exception is raised.
abbrev pub Received : Type 0
Received = Option (List ℕ) × Fds

abbrev add_first : ℕ → Received → Received
add_first h (none, s) = (none, s)
add_first h (some handles, s) = (some (h ∷ handles), s)

abbrev add_handle : FdHandles.Result ℕ × Fds → (Fds → Received) → Received
add_handle (FdHandles.err e, s) rest = (none, s)
add_handle (FdHandles.ok h, s) rest = add_first h (rest s)

abbrev pub add_entry : Received → (Fds → Loop (List ℕ) × Fds) → Loop (List ℕ) × Fds
add_entry (none, s) rest = (raised, s)
add_entry (some handles, s) rest =
    let (entries, s') = rest s in (append_entry (some handles) entries, s')

module _ {ℓ} {Fd : Type ℓ} (c : Bindings Fd) where
  -- `CmsgSerializer.to_bytes` for a CmsgSCMRights, the list of its file descriptors.
  unfoldable pub rights_to_bytes : List Fd → Bytes
  rights_to_bytes fds =
      let payload = list_to_bytes c.int_struct fds in
      c.header_bytes (c.header_size + length payload) c.sol_socket c.scm_rights ++ payload

  -- `[task.make_fd_handle(fd) for fd in fds]` for the task `k`, where `none` is an exception.
  unfoldable pub make_handles : ℕ → List Fd → Fds → Option (List ℕ) × Fds
  make_handles k [] s = (some [], s)
  make_handles k (fd ∷ fds) s = add_handle (make_fd_handle k (c.number fd) s) (make_handles k fds)

  unfoldable pub make_unpacked : ℕ → Option (List Fd) → Fds → Option (List ℕ) × Fds
  unfolding make_handles
  make_unpacked k none s = (none, s)
  make_unpacked k (some fds) s = make_handles k fds s

  -- `CmsgSerializer.from_bytes`
  unfoldable pub rights_from_bytes : ℕ → Bytes → Fds → Option (List ℕ) × Fds
  unfolding make_unpacked
  rights_from_bytes k bytes s =
      if c.cmsg_level bytes == c.sol_socket
      then (if c.cmsg_type bytes == c.scm_rights
          then make_unpacked k
              (unpacked
                (list_from_bytes c.int_struct (drop c.header_size (take (c.cmsg_len bytes) bytes))))
              s
          else (none, s))
      else (none, s)

  -- One turn of the loop of `CmsgListSerializer.from_bytes`. A level that is not in SOL raises like
  -- the other ones.
  unfoldable pub cmsg_from_bytes : ℕ → Bytes → Fds → Option (List ℕ) × Fds
  cmsg_from_bytes k bytes s =
      if (c.cmsg_level bytes == c.sol_socket) && (c.cmsg_type bytes == c.scm_rights)
      then rights_from_bytes k (take (c.cmsg_len bytes) bytes) s
      else (none, s)

  unfoldable pub cmsgs_to_bytes : List (List Fd) → Bytes
  cmsgs_to_bytes [] = []
  cmsgs_to_bytes (fds ∷ l) = rights_to_bytes fds ++ cmsgs_to_bytes l

  -- The loop, for at most `fuel` turns. It does not end on a message whose length is 0.
  unfoldable pub cmsgs_from_bytes : ℕ → ℕ → Bytes → Fds → Loop (List ℕ) × Fds
  cmsgs_from_bytes k fuel [] s = (returned [], s)
  cmsgs_from_bytes k zero (b ∷ bytes) s = (running, s)
  cmsgs_from_bytes k (suc fuel) (b ∷ bytes) s =
      add_entry (cmsg_from_bytes k (b ∷ bytes) s)
        (cmsgs_from_bytes k fuel (drop (c.cmsg_len (b ∷ bytes)) (b ∷ bytes)))
