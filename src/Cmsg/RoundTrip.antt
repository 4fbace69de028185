-- ===== src/Cmsg/RoundTrip.antt =====
-- sys/socket.py: the control messages are read back as they were written.
use mathlib.Core.List.{append-nil}
use rsyscall.Base.{
  ℕ, zero, suc, ◌+◌, ◌≤◌, ◌≡◌, refl, sym, ap, ◌∙◌, false, map, List, [], ◌∷◌, ◌++◌, some, arith,
  drop, length, length-append, take-length, drop-length, take-all,
}
use rsyscall.Struct.{Bytes, returned, raised, list_to_bytes}
use rsyscall.Struct.Whole.{list_from_bytes-list_to_bytes}
use rsyscall.Handle.Fd.{Fds}
use rsyscall.Handle.Fd.Tracking.{track}
use rsyscall.Cmsg.Handles.{
  Unknown, EntriesDenote, flat, handles_from, entries_from, made, made-append, next-made,
  manipulating-made, make_fd_handle-track, make_fd_handle-known, track-Unknown, Unknown-left,
  Unknown-made, EntriesDenote-entries_from,
}
use rsyscall.Cmsg.{
  add_entry, make_handles, make_unpacked, Bindings, rights_to_bytes, rights_from_bytes,
  cmsg_from_bytes, cmsgs_to_bytes, cmsgs_from_bytes,
}
use rsyscall.Cmsg.Written.{
  IsBindings, ==_refl, AllFit, next_fits, length-rights_to_bytes, LengthFits, message_len,
  message_level, message_type, payload_lem,
}

module _ {ℓ} {Fd : Type ℓ} (c : Bindings Fd) (w : IsBindings c) where
  -- The numbers of the file descriptors, message by message.
  abbrev pub numbers : List (List Fd) → List (List ℕ)
  numbers [] = []
  numbers (fds ∷ l) = map c.number fds ∷ numbers l

  make_handles-made :
      (k : ℕ) (fds : List Fd) (s : Fds)
      → s.manipulating_fd_table k ≡ false
      → Unknown s k (map c.number fds)
      → make_handles c k fds s
        ≡ (some (handles_from s.next (map c.number fds)), made k (map c.number fds) s)
  unfolding make_handles
  make_handles-made k [] s m u = refl
  make_handles-made k (fd ∷ fds) s m u =
      let e = u.0 in
      let rest = track-Unknown k (c.number fd) (map c.number fds) s u.1 u.2 in
      rw
        (
          make_fd_handle-track k (c.number fd) s m e,
          make_handles-made k fds (track k (c.number fd) s) m rest,
        )
        refl

  rights_from_bytes-rights_to_bytes :
      (k : ℕ) (fds : List Fd) (s : Fds)
      → LengthFits c w fds
      → rights_from_bytes c k (rights_to_bytes c fds) s ≡ make_handles c k fds s
  unfolding rights_from_bytes make_unpacked
  rights_from_bytes-rights_to_bytes k fds s h =
      let e = sym (append-nil (rights_to_bytes c fds)) in
      rw
        (
          ap c.cmsg_level e ∙ message_level c w fds [] h,
          ap c.cmsg_type e ∙ message_type c w fds [] h,
          ap c.cmsg_len e ∙ message_len c w fds [] h,
          ==_refl c.sol_socket,
          ==_refl c.scm_rights,
          take-all (length (rights_to_bytes c fds)) (rights_to_bytes c fds) (omega arith),
          payload_lem c w fds h,
          list_from_bytes-list_to_bytes c.int_struct w.int_serializer fds,
        )
        refl

  cmsg_from_bytes-rights_to_bytes :
      (k : ℕ) (fds : List Fd) (rest : Bytes) (s : Fds)
      → LengthFits c w fds
      → cmsg_from_bytes c k (rights_to_bytes c fds ++ rest) s ≡ make_handles c k fds s
  unfolding cmsg_from_bytes
  cmsg_from_bytes-rights_to_bytes k fds rest s h =
      rw
        (
          message_level c w fds rest h,
          message_type c w fds rest h,
          message_len c w fds rest h,
          take-length (rights_to_bytes c fds) rest,
          ==_refl c.sol_socket,
          ==_refl c.scm_rights,
        )
        (rights_from_bytes-rights_to_bytes k fds s h)

  turn :
      (k fuel : ℕ) (bytes : Bytes) (s : Fds)
      → 1 ≤ length bytes
      → cmsgs_from_bytes c k (suc fuel) bytes s
        ≡ add_entry
            (cmsg_from_bytes c k bytes s)
            (cmsgs_from_bytes c k fuel (drop (c.cmsg_len bytes) bytes))
  unfolding cmsgs_from_bytes
  turn k fuel [] s le = elim le [ ]
  turn k fuel (b ∷ bytes) s le = refl

  cmsgs_from_bytes-made :
      (k : ℕ) (l : List (List Fd)) (fuel : ℕ) (s : Fds)
      → AllFit c w l
      → length (cmsgs_to_bytes c l) ≤ fuel
      → s.manipulating_fd_table k ≡ false
      → Unknown s k (flat (numbers l))
      → cmsgs_from_bytes c k fuel (cmsgs_to_bytes c l) s
        ≡ (returned (entries_from s.next (numbers l)), made k (flat (numbers l)) s)
  unfolding cmsgs_to_bytes cmsgs_from_bytes
  cmsgs_from_bytes-made k [] fuel s a le m u = refl
  cmsgs_from_bytes-made k (fds ∷ l) zero s (next_fits h a) le m u = absurd (
      omega (
        arith,
        le,
        length-append (rights_to_bytes c fds) (cmsgs_to_bytes c l),
        length-rights_to_bytes c w fds h,
        w.nonempty,
      ))
  cmsgs_from_bytes-made k (fds ∷ l) (suc fuel) s (next_fits h a) le m u =
      let rest = cmsgs_to_bytes c l in
      let len : length (rights_to_bytes c fds ++ rest)
          ≡ c.header_size + length (list_to_bytes c.int_struct fds) + length rest =
        omega
          (arith, length-append (rights_to_bytes c fds) rest, length-rights_to_bytes c w fds h) in
      let x = map c.number fds in
      let y = flat (numbers l) in
      let s' : Fds = made k x s in
      turn k fuel (rights_to_bytes c fds ++ rest) s (omega (arith, len, w.nonempty))
      ∙ rw
          (
            cmsg_from_bytes-rights_to_bytes k fds rest s h,
            make_handles-made k fds s m (Unknown-left k x y s u),
            message_len c w fds rest h,
            drop-length (rights_to_bytes c fds) rest,
            cmsgs_from_bytes-made k l fuel s' a (omega (arith, le, len, w.nonempty))
                (ap (λ f. f k) (manipulating-made k x s) ∙ m) (Unknown-made k x y s u),
          )
          (rw (next-made k x s) (
            ap
              (λ t. (
                returned (handles_from s.next x ∷ entries_from (s.next + length x) (numbers l)),
                t,
              ))
              (sym (made-append k x y s))))

  -- A list of control messages is read back as it was written, in a number of turns up to the number
  -- of its bytes, if the length of each message fits into its header, the bindings read back what they
  -- write, and the receiving task does not know any of the file descriptors, which differ, and is not
  -- manipulating its table: each message becomes the list of new, valid handles of that task that
  -- denote its file descriptors in order.
  pub cmsgs_from_bytes-cmsgs_to_bytes :
      (k : ℕ) (l : List (List Fd)) (fuel : ℕ) (s : Fds)
      → AllFit c w l
      → length (cmsgs_to_bytes c l) ≤ fuel
      → s.manipulating_fd_table k ≡ false
      → Unknown s k (flat (numbers l))
      → (handles : List (List ℕ)) × (after : Fds) × (cmsgs_from_bytes c k fuel
            (cmsgs_to_bytes c l)
            s
          ≡ (returned handles, after))
        × EntriesDenote after k handles (numbers l)
  cmsgs_from_bytes-cmsgs_to_bytes k l fuel s a le m u = (
    entries_from s.next (numbers l),
    made k (flat (numbers l)) s,
    cmsgs_from_bytes-made k l fuel s a le m u,
    EntriesDenote-entries_from k (numbers l) s,
  )

  -- If the receiving task knows the first file descriptor of the first message, as it does when it
  -- reads what was just written from its own handles, the reading raises and makes no handle.
  pub cmsgs_from_bytes-known :
      (k : ℕ) (fd : Fd) (fds : List Fd) (l : List (List Fd)) (fuel : ℕ) (s : Fds) (known : List ℕ)
      → LengthFits c w (fd ∷ fds)
      → s.near_to_handles (s.fd_table k) (c.number fd) ≡ some known
      → cmsgs_from_bytes c k (suc fuel) (cmsgs_to_bytes c ((fd ∷ fds) ∷ l)) s ≡ (raised, s)
  unfolding cmsgs_to_bytes make_handles
  cmsgs_from_bytes-known k fd fds l fuel s known h e =
      let rest = cmsgs_to_bytes c l in
      let len : 1 ≤ length (rights_to_bytes c (fd ∷ fds) ++ rest) = omega (
        arith,
        length-append (rights_to_bytes c (fd ∷ fds)) rest,
        length-rights_to_bytes c w (fd ∷ fds) h,
        w.nonempty,
      ) in
      turn k fuel (rights_to_bytes c (fd ∷ fds) ++ rest) s len
      ∙ rw
          (
            cmsg_from_bytes-rights_to_bytes k (fd ∷ fds) rest s h,
            make_fd_handle-known k (c.number fd) known s e,
          )
          refl
