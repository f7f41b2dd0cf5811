-- ===== src/Multipart/Parts.antt =====
-- `CheckPart`, `PutPart`, `Open` and what they call in internal/multipart/manager.go. MD5 in hex is
-- an argument; a part number that is not positive is 0.
use chunk_gate.Prelude.{
  ℕ, suc, zero, ◌+◌, ◌/◌, ◌%◌, Bool, Option, none, some, List, [], ◌∷◌, ◌++◌, ◌&&◌, if◌then◌else◌,
  Text, Text_eq, ℕ_eq, codes, length, take, nat_eq, ltb,
}
use chunk_gate.Prelude.Int.{ℤ, pos, pos_part, leb_ℤ, ltb_ℤ, ◌+ℤ◌, ◌-ℤ◌, wrap64}
use chunk_gate.Prelude.Map.{Map, lookup, insert, delete}
use chunk_gate.Errors.{
  Error, Result, ok, err, upload_not_found, upload_too_large, part_too_large, wrapped, errorf,
}
use chunk_gate.Metadata.Types.{MemoryStore, MultipartPart}
use chunk_gate.Metadata.Sessions.{save_multipart_part}
use chunk_gate.Multipart.Manager.{
  PartInfo, PartReservation, Session, Manager, Calls, session_key, reserve_bytes, release_bytes,
  check_disk,
}
use chunk_gate.Multipart.Sessions.{Method, after, unless, reserved_then, find_session}

-- The sizes of the other parts added to a size.
unfoldable pub total_with : ℕ → ℤ → Map ℕ PartInfo → ℤ
total_with number total [] = total
total_with number total ((n, p) ∷ ps) =
    total_with number (if nat_eq n number then total else wrap64 (total +ℤ p.size)) ps

unfoldable pub too_large : Manager → ℤ → Bool
too_large m total = ltb_ℤ (pos 0) m.max_upload_size && ltb_ℤ m.max_upload_size total

-- `CheckPart`
unfoldable pub check_part : Calls → Text → Text → ℕ → ℤ → Method (Unit {0})
check_part c tenant id number expected m =
    if leb_ℤ expected (pos 0)
    then (ok tt, m)
    else if nat_eq number 0
    then (err (errorf (codes "part number must be positive")), m)
    else if ltb_ℤ (pos 0) m.max_part_size && ltb_ℤ m.max_part_size expected
    then (err part_too_large, m)
    else after (find_session c tenant id m) λ session m.
      let total = total_with number expected session.parts in
      let delta = wrap64 (total -ℤ session.reserved) in
      if too_large m total
      then (err upload_too_large, m)
      else if leb_ℤ delta (pos 0)
      then (ok tt, m)
      else unless (check_disk c 5 delta m) (λ m. (ok tt, m)) m

unfoldable pub update : Text → Session → Manager → Manager
update at session m = record m { sessions = insert at session m.sessions }

-- The session with the new part, and what a rollback needs.
unfoldable pub recorded : Text → ℕ → PartInfo → ℤ → Session → Method PartReservation
unfolding update
recorded at number info total session m = (
  ok (record {
    delta = wrap64 (total -ℤ session.reserved);
    reserved = total;
    previous = lookup number session.parts;
    previous_reserved = session.reserved;
  }),
  update at (record session { parts = insert number info session.parts; reserved = total }) m,
)

unfoldable pub reserve_in : Calls → Text → ℕ → PartInfo → Option Session → Method PartReservation
unfolding recorded
reserve_in c at number info none m = (err upload_not_found, m)
reserve_in c at number info (some session) m =
    let total = total_with number info.size session.parts in
    let delta = wrap64 (total -ℤ session.reserved) in
    if too_large m total
    then (err upload_too_large, m)
    else if ltb_ℤ (pos 0) delta
    then reserved_then (reserve_bytes c 6 delta m) (recorded at number info total session)
    else recorded at number info total session m

unfoldable pub reserve_for_part : Calls → Text → Text → ℕ → PartInfo → Method PartReservation
unfolding reserve_in
reserve_for_part c tenant id number info = unless (c.canceled 5) λ m.
    reserve_in c (session_key tenant id) number info (lookup (session_key tenant id) m.sessions) m

unfoldable pub restore : ℕ → Option PartInfo → Map ℕ PartInfo → Map ℕ PartInfo
restore number none parts = delete number parts
restore number (some p) parts = insert number p parts

unfoldable pub undo : Text → ℕ → PartReservation → Option Session → Manager → Manager
unfolding restore update
undo at number r none m = m
undo at number r (some session) m =
    update at
      (record session {
        parts = restore number r.previous session.parts;
        reserved = r.previous_reserved;
      })
      m

unfoldable pub rollback_reservation : Text → Text → ℕ → PartReservation → Manager → Manager
unfolding undo
rollback_reservation tenant id number r m =
    let at = session_key tenant id in
    let m' = undo at number r (lookup at m.sessions) m in
    if ltb_ℤ (pos 0) r.delta then release_bytes r.delta m' else m'

unfoldable pub finish_reservation : PartReservation → Manager → Manager
finish_reservation r m =
    if ltb_ℤ r.delta (pos 0) then release_bytes (wrap64 (pos 0 -ℤ r.delta)) m else m

-- `%08d`: the decimal digits, at least 8 of them; 20 are enough for an `int`.
digits : ℕ → ℕ → Text
digits zero n = []
digits (suc w) n = digits w (n / 10) ++ (48 + n % 10) ∷ []

trim : Text → Text
trim [] = []
trim (d ∷ ds) =
    let rest = trim ds in if ltb 8 (length (d ∷ ds)) && nat_eq d 48 then rest else d ∷ ds

part_path : Text → ℕ → Text
unfolding digits trim
part_path directory number = directory ++ (47 ∷ codes "part-" ++ trim (digits 20 number))

-- A reader gives its bytes and then an error or the end of the stream.
pub record Body : Type 0 where
  pub bytes : List ℕ
  pub failure : Option Error

copied : List ℕ → Option Error → Result (List ℕ)
copied bytes none = ok bytes
copied bytes (some e) = err (wrapped (codes "write part") e)

-- `io.Copy` into the file, from the reader or from an `io.LimitedReader` of the limit and one more.
copy_part : ℤ → Body → Result (List ℕ)
unfolding copied
copy_part limit body =
    let bound = pos_part limit + 1 in
    if ltb_ℤ (pos 0) limit
    then copied (take bound body.bytes)
        (if ltb (length body.bytes) bound then body.failure else none)
    else copied body.bytes body.failure

-- Number 0 to 3 are the calls of `session`, 5 and 6, 7 those of `reserveForPart`.
module _ (md5_hex : List ℕ → Text) (c : Calls) (tenant id : Text) (number : ℕ) where
  saved : PartInfo → PartReservation → Result (Unit {0}) × MemoryStore → Method PartInfo
  saved info r (err e, store) m =
      (err e, rollback_reservation tenant id number r (record m { store = some store }))
  saved info r (ok done, store) m =
      (ok info, finish_reservation r (record m { store = some store }))

  part_record : PartInfo → MultipartPart
  part_record info = record {
    number = info.number;
    size = info.size;
    etag = info.etag;
    path = info.path;
    created_at = c.clock 2;
  }

  save_in : PartInfo → PartReservation → Option MemoryStore → Method PartInfo
  unfolding saved part_record
  save_in info r none m = (ok info, finish_reservation r m)
  save_in info r (some store) m =
      saved info r
        (save_multipart_part (c.canceled 12) c.clock tenant id (part_record info) r.reserved store)
        m

  -- The temporary file is renamed, or not.
  renamed : PartInfo → Option Error → PartReservation → Method PartInfo
  unfolding save_in
  renamed info (some e) r m =
      (err (wrapped (codes "commit part spool file") e), rollback_reservation tenant id number r m)
  renamed info none r m = save_in info r m.store m

  spooled : Session → Result (List ℕ) → Method PartInfo
  unfolding renamed part_path
  spooled session (err e) m = (err e, m)
  spooled session (ok bytes) m =
      let written = pos (length bytes) in
      let info : PartInfo = record {
        number = number;
        size = written;
        etag = 34 ∷ md5_hex bytes ++ 34 ∷ [];
        path = part_path session.directory number;
      } in
      unless (close_error (c.os 3))
        (λ m.
          if ltb_ℤ (pos 0) m.max_part_size && ltb_ℤ m.max_part_size written
          then (err part_too_large, m)
          else unless (c.canceled 11)
              (λ m. after (reserve_for_part c tenant id number info m) (renamed info (c.os 4))) m)
        m
    where
      close_error : Option Error → Option Error
      close_error none = none
      close_error (some e) = some (wrapped (codes "close part") e)

  -- `PutPart`
  unfoldable pub put_part : Body → Method PartInfo
  unfolding spooled copy_part
  put_part body m =
      if nat_eq number 0
      then (err (errorf (codes "part number must be positive")), m)
      else after (find_session c tenant id m) λ session. unless (c.canceled 10) λ m.
        unless (check_disk c 4 (pos 0) m)
          (unless (create_error (c.os 2)) λ m. spooled session (copy_part m.max_part_size body) m) m
    where
      create_error : Option Error → Option Error
      create_error none = none
      create_error (some e) = some (wrapped (codes "create part spool file") e)
