-- ===== src/Multipart/Sessions.antt =====
-- `Create`, `Get`, `session`, `deleteSession` and `Abort` of internal/multipart/manager.go. Cloning
-- a session is the identity on values.
use chunk_gate.Prelude.{
  ℕ, Option, none, some, [], ◌∷◌, ◌&&◌, if◌then◌else◌, Text, Text_eq, ℕ_eq, codes,
}
use chunk_gate.Prelude.Int.{ℤ, pos, ltb_ℤ}
use chunk_gate.Prelude.Map.{Map, lookup, insert, delete}
use chunk_gate.Errors.{
  Error, Result, ok, err, upload_not_found, upload_too_large, metadata_not_found, wrapped,
}
use chunk_gate.Metadata.Types.{MemoryStore, MultipartPart, MultipartSession}
use chunk_gate.Metadata.Sessions.{
  parts_or_empty, create_multipart_session, get_multipart_session, delete_multipart_session,
}
use chunk_gate.Multipart.Manager.{
  PartInfo, Session, Manager, Calls, session_key, session_directory, reserve_bytes, release_bytes,
  check_disk,
}

-- A method of the manager: the manager comes back beside an error too.
abbrev pub Method : Type 0 → Type 0
Method A = Manager → Result A × Manager

module _ {A B : Type 0} where
  abbrev pub after : Result A × Manager → (A → Method B) → Result B × Manager
  after (err e, m) f = (err e, m)
  after (ok a, m) f = f a m

module _ {B : Type 0} where
  -- `if err := e; err != nil { return err }`
  abbrev pub unless : Option Error → Method B → Method B
  unless (some e) f m = (err e, m)
  unless none f m = f m

  abbrev pub reserved_then : Option Error × Manager → Method B → Result B × Manager
  reserved_then (e, m) f = unless e f m

part_infos : Map ℕ MultipartPart → Map ℕ PartInfo
part_infos [] = []
part_infos ((n, p) ∷ ps) =
    (n, record { number = p.number; size = p.size; etag = p.etag; path = p.path }) ∷ part_infos ps

unfoldable pub session_from_metadata : Manager → MultipartSession → Session
unfolding part_infos
session_from_metadata m stored = record {
  upload_id = stored.upload_id;
  tenant = stored.tenant;
  bucket = stored.bucket;
  key = stored.key;
  reserved = stored.reserved_bytes;
  created_at = stored.created_at;
  directory = session_directory m stored.tenant stored.upload_id;
  headers = stored.headers;
  parts = part_infos (parts_or_empty stored.parts);
}

abbrev pub set_session : Session → Manager → Manager
set_session session m = record m {
  sessions = insert (session_key session.tenant session.upload_id) session m.sessions;
}

-- The end of `session`, under the mutex: another caller may have loaded the session meanwhile.
adopt : Text → Session → Option Session → Method Session
adopt at session (some existing) m = (ok existing, release_bytes session.reserved m)
adopt at session none m = (ok session, record m { sessions = insert at session m.sessions })

loaded : Calls → Text → Result MultipartSession → Method Session
unfolding adopt
loaded c at (err metadata_not_found) m = (err upload_not_found, m)
loaded c at (err e) m = (err e, m)
loaded c at (ok stored) m =
    let session = session_from_metadata m stored in
    reserved_then (reserve_bytes c 2 session.reserved m)
      λ m'. adopt at session (lookup at m'.sessions) m'

from_store : Calls → Text → Text → Option MemoryStore → Method Session
unfolding loaded
from_store c tenant id none m = (err upload_not_found, m)
from_store c tenant id (some store) m =
    loaded c (session_key tenant id) ((get_multipart_session (c.canceled 1) tenant id store).0) m

held : Calls → Text → Text → Option Session → Method Session
unfolding from_store
held c tenant id (some session) m = (ok session, m)
held c tenant id none m = from_store c tenant id m.store m

-- `session`; its calls are number 0 to 3.
unfoldable pub find_session : Calls → Text → Text → Method Session
unfolding held
find_session c tenant id =
    unless (c.canceled 0) λ m. held c tenant id (lookup (session_key tenant id) m.sessions) m

-- `Get`
unfoldable pub get : Calls → Text → Text → Method Session
get c tenant id = unless (c.canceled 4) (find_session c tenant id)

record_of : Session → MultipartSession
record_of s = record {
  upload_id = s.upload_id;
  tenant = s.tenant;
  bucket = s.bucket;
  key = s.key;
  headers = s.headers;
  reserved_bytes = s.reserved;
  created_at = s.created_at;
  updated_at = s.created_at;
  parts = some [];
}

created_in : Session → Result (Unit {0}) × MemoryStore → Method Session
created_in s (err e, store) m = (err e, release_bytes s.reserved (record m { store = some store }))
created_in s (ok done, store) m = (ok s, set_session s (record m { store = some store }))

stored_in : Calls → Session → Option MemoryStore → Method Session
unfolding created_in record_of
stored_in c s none m = (ok s, set_session s m)
stored_in c s (some store) m =
    created_in s (create_multipart_session (c.canceled 7) c.clock (record_of s) store) m

-- The directory is made, or not: then the reservation is released.
with_directory : Calls → Session → Option Error → Method Session
unfolding stored_in
with_directory c s (some e) m =
    (err (wrapped (codes "create multipart scratch directory") e), release_bytes s.reserved m)
with_directory c s none m = stored_in c s m.store m

abbrev not_negative : ℤ → ℤ
not_negative expected = if ltb_ℤ expected (pos 0) then pos 0 else expected

wrap_os : Text → Option Error → Option Error
wrap_os what none = none
wrap_os what (some e) = some (wrapped what e)

-- `Create`; `random` is the new upload id.
unfoldable pub create :
    Calls → Text → Text → Text → Text → ℤ → Option (Map Text Text) → Method Session
unfolding with_directory wrap_os
create c random tenant bucket key expected headers = unless (c.canceled 0) λ m.
    let size = not_negative expected in
    if ltb_ℤ (pos 0) m.max_upload_size && ltb_ℤ m.max_upload_size size
    then (err upload_too_large, m)
    else unless (wrap_os (codes "create multipart scratch root") (c.os 0))
        (unless (check_disk c 1 (pos 0) m) λ m. reserved_then (reserve_bytes c 2 size m) λ m.
          let session : Session = record {
            upload_id = random;
            tenant = tenant;
            bucket = bucket;
            key = key;
            reserved = size;
            created_at = c.clock 2;
            directory = session_directory m tenant random;
            headers = headers;
            parts = [];
          } in
          with_directory c session (c.os 1) m)
        m

-- What follows the store in `deleteSession`: the loaded session goes, its reservation is released.
dropped : Text → Option Session → Manager → Manager
dropped at none m = m
dropped at (some session) m =
    release_bytes session.reserved (record m { sessions = delete at m.sessions })

removed : Option Error → Result (Unit {0})
removed none = ok tt
removed (some e) = err e

forget : Calls → Session → Method (Unit {0})
unfolding dropped removed
forget c s m =
    let at = session_key s.tenant s.upload_id in
    (removed (c.os 8), dropped at (lookup at m.sessions) m)

deleted_in : Calls → Session → Result (Unit {0}) × MemoryStore → Method (Unit {0})
unfolding forget
deleted_in c s (ok done, store) m = forget c s (record m { store = some store })
deleted_in c s (err metadata_not_found, store) m = forget c s (record m { store = some store })
deleted_in c s (err e, store) m = (err e, record m { store = some store })

delete_from : Calls → Session → Option MemoryStore → Method (Unit {0})
unfolding deleted_in forget
delete_from c s none m = forget c s m
delete_from c s (some store) m =
    deleted_in c s (delete_multipart_session (c.canceled 9) s.tenant s.upload_id store) m

unfoldable pub delete_session : Calls → Session → Method (Unit {0})
unfolding delete_from
delete_session c s = unless (c.canceled 8) λ m. delete_from c s m.store m

-- `Abort`, which `CompleteCleanup` calls too.
unfoldable pub abort : Calls → Text → Text → Method (Unit {0})
abort c tenant id m = after (find_session c tenant id m) (delete_session c)
