-- ===== src/Metadata/Sessions.antt =====
-- The multipart sessions of internal/metadata/memory.go, with the context's error and the clock as
-- in Memory.antt. Cloning a session is the identity on values.
use chunk_gate.Prelude.{
  ℕ, Option, none, some, List, [], ◌∷◌, ltb, nat_eq, if◌then◌else◌, Text, Text_eq, ℕ_eq,
}
use chunk_gate.Prelude.Int.{ℤ}
use chunk_gate.Prelude.Map.{Map, lookup, insert, delete}
use chunk_gate.Errors.{Error, Result, ok, err, metadata_not_found}
use chunk_gate.Metadata.Types.{MultipartSession, MultipartPart, MemoryStore}
use chunk_gate.Metadata.Memory.{Method, unless_canceled, or_empty, ensure_tenant}

abbrev pub parts_or_empty : Option (Map ℕ MultipartPart) → Map ℕ MultipartPart
parts_or_empty none = []
parts_or_empty (some m) = m

abbrev pub zero_or : ℕ → ℕ → ℕ
zero_or t d = if nat_eq t 0 then d else t

abbrev pub tenant_sessions : MemoryStore → Text → Map Text MultipartSession
tenant_sessions s tenant = or_empty (lookup tenant s.multipart)

abbrev put_session : MemoryStore → Text → Text → MultipartSession → MemoryStore
put_session s tenant id session = record s {
  multipart = insert tenant (insert id session (tenant_sessions s tenant)) s.multipart;
}

unfoldable pub create_multipart_session :
    Option Error → (ℕ → ℕ) → MultipartSession → Method (Unit {0})
create_multipart_session canceled clock session = unless_canceled canceled λ s.
    let created = zero_or session.created_at (clock 0) in
    let full = record session {
      created_at = created;
      updated_at = zero_or session.updated_at created;
      parts = some (parts_or_empty session.parts);
    } in
    (
      ok tt,
      put_session (record s { blocks = ensure_tenant s.blocks session.tenant }) session.tenant
          session.upload_id full,
    )

abbrev pub find_session : MemoryStore → Text → Text → Option MultipartSession
find_session s tenant id = lookup id (tenant_sessions s tenant)

unfoldable pub save_found :
    (ℕ → ℕ) → Text → Text → MultipartPart → ℤ → Option MultipartSession → Method (Unit {0})
save_found clock tenant id part reserved none s = (err metadata_not_found, s)
save_found clock tenant id part reserved (some session) s =
    let stamped = record part { created_at = zero_or part.created_at (clock 0) } in
    (
      ok tt,
      put_session s tenant id (record session {
        parts = some (insert part.number stamped (parts_or_empty session.parts));
        reserved_bytes = reserved;
        updated_at = clock 1;
      }),
    )

unfoldable pub save_multipart_part :
    Option Error → (ℕ → ℕ) → Text → Text → MultipartPart → ℤ → Method (Unit {0})
save_multipart_part canceled clock tenant id part reserved =
    unless_canceled canceled
      λ s. save_found clock tenant id part reserved (find_session s tenant id) s

found_session : Option MultipartSession → Result MultipartSession
found_session none = err metadata_not_found
found_session (some session) = ok session

unfoldable pub get_multipart_session : Option Error → Text → Text → Method MultipartSession
unfolding found_session
get_multipart_session canceled tenant id =
    unless_canceled canceled λ s. (found_session (find_session s tenant id), s)

values : {V : Type 0} → Map Text V → List V
values [] = []
values ((k, v) ∷ m) = v ∷ values m

unfoldable pub list_multipart_sessions : Option Error → Text → Method (List MultipartSession)
unfolding values
list_multipart_sessions canceled tenant =
    unless_canceled canceled λ s. (ok (values (tenant_sessions s tenant)), s)

older : ℕ → List MultipartSession → List MultipartSession
older before [] = []
older before (x ∷ xs) =
    let rest = older before xs in if ltb x.created_at before then x ∷ rest else rest

unfoldable pub list_stale_multipart_sessions :
    Option Error → Text → ℕ → Method (List MultipartSession)
unfolding older values
list_stale_multipart_sessions canceled tenant before =
    unless_canceled canceled λ s. (ok (older before (values (tenant_sessions s tenant))), s)

unfoldable pub discard_found : Text → Text → Option MultipartSession → Method (Unit {0})
discard_found tenant id none s = (err metadata_not_found, s)
discard_found tenant id (some session) s = (
  ok tt,
  record s { multipart = insert tenant (delete id (tenant_sessions s tenant)) s.multipart },
)

unfoldable pub delete_multipart_session : Option Error → Text → Text → Method (Unit {0})
delete_multipart_session canceled tenant id =
    unless_canceled canceled λ s. discard_found tenant id (find_session s tenant id) s
