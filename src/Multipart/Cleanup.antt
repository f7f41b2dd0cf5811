-- ===== src/Multipart/Cleanup.antt =====
-- `LoadActive`, `CleanupStale`, `Open` and `HealthCheck` of internal/multipart/manager.go. Each round
-- of a loop has 16 numbers for its calls.
use chunk_gate.Prelude.{
  ℕ, ◌+◌, ◌-◌, Option, none, some, List, [], ◌∷◌, ◌++◌, if◌then◌else◌, Text, Text_eq, ℕ_eq, codes,
  ltb,
}
use chunk_gate.Prelude.Int.{ℤ, pos, pos_part, leb_ℤ}
use chunk_gate.Prelude.Map.{Map, lookup, insert}
use chunk_gate.Errors.{Error, Result, ok, err, upload_not_found, wrapped, ◌>>=◌}
use chunk_gate.Metadata.Types.{MemoryStore, MultipartSession}
use chunk_gate.Metadata.Memory.{list_tenants}
use chunk_gate.Metadata.Sessions.{list_multipart_sessions, list_stale_multipart_sessions}
use chunk_gate.Multipart.Manager.{
  Session, Manager, Calls, session_key, reserve_bytes, release_bytes, check_disk,
}
use chunk_gate.Multipart.Sessions.{Method, after, unless, session_from_metadata, delete_session}

-- The calls from number k on.
abbrev pub from_call : ℕ → Calls → Calls
from_call k c = record {
  canceled = λ n. c.canceled (k + n);
  os = λ n. c.os (k + n);
  available = λ n. c.available (k + n);
  clock = λ n. c.clock (k + n);
}

unfoldable pub kept : Text → Session → Option Session → Manager → Manager
kept at session (some existing) m = release_bytes session.reserved m
kept at session none m = record m { sessions = insert at session m.sessions }

unfoldable pub load_reserved : Session → Option Error × Manager → Result (Unit {0}) × Manager
unfolding kept
load_reserved session (some e, m) =
    (err (wrapped (codes "reserve multipart upload " ++ session.upload_id) e), m)
load_reserved session (none, m) =
    let at = session_key session.tenant session.upload_id in
    (ok tt, kept at session (lookup at m.sessions) m)

unfoldable pub load_one : Calls → MultipartSession → Method (Unit {0})
unfolding load_reserved
load_one c stored m =
    let session = session_from_metadata m stored in
    elim (c.os 0) [
      | some e ↦ (err (wrapped (codes "create multipart scratch directory") e), m)
      | none ↦ load_reserved session (reserve_bytes c 2 session.reserved m)
    ]

unfoldable pub load_sessions : Calls → List MultipartSession → Method (Unit {0})
load_sessions c [] m = (ok tt, m)
load_sessions c (s ∷ ss) m = after (load_one c s m) λ done. load_sessions (from_call 16 c) ss

unfoldable pub load_listed : Calls → Result (List MultipartSession) → Method (Unit {0})
unfolding load_sessions
load_listed c (err e) m = (err e, m)
load_listed c (ok stored) m = load_sessions c stored m

-- The calls for a tenant's sessions come after those of the tenants before it.
unfoldable pub load_tenants : Calls → MemoryStore → List Text → Method (Unit {0})
unfolding load_listed
load_tenants c store [] m = (ok tt, m)
load_tenants c store (t ∷ ts) m =
    let listed = (list_multipart_sessions (c.canceled 0) t store).0 in
    after (load_listed (from_call 16 c) listed m)
      λ done. load_tenants (from_call (rounds listed) c) store ts
  where
    rounds : Result (List MultipartSession) → ℕ
    rounds (err e) = 16
    rounds (ok l) = 16 + count l
      where
        count : List MultipartSession → ℕ
        count [] = 0
        count (s ∷ ss) = 16 + count ss

-- `LoadActive` does not write to the store.
load_from : Calls → MemoryStore → Result (List Text) → Method (Unit {0})
unfolding load_tenants
load_from c store (err e) m = (err e, m)
load_from c store (ok tenants) m = load_tenants (from_call 16 c) store tenants m

unfoldable pub load_active : Calls → Method (Unit {0})
unfolding load_from
load_active c m = elim m.store [
  | none ↦ (ok tt, m)
  | some store ↦ load_from c store ((list_tenants (c.canceled 0) store).0) m
]

from_all : Manager → List MultipartSession → List Session
from_all m [] = []
from_all m (s ∷ ss) = session_from_metadata m s ∷ from_all m ss

stale_in : Calls → Manager → MemoryStore → ℕ → List Text → Result (List Session)
unfolding from_all
stale_in c m store cutoff [] = ok []
stale_in c m store cutoff (t ∷ ts) = do
  stored ← (list_stale_multipart_sessions (c.canceled 0) t cutoff store).0
  others ← stale_in (from_call 1 c) m store cutoff ts
  ok (from_all m stored ++ others)

older : ℕ → Map Text Session → List Session
older cutoff [] = []
older cutoff ((k, s) ∷ m) =
    let rest = older cutoff m in if ltb s.created_at cutoff then s ∷ rest else rest

stale_sessions : Calls → Manager → ℕ → Option MemoryStore → Result (List Session)
unfolding older stale_in
stale_sessions c m cutoff none = ok (older cutoff m.sessions)
stale_sessions c m cutoff (some store) = do
  tenants ← (list_tenants (c.canceled 0) store).0
  stale_in (from_call 1 c) m store cutoff tenants

-- The sessions cleaned so far, and the error that ended the loop.
abbrev pub Cleaned : Type 0
Cleaned = (ℕ × Option Error) × Manager

-- After one deletion: a session that is gone already counts as cleaned.
cleaned : ℕ → (Manager → Cleaned) → Result (Unit {0}) × Manager → Cleaned
cleaned n next (ok done, m) = next m
cleaned n next (err upload_not_found, m) = next m
cleaned n next (err e, m) = ((n, some e), m)

clean : Calls → ℕ → List Session → Manager → Cleaned
unfolding cleaned
clean c n [] m = ((n, none), m)
clean c n (s ∷ ss) m = cleaned n (λ m'. clean (from_call 16 c) (n + 1) ss m') (delete_session c s m)

clean_listed : Calls → Manager → Result (List Session) → Cleaned
unfolding clean
clean_listed c m (err e) = ((0, some e), m)
clean_listed c m (ok stale) = clean c 0 stale m

-- `CleanupStale`, with the calls of the listing and those of the deletions.
unfoldable pub cleanup_stale : Calls → Calls → ℤ → Manager → Cleaned
unfolding clean_listed stale_sessions
cleanup_stale listing c ttl m =
    if leb_ℤ ttl (pos 0)
    then ((0, none), m)
    else clean_listed c m (stale_sessions listing m (listing.clock 0 - pos_part ttl) m.store)

-- `HealthCheck`
unfoldable pub health_check : Calls → Method (Unit {0})
health_check c = unless (c.canceled 0) λ m. elim (c.os 0) [
  | some e ↦ (err (wrapped (codes "check multipart scratch root") e), m)
  | none ↦ unless (check_disk c 1 (pos 0) m) (λ m. (ok tt, m)) m
]
