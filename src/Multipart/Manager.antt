-- ===== src/Multipart/Manager.antt =====
-- The types of internal/multipart/manager.go and its calls of the limits. Each call of `ctx.Err()`,
-- of the file system and of the free space of one operation has a number, and `Calls` has what it
-- answers. Pointers to sessions are the entries of the map.
use chunk_gate.Prelude.{
  ℕ, ◌+◌, Option, none, some, List, [], ◌∷◌, ◌++◌, if◌then◌else◌, Text, Text_eq, ℕ_eq, codes,
}
use chunk_gate.Prelude.Int.{ℤ, pos, leb_ℤ}
use chunk_gate.Prelude.Map.{Map}
use chunk_gate.Prelude.Runes.{safe_part}
use chunk_gate.Errors.{Error, Result}
use chunk_gate.Limits.Reservations.{DiskReservations, try_reserve, release}
use chunk_gate.Limits.DiskGuard.{DiskGuard, check, reserve, guard_release}
use chunk_gate.Metadata.Types.{MemoryStore}

pub record PartInfo : Type 0 where
  pub number : ℕ
  pub size : ℤ
  pub etag : Text
  pub path : Text

pub record Session : Type 0 where
  pub upload_id : Text
  pub tenant : Text
  pub bucket : Text
  pub key : Text
  pub reserved : ℤ
  pub created_at : ℕ
  pub directory : Text
  pub headers : Option (Map Text Text)
  pub parts : Map ℕ PartInfo

-- Each of `reservations`, `disk` and `store` may be nil.
pub record Manager : Type 0 where
  pub root : Text
  pub reservations : Option DiskReservations
  pub disk : Option DiskGuard
  pub store : Option MemoryStore
  pub max_part_size : ℤ
  pub max_upload_size : ℤ
  pub sessions : Map Text Session

pub record PartReservation : Type 0 where
  pub delta : ℤ
  pub reserved : ℤ
  pub previous : Option PartInfo
  pub previous_reserved : ℤ

pub record Calls : Type 0 where
  pub canceled : ℕ → Option Error
  pub os : ℕ → Option Error
  pub available : ℕ → Result ℤ
  pub clock : ℕ → ℕ

-- The manager that the options are applied to, one after another.
unfoldable pub new_manager : Text → Option DiskReservations → List (Manager → Manager) → Manager
new_manager root reservations options = apply options (record {
  root = root;
  reservations = reservations;
  disk = none;
  store = none;
  max_part_size = pos 5368709120;
  max_upload_size = pos 0;
  sessions = [];
})
  where
    apply : List (Manager → Manager) → Manager → Manager
    apply [] m = m
    apply (o ∷ os) m = apply os (o m)

abbrev pub with_metadata_store : MemoryStore → Manager → Manager
with_metadata_store store m = record m { store = some store }

abbrev pub with_max_part_size : ℤ → Manager → Manager
with_max_part_size bytes m = record m { max_part_size = bytes }

abbrev pub with_max_upload_size : ℤ → Manager → Manager
with_max_upload_size bytes m = record m { max_upload_size = bytes }

abbrev pub with_disk_guard : DiskGuard → Manager → Manager
with_disk_guard guard m = record m { disk = some guard }

-- tenant + "\x00" + uploadID
abbrev pub session_key : Text → Text → Text
session_key tenant id = tenant ++ (0 ∷ id)

unfoldable pub safe_path_part : Text → Text
safe_path_part [] = codes "default"
safe_path_part (c ∷ s) = safe_part (c ∷ s)

unfoldable pub session_directory : Manager → Text → Text → Text
session_directory m tenant id = m.root ++ (47 ∷ safe_path_part tenant ++ (47 ∷ id))

unfoldable pub guarded : Manager → Option Error × DiskGuard → Option Error × Manager
guarded m (e, g) = (e, record m { disk = some g })

unfoldable pub counted : Manager → Option Error × DiskReservations → Option Error × Manager
counted m (e, r) = (e, record m { reservations = some r })

unfoldable pub limit_reserve :
    Calls → ℕ → ℤ → Manager → Option DiskGuard → Option DiskReservations → Option Error × Manager
unfolding guarded counted
limit_reserve c n bytes m (some g) r =
    guarded m (reserve g (c.canceled n) (c.canceled (n + 1)) bytes (c.available n))
limit_reserve c n bytes m none (some r) = counted m (try_reserve r bytes)
limit_reserve c n bytes m none none = (none, m)

-- The method `reserve`, whose calls are number n and the next.
unfoldable pub reserve_bytes : Calls → ℕ → ℤ → Manager → Option Error × Manager
unfolding limit_reserve
reserve_bytes c n bytes m =
    if leb_ℤ bytes (pos 0) then (none, m) else limit_reserve c n bytes m m.disk m.reservations

check_in : Calls → ℕ → ℤ → Option DiskGuard → Option Error
check_in c n bytes none = none
check_in c n bytes (some g) = check g (c.canceled n) bytes (c.available n)

unfoldable pub check_disk : Calls → ℕ → ℤ → Manager → Option Error
unfolding check_in
check_disk c n bytes m = if leb_ℤ bytes (pos 0) then none else check_in c n bytes m.disk

unfoldable pub release_in : ℤ → Manager → Option DiskGuard → Option DiskReservations → Manager
release_in bytes m (some g) r = record m { disk = some (guard_release g bytes) }
release_in bytes m none (some r) = record m { reservations = some (release r bytes) }
release_in bytes m none none = m

unfoldable pub release_bytes : ℤ → Manager → Manager
unfolding release_in
release_bytes bytes m = release_in bytes m m.disk m.reservations
