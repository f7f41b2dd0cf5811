-- ===== src/Multipart/Tests.antt =====
-- The rollback of a part's reservation at concrete sizes.
use chunk_gate.Prelude.{ℕ, ◌≡◌, refl, subst, none, some, [], ◌∷◌, Text_eq, arith}
use chunk_gate.Prelude.Tests.{text_eq}
use chunk_gate.Prelude.Int.{pos}
use chunk_gate.Prelude.Map.{lookup, insert}
use chunk_gate.Errors.{Result, ok}
use chunk_gate.Limits.Reservations.{DiskReservations, IsValid, try_reserve, next_reserved}
use chunk_gate.Multipart.Manager.{
  PartInfo, PartReservation, Session, Manager, Calls, reserve_bytes, limit_reserve, counted,
}
use chunk_gate.Multipart.Parts.{
  reserve_for_part, rollback_reservation, reserve_in, recorded, update, total_with, too_large,
}
use chunk_gate.Multipart.Rollback.{HasValidLimits, rollback-reserve_for_part}

abbrev quiet : Calls
quiet = record {
  canceled = λ n. none;
  os = λ n. none;
  available = λ n. ok (pos 100);
  clock = λ n. n;
}

abbrev part : ℕ → PartInfo
part size = record { number = 1; size = pos size; etag = []; path = [] }

abbrev counter : DiskReservations
counter = record { capacity = pos 50; used = pos 10 }

-- An upload whose first part of 3 bytes stands in a reservation of 10.
abbrev session : Session
session = record {
  upload_id = 9 ∷ [];
  tenant = 116 ∷ [];
  bucket = 98 ∷ [];
  key = 107 ∷ [];
  reserved = pos 10;
  created_at = 1;
  directory = [];
  headers = none;
  parts = (1, part 3) ∷ [];
}

abbrev manager : Manager
manager = record {
  root = [];
  reservations = some counter;
  disk = none;
  store = none;
  max_part_size = pos 100;
  max_upload_size = pos 100;
  sessions = (116 ∷ 0 ∷ 9 ∷ [], session) ∷ [];
}

counter-IsValid : IsValid counter
counter-IsValid = omega arith

manager-HasValidLimits : HasValidLimits manager
manager-HasValidLimits =
    ((λ g e. cc), λ r e. let same : counter ≡ r = cc in subst IsValid same counter-IsValid)

-- The part is put again, with 30 bytes.
abbrev outcome : Result PartReservation × Manager
outcome = reserve_for_part quiet (116 ∷ []) (9 ∷ []) 1 (part 30) manager

abbrev reservation : PartReservation
reservation = record {
  delta = pos 20;
  reserved = pos 30;
  previous = some (part 3);
  previous_reserved = pos 10;
}

abbrev reserved_manager : Manager
reserved_manager = record manager {
  reservations = some (record { capacity = pos 50; used = pos 30 });
  sessions =
      (116 ∷ 0 ∷ 9 ∷ [], record session { reserved = pos 30; parts = (1, part 30) ∷ [] }) ∷ [];
}

rollback-reserve_for_part_example :
    rollback_reservation (116 ∷ []) (9 ∷ []) 1 reservation reserved_manager ≡ manager
unfolding reserve_for_part reserve_in recorded update total_with too_large lookup insert text_eq
    reserve_bytes limit_reserve counted try_reserve next_reserved
rollback-reserve_for_part_example =
    rollback-reserve_for_part quiet (116 ∷ []) (9 ∷ []) 1 (part 30) manager reserved_manager
      reservation manager-HasValidLimits refl
