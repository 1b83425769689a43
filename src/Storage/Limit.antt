-- ===== src/Storage/Limit.antt =====
-- The limit of the ledger: which reservations and publications it admits, and what they leave.
use ai_models.Prelude.{ℕ, ◌+◌, ◌-◌, ◌≤◌, ◌<◌, ◌≡◌, ◌↔◌, String, none, some, arith}
use ai_models.Prelude.Text.{str_eq_self}
use ai_models.Prelude.Int64.{modulus, half}
use ai_models.Prelude.Assoc.{lookup, lookup-insert}
use ai_models.Storage.{
  Reservation, Ledger, LedgerError, positive, reservation_size, usage, reserve, validate_entry,
  created, InsufficientStorageError, insufficient,
}
use ai_models.Storage.Sums.{
  reserved_total, used_total, sum_reservations-eq, sum_published-eq, reserved_total-insert,
  reserved_total-delete,
}

-- The bytes of a ledger, published and reserved.
abbrev pub committed : Ledger → ℕ
committed l = used_total l.published + reserved_total l.reservations

-- The bytes that reservations other than the one under `id` hold.
abbrev pub other_reserved : Ledger → String → ℕ
other_reserved l id =
    reserved_total l.reservations - positive (reservation_size (lookup id l.reservations))

-- While the ledger's bytes and the limit fit an int64, `Usage` reports the bytes exactly, and what
-- is left of the limit, or 0.
pub usage_exact :
    (l : Ledger) (limit : ℕ)
    → committed l < half
    → limit < half
    → ((usage l limit).used_bytes ≡ used_total l.published)
      × ((usage l limit).reserved_bytes ≡ reserved_total l.reservations)
      × ((usage l limit).available_bytes ≡ limit - committed l)
unfolding usage
usage_exact l limit fits h =
    ground (arith, sum_reservations-eq l.reservations, sum_published-eq l.published)

-- Under a positive limit, a ledger within it admits a valid reservation exactly when the bytes
-- published, the bytes that the other reservations hold and the bytes asked for are within the
-- limit together, whatever their sum does to an int64.
pub reserve_admits :
    (l : Ledger) (limit : ℕ) (r : Reservation) (now : ℕ)
    → validate_entry r.id r.owner r.size_bytes "reservation" ≡ none
    → r.size_bytes < modulus
    → 0 < limit
    → limit < half
    → committed l ≤ limit
    → ((reserve l limit r now).1 ≡ none)
      ↔ (used_total l.published + other_reserved l r.id + r.size_bytes ≤ limit)
unfolding reserve usage
reserve_admits l limit r now v q pos h within = ground (
  arith,
  sum_reservations-eq l.reservations,
  sum_published-eq l.published,
  reserved_total-delete r.id l.reservations,
)

-- After an admitted reservation the reserved bytes are those of the others and its own, it is found
-- under its id, and the published artifacts are as before.
pub reserve_accounts :
    (l : Ledger) (limit : ℕ) (r : Reservation) (now : ℕ)
    → (reserve l limit r now).1 ≡ none
    → (reserved_total (reserve l limit r now).0.reservations
        ≡ other_reserved l r.id + positive r.size_bytes)
      × (reservation_size (lookup r.id (reserve l limit r now).0.reservations) ≡ r.size_bytes)
      × ((reserve l limit r now).0.published ≡ l.published)
unfolding reserve
reserve_accounts l limit r now ok = ground (
  arith,
  reserved_total-delete r.id l.reservations,
  reserved_total-insert r.id (created r now) l.reservations,
  lookup-insert r.id r.id (created r now) l.reservations,
  str_eq_self r.id,
)

-- A refused reservation leaves the reservations and the published artifacts as they were.
pub reserve_refused :
    (l : Ledger) (limit : ℕ) (r : Reservation) (now : ℕ) {e : LedgerError}
    → (reserve l limit r now).1 ≡ some e
    → ((reserve l limit r now).0.reservations ≡ l.reservations)
      × ((reserve l limit r now).0.published ≡ l.published)
unfolding reserve
reserve_refused l limit r now h = ground arith

-- A ledger within its limit that refuses a reservation for lack of space reports the limit, the
-- bytes published, the bytes of the other reservations and the bytes that are free beside these,
-- and the request is larger than those.
pub reserve_reports :
    (l : Ledger) (limit : ℕ) (r : Reservation) (now : ℕ) {e : InsufficientStorageError}
    → r.size_bytes < modulus
    → limit < half
    → committed l ≤ limit
    → (reserve l limit r now).1 ≡ some (insufficient e)
    → (e.limit_bytes ≡ limit)
      × (e.used_bytes ≡ used_total l.published)
      × (e.reserved_bytes ≡ other_reserved l r.id)
      × (e.used_bytes + e.reserved_bytes + e.available_bytes ≡ limit)
      × (e.available_bytes < e.requested_bytes)
unfolding reserve usage
reserve_reports l limit r now q h within refused = ground (
  arith,
  sum_reservations-eq l.reservations,
  sum_published-eq l.published,
  reserved_total-delete r.id l.reservations,
)
