-- ===== src/Storage/Calls.antt =====
-- Any sequence of calls on the ledger, under one limit.
use ai_models.Prelude.{ℕ, ◌+◌, ◌≤◌, ◌<◌, ◌≡◌, String, false, none, List, [], ◌∷◌, arith, All}
use ai_models.Prelude.Text.{str_eq, str_eq_self, trim_space}
use ai_models.Prelude.Int64.{modulus, half}
use ai_models.Prelude.Assoc.{
  lookup, insert, Distinct, insert-Distinct, delete-Distinct, lookup-delete_self, lookup-delete_ne,
  lookup-insert, is_nil-insert,
}
use ai_models.Storage.{
  Reservation, PublishedArtifact, Ledger, positive, ensure, updated, created, reservation_size,
  usage, reserve, release_reservation, release_published, commit_published_replacing_reservations,
}
use ai_models.Storage.Sums.{
  reserved_total, used_total, sum_reservations-eq, sum_published-eq, used_total-insert,
  used_total-delete, reserved_total-delete, reserved_total-insert,
}
use ai_models.Storage.Releases.{
  reserved_bytes-eq, total-release_all, release_all_reservations, release_all_published,
  all_released-Distinct,
}
use ai_models.Storage.Limit.{committed}

pub data Call : Type 0 where
  reserves : Reservation → ℕ → Call
  releases : String → Call
  commits : List String → PublishedArtifact → ℕ → Call
  unpublishes : String → Call

unfoldable pub step : ℕ → Ledger → Call → Ledger
step limit l (reserves r now) = (reserve l limit r now).0
step limit l (releases id) = release_reservation l id
step limit l (commits ids a now) = (commit_published_replacing_reservations l limit ids a now).0
step limit l (unpublishes id) = release_published l id

unfoldable pub run : ℕ → Ledger → List Call → Ledger
run limit l [] = l
run limit l (c ∷ cs) = run limit (step limit l c) cs

abbrev pub empty : Ledger
empty = record { version = 0; reservations = []; published = [] }

-- The sizes that a call names are int64 patterns, and a publication's leaves room for the limit.
abbrev pub Fits : ℕ → Call → Type 0
Fits limit (reserves r now) = r.size_bytes < modulus
Fits limit (releases id) = Unit {0}
Fits limit (commits ids a now) = a.size_bytes + limit < half
Fits limit (unpublishes id) = Unit {0}

-- No id stands twice, and the bytes are within the limit.
pub record Inv (limit : ℕ) (l : Ledger) : Type 0 where
  pub reservations_distinct : Distinct l.reservations
  pub published_distinct : Distinct l.published
  pub within : committed l ≤ limit

reserve-Inv :
    (limit : ℕ) (l : Ledger) (r : Reservation) (now : ℕ)
    → 0 < limit
    → limit < half
    → r.size_bytes < modulus
    → Inv limit l
    → Inv limit (reserve l limit r now).0
unfolding reserve usage
reserve-Inv limit l r now pos h q v = ground (
  arith,
  sum_reservations-eq l.reservations,
  sum_published-eq l.published,
  reserved_total-delete r.id l.reservations,
  reserved_total-insert r.id (created r now) l.reservations,
  insert-Distinct r.id (created r now) l.reservations,
)

commit-Inv :
    (limit : ℕ) (l : Ledger) (ids : List String) (a : PublishedArtifact) (now : ℕ)
    → 0 < limit
    → a.size_bytes + limit < half
    → Inv limit l
    → Inv limit (commit_published_replacing_reservations l limit ids a now).0
unfolding commit_published_replacing_reservations usage
commit-Inv limit l ids a now pos q v = ground (
  arith,
  sum_reservations-eq l.reservations,
  sum_published-eq l.published,
  used_total-delete a.id l.published,
  used_total-insert a.id (updated a now) l.published,
  insert-Distinct a.id (updated a now) l.published,
  reserved_bytes-eq l ids v.reservations_distinct,
  total-release_all l ids,
  release_all_reservations (ensure l) ids,
  release_all_published (ensure l) ids,
  all_released-Distinct l.reservations ids v.reservations_distinct,
)

-- Under a positive limit, a call whose size fits (a publication's beside the limit in an int64)
-- keeps a ledger within the limit and its ids distinct, admitted or refused.
pub step-Inv :
    (limit : ℕ) (l : Ledger) (c : Call)
    → 0 < limit
    → limit < half
    → Fits limit c
    → Inv limit l
    → Inv limit (step limit l c)
unfolding step release_reservation release_published
step-Inv limit l (reserves r now) pos h f v = reserve-Inv limit l r now pos h f v
step-Inv limit l (releases id) pos h f v = ground (
  arith,
  reserved_total-delete (trim_space id) l.reservations,
  delete-Distinct (trim_space id) l.reservations v.reservations_distinct,
)
step-Inv limit l (commits ids a now) pos h f v = commit-Inv limit l ids a now pos f v
step-Inv limit l (unpublishes id) pos h f v = ground (
  arith,
  used_total-delete (trim_space id) l.published,
  delete-Distinct (trim_space id) l.published v.published_distinct,
)

run_from-Inv :
    (limit : ℕ) (l : Ledger) (cs : List Call)
    → 0 < limit
    → limit < half
    → All (Fits limit) cs
    → Inv limit l
    → Inv limit (run limit l cs)
unfolding run
run_from-Inv limit l [] pos h f v = v
run_from-Inv limit l (c ∷ cs) pos h f v =
    run_from-Inv limit (step limit l c) cs pos h f.1 (step-Inv limit l c pos h f.0 v)

-- Under one positive limit, a ledger that starts empty and sees any calls whose sizes fit (a
-- publication's beside the limit in an int64), refused or not, holds at most the limit of bytes,
-- and no id twice.
pub run-Inv :
    (limit : ℕ) (cs : List Call)
    → 0 < limit
    → limit < half
    → All (Fits limit) cs
    → Inv limit (run limit empty cs)
unfolding used_total reserved_total
run-Inv limit cs pos h f =
    run_from-Inv limit empty cs pos h f
      (record { reservations_distinct = tt; published_distinct = tt; within = omega arith })

-- In a ledger with distinct reservation ids, a reservation that was admitted is gone once its id,
-- which has no space at its ends, is released: the bytes reserved are those of the others, and the
-- id is not found.
pub release-reserve :
    (l : Ledger) (limit : ℕ) (r : Reservation) (now : ℕ)
    → Distinct l.reservations
    → trim_space r.id ≡ r.id
    → (reserve l limit r now).1 ≡ none
    → let after = release_reservation (reserve l limit r now).0 r.id in
      (lookup r.id after.reservations ≡ none)
      × (reserved_total after.reservations
            + positive (reservation_size (lookup r.id l.reservations))
          ≡ reserved_total l.reservations)
unfolding reserve release_reservation
release-reserve l limit r now d clean ok = rw clean (
    ground (
      arith,
      reserved_total-delete r.id l.reservations,
      reserved_total-insert r.id (created r now) l.reservations,
      reserved_total-delete r.id (insert r.id (created r now) l.reservations),
      lookup-insert r.id r.id (created r now) l.reservations,
      lookup-delete_self r.id (insert r.id (created r now) l.reservations)
          (insert-Distinct r.id (created r now) l.reservations d),
      is_nil-insert r.id (created r now) l.reservations,
      str_eq_self r.id,
    ))

-- An admitted reservation whose id has a space at an end stays when its id is released: the release
-- looks for the id without that space.
pub release-reserve_spaced :
    (l : Ledger) (limit : ℕ) (r : Reservation) (now : ℕ)
    → str_eq (trim_space r.id) r.id ≡ false
    → (reserve l limit r now).1 ≡ none
    → reservation_size
        (lookup r.id (release_reservation (reserve l limit r now).0 r.id).reservations)
      ≡ r.size_bytes
unfolding reserve release_reservation
release-reserve_spaced l limit r now spaced ok = ground (
  arith,
  lookup-delete_ne (trim_space r.id) r.id (insert r.id (created r now) l.reservations) spaced,
  lookup-insert r.id r.id (created r now) l.reservations,
  str_eq_self r.id,
)
