-- ===== src/Storage/Commit.antt =====
-- Publication in the ledger: what it admits, what it leaves, and where its test wraps.
use ai_models.Prelude.{ℕ, ◌+◌, ◌-◌, ◌≤◌, ◌<◌, ◌≡◌, ◌↔◌, String, none, some, List, arith}
use ai_models.Prelude.Text.{str_eq_self}
use ai_models.Prelude.Int64.{modulus, half}
use ai_models.Prelude.Assoc.{lookup, Distinct, lookup-insert}
use ai_models.Storage.{
  PublishedArtifact, Ledger, LedgerError, positive, ensure, updated, published_size, usage,
  commit_published_replacing_reservations, validate_entry,
}
use ai_models.Storage.Sums.{
  reserved_total, used_total, sum_reservations-eq, sum_published-eq, used_total-insert,
  used_total-delete,
}
use ai_models.Storage.Releases.{
  all_released, reserved_bytes-eq, total-release_all, release_all_reservations,
  release_all_published,
}
use ai_models.Storage.Limit.{committed}

-- The published bytes of the artifacts other than the one under `id`.
abbrev pub other_used : Ledger → String → ℕ
other_used l id = used_total l.published - positive (published_size (lookup id l.published))

-- The bytes that stay reserved when the listed reservations are released.
abbrev pub still_reserved : Ledger → List String → ℕ
still_reserved l ids = reserved_total (all_released l.reservations ids)

-- Under a positive limit, a ledger within it and with distinct reservation ids admits a valid
-- publication, if the new sum of bytes fits an int64, exactly when that sum is within the limit.
-- The sum counts each listed reservation out once.
pub commit_admits :
    (l : Ledger) (limit : ℕ) (ids : List String) (a : PublishedArtifact) (now : ℕ)
    → validate_entry a.id a.owner a.size_bytes "published artifact" ≡ none
    → a.size_bytes < modulus
    → 0 < limit
    → limit < half
    → committed l ≤ limit
    → Distinct l.reservations
    → other_used l a.id + a.size_bytes + still_reserved l ids < half
    → ((commit_published_replacing_reservations l limit ids a now).1 ≡ none)
      ↔ (other_used l a.id + a.size_bytes + still_reserved l ids ≤ limit)
unfolding commit_published_replacing_reservations usage
commit_admits l limit ids a now v q pos h within d fits = ground (
  arith,
  sum_reservations-eq l.reservations,
  sum_published-eq l.published,
  used_total-delete a.id l.published,
  reserved_bytes-eq l ids d,
  total-release_all l ids,
)

-- After an admitted publication the published bytes are those of the other artifacts and its own,
-- the reservations are those that the listed releases leave, and it is found under its id.
pub commit_accounts :
    (l : Ledger) (limit : ℕ) (ids : List String) (a : PublishedArtifact) (now : ℕ)
    → (commit_published_replacing_reservations l limit ids a now).1 ≡ none
    → let after = (commit_published_replacing_reservations l limit ids a now).0 in
      (used_total after.published ≡ other_used l a.id + positive a.size_bytes)
      × (after.reservations ≡ all_released l.reservations ids)
      × (published_size (lookup a.id after.published) ≡ a.size_bytes)
unfolding commit_published_replacing_reservations
commit_accounts l limit ids a now ok = ground (
  arith,
  used_total-delete a.id l.published,
  used_total-insert a.id (updated a now) l.published,
  lookup-insert a.id a.id (updated a now) l.published,
  release_all_reservations (ensure l) ids,
  release_all_published (ensure l) ids,
  str_eq_self a.id,
)

-- A refused publication leaves the reservations and the published artifacts as they were.
pub commit_refused :
    (l : Ledger) (limit : ℕ) (ids : List String) (a : PublishedArtifact) (now : ℕ) {e : LedgerError}
    → (commit_published_replacing_reservations l limit ids a now).1 ≡ some e
    → ((commit_published_replacing_reservations l limit ids a now).0.reservations ≡ l.reservations)
      × ((commit_published_replacing_reservations l limit ids a now).0.published ≡ l.published)
unfolding commit_published_replacing_reservations
commit_refused l limit ids a now h = ground arith

-- Under a positive limit, a ledger within it and with distinct reservation ids admits a valid
-- publication whose new sum of bytes does not fit an int64, although the sum is above the limit.
pub commit_overflow :
    (l : Ledger) (limit : ℕ) (ids : List String) (a : PublishedArtifact) (now : ℕ)
    → validate_entry a.id a.owner a.size_bytes "published artifact" ≡ none
    → a.size_bytes < modulus
    → 0 < limit
    → limit < half
    → committed l ≤ limit
    → Distinct l.reservations
    → half ≤ other_used l a.id + a.size_bytes + still_reserved l ids
    → ((commit_published_replacing_reservations l limit ids a now).1 ≡ none)
      × (limit < other_used l a.id + a.size_bytes + still_reserved l ids)
unfolding commit_published_replacing_reservations usage
commit_overflow l limit ids a now v q pos h within d big = ground (
  arith,
  sum_reservations-eq l.reservations,
  sum_published-eq l.published,
  used_total-delete a.id l.published,
  reserved_bytes-eq l ids d,
  total-release_all l ids,
)
