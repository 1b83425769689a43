-- ===== src/Storage/Examples.antt =====
-- The ledger on concrete calls.
use ai_models.Prelude.{◌+◌, ◌-◌, ◌%◌, ◌≤◌, ◌<◌, ◌≡◌, ◌↔◌, refl, none, List, [], ◌∷◌, arith}
use ai_models.Prelude.Text.{trim_space}
use ai_models.Prelude.Int64.{modulus}
use ai_models.Prelude.Assoc.{lookup, insert, delete, is_nil, member}
use ai_models.Storage.{
  Owner, Reservation, PublishedArtifact, Ledger, InsufficientStorageError, usage, sum_published,
  sum_reservations, reserve, release_reservation, release_published, release_all,
  commit_published_replacing_reservations, reserved_bytes, reservation_size, positive,
}
use ai_models.Storage.Sums.{reserved_total, used_total}
use ai_models.Storage.Releases.{all_released, reserved_bytes-eq}
use ai_models.Storage.Limit.{
  committed, other_reserved, usage_exact, reserve_admits, reserve_reports,
}
use ai_models.Storage.Commit.{other_used, still_reserved, commit_admits, commit_overflow}
use ai_models.Storage.Calls.{
  Call, reserves, releases, commits, unpublishes, step, run, empty, Inv, run-Inv, release-reserve,
  release-reserve_spaced,
}

abbrev owner : Owner
owner = record { kind = "Model"; name = "m"; namespace = "ns"; uid = "u" }

abbrev held : Reservation
held = record { id = "a"; owner = owner; size_bytes = 30; created_at = 1 }

abbrev asked : Reservation
asked = record { id = "b"; owner = owner; size_bytes = 20; created_at = 0 }

abbrev large : Reservation
large = record asked { size_bytes = 60 }

abbrev spaced : Reservation
spaced = record asked { id = "b " }

abbrev artifact : PublishedArtifact
artifact = record { id = "p"; owner = owner; size_bytes = 40; updated_at = 1 }

abbrev next_artifact : PublishedArtifact
next_artifact = record { id = "q"; owner = owner; size_bytes = 25; updated_at = 0 }

abbrev wide_artifact : PublishedArtifact
wide_artifact = record next_artifact { size_bytes = 90 }

-- An artifact whose bytes alone wrap with the 40 that are published.
abbrev huge_artifact : PublishedArtifact
huge_artifact = record next_artifact { size_bytes = 0x7fffffffffffffff }

abbrev two_entries : Ledger
two_entries = record {
  version = 1;
  reservations = ("a", held) ∷ [];
  published = ("p", artifact) ∷ [];
}

usage_exact_example :
    ((usage two_entries 100).used_bytes ≡ used_total two_entries.published)
    × ((usage two_entries 100).reserved_bytes ≡ reserved_total two_entries.reservations)
    × ((usage two_entries 100).available_bytes ≡ 100 - committed two_entries)
unfolding used_total reserved_total
usage_exact_example = usage_exact two_entries 100 (omega arith) (omega arith)

reserve_admits_example :
    ((reserve two_entries 100 asked 7).1 ≡ none)
    ↔ (used_total two_entries.published + other_reserved two_entries "b" + 20 ≤ 100)
unfolding used_total reserved_total trim_space
reserve_admits_example =
    reserve_admits two_entries 100 asked 7 refl (omega arith) (omega arith) (omega arith)
      (omega arith)

abbrev lacks : InsufficientStorageError
lacks = record {
  requested_bytes = 60;
  limit_bytes = 100;
  used_bytes = 40;
  reserved_bytes = 30;
  available_bytes = 30;
}

reserve_reports_example :
    (lacks.limit_bytes ≡ 100)
    × (lacks.used_bytes ≡ used_total two_entries.published)
    × (lacks.reserved_bytes ≡ other_reserved two_entries "b")
    × (lacks.used_bytes + lacks.reserved_bytes + lacks.available_bytes ≡ 100)
    × (lacks.available_bytes < lacks.requested_bytes)
unfolding reserve usage trim_space lookup used_total reserved_total sum_published sum_reservations
reserve_reports_example =
    reserve_reports two_entries 100 large 7 {e = lacks} (omega arith) (omega arith) (omega arith)
      refl

commit_admits_example :
    ((commit_published_replacing_reservations two_entries 100 ("a" ∷ "a " ∷ []) next_artifact 7).1
      ≡ none)
    ↔ (other_used two_entries "q" + 25 + still_reserved two_entries ("a" ∷ "a " ∷ []) ≤ 100)
unfolding used_total reserved_total trim_space lookup delete all_released is_nil
commit_admits_example =
    commit_admits two_entries 100 ("a" ∷ "a " ∷ []) next_artifact 7 refl (omega arith) (omega arith)
      (omega arith) (omega arith) (refl, tt) (omega arith)

abbrev no_room : InsufficientStorageError
no_room = record {
  requested_bytes = 90;
  limit_bytes = 100;
  used_bytes = 40;
  reserved_bytes = 0;
  available_bytes = 60;
}

commit_overflow_example :
    ((commit_published_replacing_reservations two_entries 100 [] huge_artifact 7).1 ≡ none)
    × (100 < other_used two_entries "q" + 0x7fffffffffffffff + still_reserved two_entries [])
unfolding used_total reserved_total trim_space lookup delete all_released is_nil
commit_overflow_example =
    commit_overflow two_entries 100 [] huge_artifact 7 refl (omega arith) (omega arith)
      (omega arith) (omega arith) (refl, tt) (omega arith)

reserved_bytes-eq_example :
    reserved_bytes two_entries ("a" ∷ "a " ∷ "c" ∷ [])
    ≡ (reserved_total two_entries.reservations
        - reserved_total (all_released two_entries.reservations ("a" ∷ "a " ∷ "c" ∷ [])))
      % modulus
unfolding lookup
reserved_bytes-eq_example = reserved_bytes-eq two_entries ("a" ∷ "a " ∷ "c" ∷ []) (refl, tt)

abbrev calls : List Call
calls =
    reserves held 1
    ∷ reserves asked 2
    ∷ commits ("a" ∷ []) artifact 3
    ∷ releases "b"
    ∷ unpublishes "p"
    ∷ []

run-Inv_example : Inv 100 (run 100 empty calls)
run-Inv_example =
    run-Inv 100 calls (omega arith) (omega arith)
      (omega arith, (omega arith, (omega arith, (tt, (tt, tt)))))

abbrev after_release : Reservation → Ledger
after_release r = release_reservation (reserve two_entries 100 r 7).0 r.id

release-reserve_example :
    (lookup "b" (after_release asked).reservations ≡ none)
    × (reserved_total (after_release asked).reservations
          + positive (reservation_size (lookup "b" two_entries.reservations))
        ≡ reserved_total two_entries.reservations)
unfolding reserve usage trim_space lookup insert sum_published sum_reservations
release-reserve_example = release-reserve two_entries 100 asked 7 (refl, tt) refl refl

release-reserve_spaced_example :
    reservation_size (lookup "b " (after_release spaced).reservations) ≡ 20
unfolding reserve usage trim_space lookup insert sum_published sum_reservations
release-reserve_spaced_example = release-reserve_spaced two_entries 100 spaced 7 refl refl

-- The calls above leave nothing, one step at a time.
runs : (usage (run 100 empty calls) 100).available_bytes ≡ 100
unfolding run step reserve usage trim_space lookup insert delete is_nil member release_reservation
    commit_published_replacing_reservations sum_published sum_reservations release_published
    reserved_bytes release_all
runs = refl
