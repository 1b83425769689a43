-- ===== src/Storage/Sums.antt =====
-- The sums of the ledger against plain numbers, which do not wrap.
use ai_models.Prelude.{ℕ, ◌+◌, ◌%◌, ◌≡◌, refl, String, List, [], ◌∷◌, arith}
use ai_models.Prelude.Int64.{modulus}
use ai_models.Prelude.Assoc.{lookup, insert, delete}
use ai_models.Storage.{
  Reservation, PublishedArtifact, sum_reservations, sum_published, positive, reservation_size,
  published_size,
}

-- The bytes that the entries of a map take together.
unfoldable pub reserved_total : List (String × Reservation) → ℕ
reserved_total [] = 0
reserved_total ((k, r) ∷ m) = reserved_total m + positive r.size_bytes

unfoldable pub used_total : List (String × PublishedArtifact) → ℕ
used_total [] = 0
used_total ((k, a) ∷ m) = used_total m + positive a.size_bytes

pub sum_reservations-eq :
    (m : List (String × Reservation)) → sum_reservations m ≡ reserved_total m % modulus
unfolding sum_reservations reserved_total
sum_reservations-eq [] = refl
sum_reservations-eq ((k, r) ∷ m) = omega (arith, sum_reservations-eq m)

pub sum_published-eq :
    (m : List (String × PublishedArtifact)) → sum_published m ≡ used_total m % modulus
unfolding sum_published used_total
sum_published-eq [] = refl
sum_published-eq ((k, a) ∷ m) = omega (arith, sum_published-eq m)

-- A write puts the new size in the place of the old one.
pub reserved_total-insert :
    (k : String) (r : Reservation) (m : List (String × Reservation))
    → reserved_total (insert k r m) + positive (reservation_size (lookup k m))
      ≡ reserved_total m + positive r.size_bytes
unfolding reserved_total insert lookup
reserved_total-insert k r [] = ground arith
reserved_total-insert k r ((j, s) ∷ m) = ground (arith, reserved_total-insert k r m)

pub used_total-insert :
    (k : String) (a : PublishedArtifact) (m : List (String × PublishedArtifact))
    → used_total (insert k a m) + positive (published_size (lookup k m))
      ≡ used_total m + positive a.size_bytes
unfolding used_total insert lookup
used_total-insert k a [] = ground arith
used_total-insert k a ((j, b) ∷ m) = ground (arith, used_total-insert k a m)

-- A removal takes the entry's size off.
pub reserved_total-delete :
    (k : String) (m : List (String × Reservation))
    → reserved_total (delete k m) + positive (reservation_size (lookup k m)) ≡ reserved_total m
unfolding reserved_total delete lookup
reserved_total-delete k [] = ground arith
reserved_total-delete k ((j, s) ∷ m) = ground (arith, reserved_total-delete k m)

pub used_total-delete :
    (k : String) (m : List (String × PublishedArtifact))
    → used_total (delete k m) + positive (published_size (lookup k m)) ≡ used_total m
unfolding used_total delete lookup
used_total-delete k [] = ground arith
used_total-delete k ((j, b) ∷ m) = ground (arith, used_total-delete k m)
