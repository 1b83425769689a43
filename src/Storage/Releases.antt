-- ===== src/Storage/Releases.antt =====
-- What `reservedBytes` counts is what releasing the same ids gives back.
use ai_models.Prelude.{
  ℕ, ◌+◌, ◌-◌, ◌%◌, ◌≤◌, ◌<◌, ◌≡◌, ◌∙◌, ap, refl, inl, inr, String, true, false, ◌||◌, none, List,
  [], ◌∷◌, arith, if◌then◌else◌, Bool-cases,
}
use text.Mathlib.TextEquality.{eq_iff}
use ai_models.Prelude.Text.{str_eq, is_empty, trim_space}
use ai_models.Prelude.Int64.{modulus, add64}
use ai_models.Prelude.Assoc.{
  member, lookup, delete, is_nil, Distinct, delete-Distinct, lookup-delete_ne, lookup-delete_self,
}
use ai_models.Storage.{
  Reservation, Ledger, reserved_loop, reserved_bytes, release_reservation, release_all, positive,
  reservation_size,
}
use ai_models.Storage.Sums.{reserved_total, reserved_total-delete}

abbrev pub Reservations : Type 0
Reservations = List (String × Reservation)

-- The map that one release leaves, and the map that all of them leave.
abbrev pub released : Reservations → String → Reservations
released m raw = if is_empty (trim_space raw) || is_nil m then m else delete (trim_space raw) m

unfoldable pub all_released : Reservations → List String → Reservations
all_released m [] = m
all_released m (raw ∷ ids) = all_released (released m raw) ids

pub release_all_reservations :
    (l : Ledger) (ids : List String)
    → (release_all l ids).reservations ≡ all_released l.reservations ids
unfolding release_all all_released release_reservation
release_all_reservations l [] = refl
release_all_reservations l (raw ∷ ids) =
    ground (arith, release_all_reservations (release_reservation l raw) ids)

pub release_all_published :
    (l : Ledger) (ids : List String) → (release_all l ids).published ≡ l.published
unfolding release_all release_reservation
release_all_published l [] = refl
release_all_published l (raw ∷ ids) =
    ground (arith, release_all_published (release_reservation l raw) ids)

released-Distinct : (m : Reservations) (raw : String) → Distinct m → Distinct (released m raw)
released-Distinct m raw d = ground (arith, delete-Distinct (trim_space raw) m d)

-- `cur` is `m` without the ids seen.
abbrev Without : List String → Reservations → Reservations → Type 0
Without seen m cur = (k : String) → lookup k cur ≡ (if member k seen then none else lookup k m)

Without-delete :
    (id : String) (seen : List String) (m cur : Reservations)
    → Distinct cur
    → Without seen m cur
    → Without (id ∷ seen) m (delete id cur)
unfolding member
Without-delete id seen m cur d w k = elim (Bool-cases (str_eq id k)) [
  | inl same ↦
      rw (same) (let e : id ≡ k = (eq_iff id k).0 same in rw (← e) (lookup-delete_self id cur d))
  | inr other ↦ rw other (lookup-delete_ne id k cur other ∙ w k)
]

total-all_released :
    (m : Reservations) (ids : List String) → reserved_total (all_released m ids) ≤ reserved_total m
unfolding all_released
total-all_released m [] = omega arith
total-all_released m (raw ∷ ids) =
    ground
      (arith, total-all_released (released m raw) ids, reserved_total-delete (trim_space raw) m)

delete_missing : (id : String) (m : Reservations) → lookup id m ≡ none → delete id m ≡ m
unfolding delete lookup
delete_missing id [] h = refl
delete_missing id ((j, r) ∷ m) h = ground (arith, delete_missing id m)

-- An id that is not empty is deleted, also from an empty map.
released_named :
    (m : Reservations) (raw : String)
    → is_empty (trim_space raw) ≡ false
    → released m raw ≡ delete (trim_space raw) m
unfolding delete is_nil
released_named [] raw h = ground arith
released_named (x ∷ m) raw h = rw h

reserved_loop-eq :
    (m cur : Reservations) (seen : List String) (total : ℕ) (ids : List String)
    → total < modulus
    → Distinct cur
    → Without seen m cur
    → reserved_loop m seen total ids
      ≡ (total + (reserved_total cur - reserved_total (all_released cur ids))) % modulus
unfolding reserved_loop all_released
reserved_loop-eq m cur seen total [] h d w = omega arith
reserved_loop-eq m cur seen total (raw ∷ ids) h d w =
    let id = trim_space raw in
    elim (Bool-cases (is_empty id)) [
      | inl e ↦ rw e (reserved_loop-eq m cur seen total ids h d w)
      | inr e ↦ elim (Bool-cases (member id seen)) [
        | inl seen_before ↦
            let gone : delete id cur ≡ cur = delete_missing id cur (ground (arith, w id)) in
            rw (released_named cur raw e, e, seen_before, gone)
              (reserved_loop-eq m cur seen total ids h d w)
        | inr fresh ↦
            let counted : add64 total (positive (reservation_size (lookup id m))) < modulus =
              omega arith in
            rw (released_named cur raw e, e, fresh)
              (omega (
                arith,
                reserved_loop-eq m (delete id cur) (id ∷ seen)
                    (add64 total (positive (reservation_size (lookup id m)))) ids counted
                    (delete-Distinct id cur d) (Without-delete id seen m cur d w),
                reserved_total-delete id cur,
                ap (λ o. positive (reservation_size o)) (live id fresh),
                total-all_released (delete id cur) ids,
              ))
      ]
    ]
  where
    live : (id : String) → member id seen ≡ false → lookup id cur ≡ lookup id m
    live id fresh = rw (w id) (rw fresh)

total-is_nil : (m : Reservations) → is_nil m ≡ true → reserved_total m ≡ 0
unfolding reserved_total is_nil
total-is_nil [] h = refl
total-is_nil (x ∷ m) h = cc

pub total-release_all :
    (l : Ledger) (ids : List String)
    → reserved_total (all_released l.reservations ids) ≤ reserved_total l.reservations
total-release_all l ids = total-all_released l.reservations ids

-- Where the reservation ids are distinct, `reservedBytes` of any ids, also repeated or unknown
-- ones, is what releasing them one after the other takes off the reserved bytes, as an int64.
pub reserved_bytes-eq :
    (l : Ledger) (ids : List String)
    → Distinct l.reservations
    → reserved_bytes l ids
      ≡ (reserved_total l.reservations - reserved_total (all_released l.reservations ids)) % modulus
unfolding reserved_bytes
reserved_bytes-eq l [] d = unfold all_released in omega arith
reserved_bytes-eq l (id ∷ ids) d = elim (Bool-cases (is_nil l.reservations)) [
  | inl e ↦ rw e (omega (arith, total-is_nil l.reservations e, total-release_all l (id ∷ ids)))
  | inr e ↦ rw e (
      omega (
        arith,
        reserved_loop-eq l.reservations l.reservations [] 0 (id ∷ ids) (omega arith) d
            (λ k. unfold member in refl),
      ))
]

pub all_released-Distinct :
    (m : Reservations) (ids : List String) → Distinct m → Distinct (all_released m ids)
unfolding all_released
all_released-Distinct m [] d = d
all_released-Distinct m (raw ∷ ids) d =
    all_released-Distinct (released m raw) ids (released-Distinct m raw d)
