-- ===== src/Lease/Examples.antt =====
-- The lease of concrete runners, on a server that compares the whole lease with the one read.
use ai_models.Prelude.{
  not, ltb, ◌+◌, ◌&&◌, ℕ, ◌≡◌, ◌≢◌, ◌⊎◌, inl, inr, refl, ap, String, Bool, true, false, ◌==◌, List,
  [], ◌∷◌, Option, none, some, if◌then◌else◌, All, arith, Bool-cases,
}
use text.Mathlib.TextEquality.{eq_iff}
use ai_models.Prelude.Text.{str_eq, trim_space}
use ai_models.Publication.Handle.{ok}
use ai_models.Lease.{
  Lease, Runner, Write, found, not_found, written, rejected, LeaseClient, Attempt, new_lease,
  write_lease, run, held_by_other, updated_lease, expired, duration_seconds,
}
use ai_models.Lease.Exclusion.{write_lease_excludes, term, updated_lease-held_by_other}

abbrev same_text : Option String → Option String → Bool
same_text none none = true
same_text (some a) (some b) = str_eq a b
same_text _ _ = false

abbrev same_number : Option ℕ → Option ℕ → Bool
same_number none none = true
same_number (some a) (some b) = a == b
same_number _ _ = false

abbrev same_lease : Lease → Lease → Bool
same_lease a b =
    same_text a.holder_identity b.holder_identity
    && same_number a.lease_duration_seconds b.lease_duration_seconds
    && same_number a.acquire_time b.acquire_time
    && same_number a.renew_time b.renew_time
    && same_number a.lease_transitions b.lease_transitions
    && a.creation_timestamp == b.creation_timestamp

same_text→eq : (a b : Option String) → same_text a b ≡ true → a ≡ b
same_text→eq none none h = refl
same_text→eq none (some b) h = absurd (cc)
same_text→eq (some a) none h = absurd (cc)
same_text→eq (some a) (some b) h = ap some ((eq_iff a b).0 h)

same_number→eq : (a b : Option ℕ) → same_number a b ≡ true → a ≡ b
same_number→eq none none h = refl
same_number→eq none (some b) h = absurd (cc)
same_number→eq (some a) none h = absurd (cc)
same_number→eq (some a) (some b) h = ground arith

same_lease→eq : (a b : Lease) → same_lease a b ≡ true → a ≡ b
same_lease→eq a b h = ground (
  arith,
  same_text→eq a.holder_identity b.holder_identity,
  same_number→eq a.lease_duration_seconds b.lease_duration_seconds,
  same_number→eq a.acquire_time b.acquire_time,
  same_number→eq a.renew_time b.renew_time,
  same_number→eq a.lease_transitions b.lease_transitions,
)

abbrev create_on : Option Lease → Lease → Option Lease × Write
create_on none l = (some l, written)
create_on (some m) l = (some m, rejected)

abbrev update_on : Option Lease → Lease → Lease → Option Lease × Write
update_on none read l = (none, rejected)
update_on (some m) read l = if same_lease m read then (some l, written) else (some m, rejected)

create_on-stored :
    (s : Option Lease) (l : Lease)
    → ((create_on s l).0 ≡ s) ⊎ ((s ≡ none) × ((create_on s l).0 ≡ some l))
create_on-stored none l = inr (refl, refl)
create_on-stored (some m) l = inl refl

create_on-written :
    (s : Option Lease) (l : Lease)
    → (create_on s l).1 ≡ written
    → (s ≡ none) × ((create_on s l).0 ≡ some l)
create_on-written none l h = (refl, refl)
create_on-written (some m) l h = absurd (cc)

update_on-stored :
    (s : Option Lease) (read l : Lease)
    → ((update_on s read l).0 ≡ s) ⊎ ((s ≡ some read) × ((update_on s read l).0 ≡ some l))
update_on-stored none read l = inl refl
update_on-stored (some m) read l = elim (Bool-cases (same_lease m read)) [
  | inl e ↦ rw e (inr (ap some (same_lease→eq m read e), refl))
  | inr e ↦ rw e (inl refl)
]

update_on-written :
    (s : Option Lease) (read l : Lease)
    → (update_on s read l).1 ≡ written
    → (s ≡ some read) × ((update_on s read l).0 ≡ some l)
update_on-written none read l h = absurd (cc)
update_on-written (some m) read l h = elim (Bool-cases (same_lease m read)) [
  | inl e ↦ rw e (ap some (same_lease→eq m read e), refl)
  | inr e ↦ absurd (ground arith)
]

abbrev server : LeaseClient (Option Lease)
server = record {
  stored = λ s. s;
  create = create_on;
  update = update_on;
  create-stored = create_on-stored;
  create-written = create_on-written;
  update-stored = update_on-stored;
  update-written = update_on-written;
}

abbrev first_runner : Runner
first_runner = record { identity = "pod-a"; duration = 15000000000 }

abbrev second_runner : Runner
second_runner = record { identity = "pod-b"; duration = 15000000000 }

abbrev later_attempts : List Attempt
later_attempts =
    record { runner = second_runner; now = 5000000000; read = found (new_lease first_runner 1000) }
    ∷ record { runner = second_runner; now = 9000000000; read = not_found }
    ∷ []

write_lease_excludes_example :
    ((run server (write_lease server first_runner 1000 not_found none).0 later_attempts).0
      ≡ (write_lease server first_runner 1000 not_found none).0)
    × All
        (λ result. result ≢ ok true)
        (run server (write_lease server first_runner 1000 not_found none).0 later_attempts).1
unfolding trim_space write_lease duration_seconds
write_lease_excludes_example =
    write_lease_excludes server first_runner 1000 not_found none later_attempts (refl, refl) refl
      ((refl, omega arith), ((refl, omega arith), tt))

-- After its term the lease is taken over.
takes_over :
    (write_lease server second_runner 20000000000
      (found (new_lease first_runner 1000))
      (some (new_lease first_runner 1000))).1
    ≡ ok true
unfolding write_lease held_by_other expired new_lease updated_lease duration_seconds trim_space
takes_over = refl

updated_lease-held_by_other_example :
    held_by_other second_runner 9000000000
      (updated_lease first_runner 1000 (new_lease second_runner 10))
    ≡ (not (str_eq "pod-a" "pod-b") && ltb 9000000000 (1000 + term first_runner))
unfolding trim_space
updated_lease-held_by_other_example =
    updated_lease-held_by_other first_runner second_runner 1000 9000000000
      (new_lease second_runner 10) (refl, refl)
