-- ===== src/Lease.antt =====
-- The lease of the registry's garbage collector: images/dmcr/internal/leaseutil/lease.go and
-- images/dmcr/internal/garbagecollection/executor_lease.go. A time and a `time.Duration` are numbers of
-- nanoseconds, a duration as an int64 pattern, with 0 for Go's zero time; a number of seconds is an
-- int32 pattern. `math.Ceil(duration.Seconds())` is the exact ceiling, as the float64 is for durations
-- below 2 ^ 23 seconds.
pub mod Exclusion
mod Examples
use ai_models.Prelude.{
  ℕ, suc, ◌+◌, ◌-◌, ◌*◌, ◌/◌, ◌%◌, ◌^◌, ◌≡◌, ◌⊎◌, String, Bool, true, false, not, ◌&&◌, ◌||◌, ◌==◌,
  ltb, leb, List, [], ◌∷◌, Option, none, some, if◌then◌else◌,
}
use ai_models.Prelude.Text.{is_empty, trim_space, str_eq}
use ai_models.Prelude.Int64.{Int64, lt64, le64}
use ai_models.Publication.Handle.{Result, ok, err}

-- The fields of `coordinationv1.Lease` that the program reads and writes.
pub record Lease : Type 0 where
  pub holder_identity : Option String
  pub lease_duration_seconds : Option ℕ
  pub acquire_time : Option ℕ
  pub renew_time : Option ℕ
  pub lease_transitions : Option ℕ
  pub creation_timestamp : ℕ

abbrev pub second : ℕ
second = 1000000000

abbrev pub text_of : Option String → String
text_of none = ""
text_of (some t) = trim_space t

-- The lease that is asked about is never nil.
abbrev pub holder : Lease → String
holder l = text_of l.holder_identity

abbrev pub first_time : Option ℕ → Option ℕ → Option ℕ
first_time (some t) next = some t
first_time none next = next

abbrev pub reference_time : Lease → Bool → Option ℕ
reference_time l include_creation = first_time l.renew_time (
    first_time l.acquire_time (
      if include_creation && not (l.creation_timestamp == 0)
      then some l.creation_timestamp
      else none))

-- An int32 pattern stands for a positive integer.
abbrev pub positive32 : ℕ → Bool
positive32 n = ltb 0 n && ltb n (2 ^ 31)

abbrev pub duration_of : Option ℕ → Int64 → Int64
duration_of none fallback = fallback
duration_of (some s) fallback = if positive32 s then s * second else fallback

abbrev pub duration : Lease → Int64 → Int64
duration l fallback = duration_of l.lease_duration_seconds fallback

abbrev pub expired_since : Option ℕ → Int64 → ℕ → Bool
expired_since none d now = true
expired_since (some t) d now = if le64 d 0 then true else leb (t + d) now

unfoldable pub expired : Lease → ℕ → Int64 → Bool → Bool
expired l now fallback include_creation =
    expired_since (reference_time l include_creation) (duration l fallback) now

unfoldable pub duration_seconds : Int64 → Int64 → ℕ
duration_seconds d fallback =
    let used = if le64 d 0 then fallback else d in
    let seconds = ((used + (second - 1)) / second) % 2 ^ 32 in
    if positive32 seconds then seconds else 1

-- The runner's constants; its client and its clock are arguments below.
pub record Runner : Type 0 where
  pub identity : String
  pub duration : Int64

-- `DefaultExecutorLeaseDuration`.
abbrev pub default_executor_lease_duration : Int64
default_executor_lease_duration = 45 * second

unfoldable pub new_executor_lease_runner : String → String → String → Int64 → Result Runner
new_executor_lease_runner namespace name identity lease_duration =
    if is_empty (trim_space namespace)
    then err "executor lease namespace must not be empty"
    else if is_empty (trim_space name)
    then err "executor lease name must not be empty"
    else if is_empty (trim_space identity)
    then err "executor lease identity must not be empty"
    else ok (record { identity = trim_space identity; duration = lease_duration })

unfoldable pub new_lease : Runner → ℕ → Lease
unfolding duration_seconds
new_lease r now = record {
  holder_identity = some r.identity;
  lease_duration_seconds = some (duration_seconds r.duration default_executor_lease_duration);
  acquire_time = some now;
  renew_time = some now;
  lease_transitions = some 0;
  creation_timestamp = 0;
}

abbrev pub increment_executor_lease_transitions : Option ℕ → ℕ
increment_executor_lease_transitions none = 1
increment_executor_lease_transitions (some n) = (n + 1) % 2 ^ 32

-- The lease that the runner writes over the one that it has read.
unfoldable pub updated_lease : Runner → ℕ → Lease → Lease
unfolding duration_seconds
updated_lease r now l =
    let taken = not (str_eq (holder l) r.identity) in
    record l {
      holder_identity = some r.identity;
      lease_duration_seconds = some (duration_seconds r.duration default_executor_lease_duration);
      renew_time = some now;
      acquire_time = if taken then some now else first_time l.acquire_time (some now);
      lease_transitions =
          if taken
          then some (increment_executor_lease_transitions l.lease_transitions)
          else l.lease_transitions;
    }

-- Another identity holds the lease that was read.
unfoldable pub held_by_other : Runner → ℕ → Lease → Bool
unfolding expired
held_by_other r now l =
    not (is_empty (holder l))
    && not (str_eq (holder l) r.identity)
    && not (expired l now r.duration true)

pub data Read : Type 0 where
  found : Lease → Read
  not_found get_failed : Read

pub data Write : Type 0 where
  written rejected write_failed : Write

-- The API server's lease of this name, a parameter with its documented behaviour: a lease is created only
-- where there is none, and updated only where it is the one that was read (its resource version is
-- compared), and a request that fails may have been carried out all the same.
pub record LeaseClient (S : Type 0) : Type 0 where
  pub stored : S → Option Lease
  pub create : S → Lease → S × Write
  pub update : S → Lease → Lease → S × Write
  pub create-stored :
      (s : S) (l : Lease)
      → (stored (create s l).0 ≡ stored s) ⊎ ((stored s ≡ none) × (stored (create s l).0 ≡ some l))
  pub create-written :
      (s : S) (l : Lease)
      → (create s l).1 ≡ written
      → (stored s ≡ none) × (stored (create s l).0 ≡ some l)
  pub update-stored :
      (s : S) (read l : Lease)
      → (stored (update s read l).0 ≡ stored s)
        ⊎ ((stored s ≡ some read) × (stored (update s read l).0 ≡ some l))
  pub update-written :
      (s : S) (read l : Lease)
      → (update s read l).1 ≡ written
      → (stored s ≡ some read) × (stored (update s read l).0 ≡ some l)

-- `rejected` is an error that says that the lease exists, has changed or is gone.
abbrev pub acquired : Write → String → Result Bool
acquired written failure = ok true
acquired rejected failure = ok false
acquired write_failed failure = err failure

module _ {S : Type 0} (client : LeaseClient S) where
  open client use {create, update}

  -- The part of `acquireOrRenew` behind its read. The server may have changed since the read, so the
  -- state is that at the write.
  unfoldable pub write_lease : Runner → ℕ → Read → S → S × Result Bool
  unfolding held_by_other
  write_lease r now get_failed s = (s, err "get dmcr garbage-collection executor lease")
  write_lease r now not_found s =
      let (after, w) = create s (new_lease r now) in
      (after, acquired w "create dmcr garbage-collection executor lease")
  write_lease r now (found l) s =
      let (after, w) = update s l (updated_lease r now l) in
      if held_by_other r now l
      then (s, ok false)
      else (after, acquired w "update dmcr garbage-collection executor lease")

-- One call of `acquireOrRenew`: who calls, its clock, and what it has read.
pub record Attempt : Type 0 where
  pub runner : Runner
  pub now : ℕ
  pub read : Read

module _ {S : Type 0} (client : LeaseClient S) where
  -- Calls by their writes, in the order in which these reach the server, with what each returns.
  unfoldable pub run : S → List Attempt → S × List (Result Bool)
  run s [] = (s, [])
  run s (a ∷ attempts) =
      let (after, result) = write_lease client a.runner a.now a.read s in
      let (last, results) = run after attempts in (last, result ∷ results)
