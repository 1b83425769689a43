-- ===== src/NodeCache/Plan.antt =====
-- Which entries of a node's cache are evicted: images/controller/internal/nodecache/plan.go, over
-- the entries of scan.go. A time is a number of nanoseconds with 0 for Go's zero time; a size and a
-- duration are int64 patterns. `sort.Slice` is an insertion sort by the source's order: where that
-- order ties, Go may return the tied entries in another sequence.
pub mod Loop
pub mod Select
pub mod Candidates
pub mod Eviction
use ai_models.Prelude.{
  ℕ, ◌+◌, ◌-◌, ◌^◌, String, Bool, true, false, ◌&&◌, ◌||◌, not, List, [], ◌∷◌, ◌++◌, ◌==◌, ltb,
  if◌then◌else◌, min, keep,
}
use ai_models.Prelude.Text.{is_empty, trim_space, str_eq, str_lt}
use ai_models.Prelude.Int64.{Int64, add64, sub64, lt64, le64, half}
use ai_models.Prelude.Assoc.{member}

pub record Entry : Type 0 where
  pub digest : String
  pub destination_dir : String
  pub ready_at : ℕ
  pub last_used_at : ℕ
  pub size_bytes : Int64
  pub current : Bool
  pub ready : Bool
  pub failure : String

pub record Snapshot : Type 0 where
  pub entries : List Entry
  pub total_size_bytes : Int64

pub record PlanInput : Type 0 where
  pub now : ℕ
  pub max_total_size_bytes : Int64
  pub max_unused_age : Int64
  pub protected_digests : List String

pub data CandidateReason : Type 0 where
  malformed unused_age size_pressure : CandidateReason

pub record Candidate : Type 0 where
  pub digest : String
  pub destination_dir : String
  pub reclaim_bytes : Int64
  pub reason : CandidateReason
  pub failure : String

pub record EvictionPlan : Type 0 where
  pub total_size_bytes : Int64
  pub residual_size_bytes : Int64
  pub reclaim_bytes : Int64
  pub candidates : List Candidate

unfoldable pub entry_last_used : Entry → ℕ
entry_last_used e = if e.last_used_at == 0 then e.ready_at else e.last_used_at

unfoldable pub protected_digest_set : List String → List String
protected_digest_set [] = []
protected_digest_set (raw ∷ digests) =
    let digest = trim_space raw in
    let rest = protected_digest_set digests in if is_empty digest then rest else digest ∷ rest

unfoldable pub is_protected_digest : String → List String → Bool
is_protected_digest digest [] = false
is_protected_digest digest (p ∷ protected) = member (trim_space digest) (p ∷ protected)

-- `sort.Slice`, stable.
unfoldable pub insert_sorted : (Entry → Entry → Bool) → Entry → List Entry → List Entry
insert_sorted less e [] = e ∷ []
insert_sorted less e (f ∷ es) =
    let rest = insert_sorted less e es in if less f e then f ∷ rest else e ∷ f ∷ es

unfoldable pub sort_slice : (Entry → Entry → Bool) → List Entry → List Entry
unfolding insert_sorted
sort_slice less [] = []
sort_slice less (e ∷ es) = insert_sorted less e (sort_slice less es)

pub larger_first : Entry → Entry → Bool
larger_first a b =
    if a.size_bytes == b.size_bytes
    then str_lt a.destination_dir b.destination_dir
    else lt64 b.size_bytes a.size_bytes

pub older_first : Entry → Entry → Bool
unfolding entry_last_used
older_first a b =
    if entry_last_used a == entry_last_used b
    then str_lt a.destination_dir b.destination_dir
    else ltb (entry_last_used a) (entry_last_used b)

pub older_then_larger : Entry → Entry → Bool
unfolding entry_last_used larger_first
older_then_larger a b =
    if entry_last_used a == entry_last_used b
    then larger_first a b
    else ltb (entry_last_used a) (entry_last_used b)

pub malformed_test : List String → Entry → Bool
malformed_test protected e =
    if is_protected_digest e.digest protected
    then false
    else if e.current || e.ready
    then false
    else true

unfoldable pub malformed_candidates : List Entry → List String → List Entry
unfolding malformed_test sort_slice larger_first
malformed_candidates entries protected =
    sort_slice larger_first (keep (malformed_test protected) entries)

-- `now.Sub(last) < age`, for an age above 0. `Sub` saturates at the largest duration.
abbrev pub younger : ℕ → ℕ → Int64 → Bool
younger now last age = ltb now last || ltb (min (now - last) (half - 1)) age

pub unused_test : PlanInput → List String → Entry → Bool
unused_test input protected e =
    if is_protected_digest e.digest protected
    then false
    else if not e.ready || e.current
    then false
    else if (entry_last_used e == 0) || younger input.now (entry_last_used e) input.max_unused_age
    then false
    else true

unfoldable pub unused_age_candidates : List Entry → PlanInput → List String → List Entry
unfolding unused_test sort_slice older_first
unused_age_candidates entries input protected =
    if le64 input.max_unused_age 0
    then []
    else sort_slice older_first (keep (unused_test input protected) entries)

pub pressure_test : List String → Entry → Bool
pressure_test protected e =
    if is_protected_digest e.digest protected
    then false
    else if not e.ready || e.current
    then false
    else true

unfoldable pub size_pressure_candidates : List Entry → List String → List Entry
unfolding pressure_test sort_slice older_then_larger
size_pressure_candidates entries protected =
    sort_slice older_then_larger (keep (pressure_test protected) entries)

-- The plan under construction and the directories `selected` so far.
pub record Progress : Type 0 where
  pub plan : EvictionPlan
  pub selected : List String

abbrev pub candidate : Entry → CandidateReason → Candidate
candidate e reason = record {
  digest = e.digest;
  destination_dir = e.destination_dir;
  reclaim_bytes = e.size_bytes;
  reason = reason;
  failure = e.failure;
}

unfoldable pub append_candidate : Progress → Entry → CandidateReason → Progress
append_candidate p e reason = if member e.destination_dir p.selected then p else record {
  plan = record (p.plan) {
    candidates = p.plan.candidates ++ candidate e reason ∷ [];
    reclaim_bytes = add64 p.plan.reclaim_bytes e.size_bytes;
    residual_size_bytes = sub64 p.plan.residual_size_bytes e.size_bytes;
  };
  selected = e.destination_dir ∷ p.selected;
}

unfoldable pub append_all : Progress → List Entry → CandidateReason → Progress
unfolding append_candidate
append_all p [] reason = p
append_all p (e ∷ es) reason = append_all (append_candidate p e reason) es reason

-- The loop under size pressure stops when the residual size fits.
unfoldable pub append_until_fits : Int64 → Progress → List Entry → Progress
unfolding append_candidate
append_until_fits max p [] = p
append_until_fits max p (e ∷ es) =
    let next = append_candidate p e CandidateReason.size_pressure in
    let rest = append_until_fits max next es in
    if le64 next.plan.residual_size_bytes max then next else rest

abbrev pub start : Snapshot → Progress
start snapshot = record {
  plan = record {
    total_size_bytes = snapshot.total_size_bytes;
    residual_size_bytes = snapshot.total_size_bytes;
    reclaim_bytes = 0;
    candidates = [];
  };
  selected = [];
}

-- What the first two loops leave.
unfoldable pub planned_by_state : Snapshot → PlanInput → List String → Progress
planned_by_state snapshot input protected =
    let p =
      append_all (start snapshot) (malformed_candidates snapshot.entries protected)
        CandidateReason.malformed in
    append_all p (unused_age_candidates snapshot.entries input protected) CandidateReason.unused_age

-- The third loop, under its test.
unfoldable pub relieve_pressure : Snapshot → PlanInput → List String → Progress → Progress
relieve_pressure snapshot input protected p =
    let max = input.max_total_size_bytes in
    if lt64 0 max && lt64 max p.plan.residual_size_bytes
    then append_until_fits max p (size_pressure_candidates snapshot.entries protected)
    else p

-- The input with the clock in the place of a zero time.
abbrev pub timed : PlanInput → ℕ → PlanInput
timed input clock = record input { now = if input.now == 0 then clock else input.now }

unfoldable pub plan_timed : Snapshot → PlanInput → EvictionPlan
plan_timed snapshot input =
    let protected = protected_digest_set input.protected_digests in
    (relieve_pressure snapshot input protected (planned_by_state snapshot input protected)).plan

-- `clock` is what `time.Now()` returns.
unfoldable pub plan_eviction : Snapshot → PlanInput → ℕ → EvictionPlan
plan_eviction snapshot input clock = plan_timed snapshot (timed input clock)
