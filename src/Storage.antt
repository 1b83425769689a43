-- ===== src/Storage.antt =====
-- The artifact storage ledger: images/controller/internal/domain/storagecapacity/model.go.
-- A method on `*Ledger` returns the ledger after the call; `error` is `Option LedgerError`. A time
-- is a number with 0 for Go's zero time, and `time.Now()` is the argument `now`. A nil map and an
-- empty one are the same list.
pub mod Sums
pub mod Releases
pub mod Limit
pub mod Commit
pub mod Calls
pub mod Store
mod Examples
use ai_models.Prelude.{
  ℕ, ◌+◌, String, Bool, true, false, ◌&&◌, ◌||◌, not, Option, none, some, List, [], ◌∷◌, ◌==◌,
  if◌then◌else◌,
}
use ai_models.Prelude.Text.{is_empty, trim_space}
use ai_models.Prelude.Int64.{Int64, add64, sub64, lt64, le64}
use ai_models.Prelude.Assoc.{member, lookup, insert, delete, is_nil}

pub record Owner : Type 0 where
  pub kind : String
  pub name : String
  pub namespace : String
  pub uid : String

pub record Reservation : Type 0 where
  pub id : String
  pub owner : Owner
  pub size_bytes : Int64
  pub created_at : ℕ

pub record PublishedArtifact : Type 0 where
  pub id : String
  pub owner : Owner
  pub size_bytes : Int64
  pub updated_at : ℕ

pub record Ledger : Type 0 where
  pub version : ℕ
  pub reservations : List (String × Reservation)
  pub published : List (String × PublishedArtifact)

pub record Usage : Type 0 where
  pub capacity_known : Bool
  pub limit_bytes : Int64
  pub used_bytes : Int64
  pub reserved_bytes : Int64
  pub available_bytes : Int64

pub record InsufficientStorageError : Type 0 where
  pub requested_bytes : Int64
  pub limit_bytes : Int64
  pub used_bytes : Int64
  pub reserved_bytes : Int64
  pub available_bytes : Int64

-- The texts that `validateEntry` formats, by what they say, with the kind of the entry.
pub data LedgerError : Type 0 where
  id_empty uid_empty size_not_positive : String → LedgerError
  insufficient : InsufficientStorageError → LedgerError

pub is_insufficient_storage : Option LedgerError → Bool
is_insufficient_storage (some (insufficient e)) = true
is_insufficient_storage _ = false

abbrev pub positive : Int64 → Int64
positive value = if lt64 value 0 then 0 else value

abbrev pub max_int64 : Int64 → Int64 → Int64
max_int64 left right = if lt64 right left then left else right

pub sum_reservations : List (String × Reservation) → Int64
sum_reservations [] = 0
sum_reservations ((key, value) ∷ values) =
    add64 (sum_reservations values) (positive value.size_bytes)

pub sum_published : List (String × PublishedArtifact) → Int64
sum_published [] = 0
sum_published ((key, value) ∷ values) = add64 (sum_published values) (positive value.size_bytes)

-- A missing key reads as the zero value, whose size is 0.
abbrev pub reservation_size : Option Reservation → Int64
reservation_size none = 0
reservation_size (some r) = r.size_bytes

abbrev pub published_size : Option PublishedArtifact → Int64
published_size none = 0
published_size (some a) = a.size_bytes

pub usage : Ledger → Int64 → Usage
usage l limit =
    let used = sum_published l.published in
    let reserved = sum_reservations l.reservations in
    record {
      capacity_known = lt64 0 limit;
      limit_bytes = max_int64 0 limit;
      used_bytes = used;
      reserved_bytes = reserved;
      available_bytes = if lt64 0 limit then max_int64 0 (sub64 (sub64 limit used) reserved) else 0;
    }

abbrev pub validate_entry : String → Owner → Int64 → String → Option LedgerError
validate_entry id owner size kind =
    if is_empty (trim_space id)
    then some (id_empty kind)
    else if is_empty (trim_space owner.uid)
    then some (uid_empty kind)
    else if le64 size 0
    then some (size_not_positive kind)
    else none

-- The nil maps that `ensure` makes are the empty lists already.
abbrev pub ensure : Ledger → Ledger
ensure l = record l { version = if l.version == 0 then 1 else l.version }

abbrev pub created : Reservation → ℕ → Reservation
created r now = record r { created_at = if r.created_at == 0 then now else r.created_at }

abbrev pub updated : PublishedArtifact → ℕ → PublishedArtifact
updated a now = record a { updated_at = if a.updated_at == 0 then now else a.updated_at }

-- `Reserve` behind the validation of its entry.
reserve_valid : Ledger → Int64 → Reservation → ℕ → Ledger × Option LedgerError
unfolding usage
reserve_valid l limit r now =
    let current = reservation_size (lookup r.id l.reservations) in
    let u = usage l limit in
    let next_reserved = add64 (sub64 u.reserved_bytes (positive current)) r.size_bytes in
    let next_available = sub64 (sub64 limit u.used_bytes) next_reserved in
    let others = sub64 u.reserved_bytes (positive current) in
    if lt64 0 limit && lt64 next_available 0
    then (
      ensure l,
      some (
          insufficient (record {
            requested_bytes = r.size_bytes;
            limit_bytes = limit;
            used_bytes = u.used_bytes;
            reserved_bytes = others;
            available_bytes = max_int64 0 (sub64 (sub64 limit u.used_bytes) others);
          })),
    )
    else (record (ensure l) { reservations = insert r.id (created r now) l.reservations }, none)

pub reserve : Ledger → Int64 → Reservation → ℕ → Ledger × Option LedgerError
unfolding reserve_valid
reserve l limit r now = elim (validate_entry r.id r.owner r.size_bytes "reservation") [
  | some e ↦ (l, some e)
  | none ↦ reserve_valid l limit r now
]

pub release_reservation : Ledger → String → Ledger
release_reservation l raw =
    let id = trim_space raw in
    if is_empty id || is_nil l.reservations
    then l
    else record l { reservations = delete id l.reservations }

pub release_published : Ledger → String → Ledger
release_published l raw =
    let id = trim_space raw in
    if is_empty id || is_nil l.published then l else record l { published = delete id l.published }

-- The loop of `reservedBytes`, from the ids seen and the total so far.
pub reserved_loop : List (String × Reservation) → List String → Int64 → List String → Int64
reserved_loop m seen total [] = total
reserved_loop m seen total (raw ∷ ids) =
    let id = trim_space raw in
    let skipped = reserved_loop m seen total ids in
    let counted =
      reserved_loop m (id ∷ seen) (add64 total (positive (reservation_size (lookup id m)))) ids in
    if is_empty id then skipped else if member id seen then skipped else counted

pub reserved_bytes : Ledger → List String → Int64
unfolding reserved_loop
reserved_bytes l [] = 0
reserved_bytes l (id ∷ ids) =
    if is_nil l.reservations then 0 else reserved_loop l.reservations [] 0 (id ∷ ids)

pub release_all : Ledger → List String → Ledger
release_all l [] = l
release_all l (id ∷ ids) = release_all (release_reservation l id) ids

commit_valid : Ledger → Int64 → List String → PublishedArtifact → ℕ → Ledger × Option LedgerError
unfolding usage
commit_valid l limit ids a now =
    let u = usage l limit in
    let released = reserved_bytes l ids in
    let existing = positive (published_size (lookup a.id l.published)) in
    let next_used = add64 (sub64 u.used_bytes existing) a.size_bytes in
    let next_reserved = sub64 u.reserved_bytes released in
    let kept = release_all (ensure l) ids in
    if lt64 0 limit && lt64 limit (add64 next_used next_reserved)
    then (
      ensure l,
      some (
          insufficient (record {
            requested_bytes = a.size_bytes;
            limit_bytes = limit;
            used_bytes = sub64 u.used_bytes existing;
            reserved_bytes = next_reserved;
            available_bytes =
                max_int64 0 (sub64 (sub64 limit (sub64 u.used_bytes existing)) next_reserved);
          })),
    )
    else (record kept { published = insert a.id (updated a now) kept.published }, none)

pub commit_published_replacing_reservations :
    Ledger → Int64 → List String → PublishedArtifact → ℕ → Ledger × Option LedgerError
unfolding commit_valid
commit_published_replacing_reservations l limit ids a now =
    elim (validate_entry a.id a.owner a.size_bytes "published artifact") [
      | some e ↦ (l, some e)
      | none ↦ commit_valid l limit ids a now
    ]

pub commit_published : Ledger → Int64 → PublishedArtifact → ℕ → Ledger × Option LedgerError
unfolding commit_published_replacing_reservations
commit_published l limit a now = commit_published_replacing_reservations l limit [] a now
