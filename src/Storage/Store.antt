-- ===== src/Storage/Store.antt =====
-- The store of the ledger in a secret: store.go and options.go of
-- images/controller/internal/adapters/k8s/storageaccounting. A state of the API server is a
-- parameter, as is the codec of `encoding/json`. The function that `update` passes to
-- `retry.RetryOnConflict` is `attempt`, which reads at one state and writes at a later one; how often it
-- is run again at a conflict is the retry package's.
pub mod Refines
mod Examples
use ai_models.Prelude.{
  ◌⊎◌, inl, inr, String, Bool, false, not, Option, none, some, List, [], ◌∷◌, if◌then◌else◌,
}
use ai_models.Prelude.Text.{is_empty, trim_space}
use ai_models.Prelude.Int64.{Int64, lt64}
use ai_models.Prelude.Assoc.{insert, lookup}
use ai_models.Publication.Handle.{Result, ok, err}
use ai_models.Storage.{
  Ledger, LedgerError, Usage, usage, reserve, release_reservation, release_published,
  commit_published_replacing_reservations,
}
use ai_models.Storage.Calls.{Call, reserves, releases, commits, unpublishes, empty}

abbrev pub default_secret_name : String
default_secret_name = "ai-models-storage-accounting"

abbrev pub app_name : String
app_name = "ai-models-storage-accounting"

abbrev pub ledger_data_key : String
ledger_data_key = "ledger.json"

pub record Options : Type 0 where
  pub namespace : String
  pub secret_name : String
  pub limit_bytes : Int64

abbrev pub enabled : Options → Bool
enabled o = lt64 0 o.limit_bytes

unfoldable pub normalize : Options → Options
normalize o =
    let name = trim_space o.secret_name in
    record {
      namespace = trim_space o.namespace;
      secret_name = if is_empty name then default_secret_name else name;
      limit_bytes = o.limit_bytes;
    }

unfoldable pub validate : Options → Option String
unfolding normalize
validate given =
    let o = normalize given in
    if not (enabled o)
    then none
    else if is_empty o.namespace
    then some "storage accounting namespace must not be empty"
    else if is_empty o.secret_name
    then some "storage accounting secret name must not be empty"
    else none

-- The options of the store that `New` makes.
unfoldable pub new_store : Options → Result Options
unfolding normalize validate
new_store given = elim (validate (normalize given)) [ some e ↦ err e | none ↦ ok (normalize given) ]

-- What the store reads and writes of a secret. The version is the server's.
pub record LedgerSecret (V R : Type 0) : Type 0 where
  pub name : String
  pub namespace : String
  pub labels : List (String × String)
  pub secret_type : String
  pub resource_version : V
  pub data_fields : List (String × R)

pub data Lookup (V R : Type 0) : Type 0 where
  found : LedgerSecret V R → Lookup V R
  missing : Lookup V R
  lookup_failed : String → Lookup V R

pub data WriteError : Type 0 where
  already_exists conflicting : WriteError
  write_failed : String → WriteError

-- The API server, as to the secret under one namespace and name. A secret that is created has
-- no version yet.
pub record Server (S V R : Type 0) : Type 0 where
  pub unset : V
  pub get : S → Lookup V R
  pub create : S → LedgerSecret V R → S × Option WriteError
  pub update : S → LedgerSecret V R → S × Option WriteError

pub record Codec (R : Type 0) : Type 0 where
  pub marshal : Ledger → R
  pub is_blank : R → Bool
  pub unmarshal : R → Result Ledger

pub data StoreError : Type 0 where
  refused : LedgerError → StoreError
  unreadable : String → StoreError
  unwritten : WriteError → StoreError

abbrev pub admitted : Ledger × Option LedgerError → Ledger ⊎ LedgerError
admitted (l, none) = inl l
admitted (l, some e) = inr e

-- The function on the ledger that each method of the store passes to `update`.
unfoldable pub mutate : Int64 → Call → Ledger → Ledger ⊎ LedgerError
mutate limit (reserves r now) l = admitted (reserve l limit r now)
mutate limit (releases id) l = inl (release_reservation l id)
mutate limit (commits ids a now) l =
    admitted (commit_published_replacing_reservations l limit ids a now)
mutate limit (unpublishes id) l = inl (release_published l id)

-- The function that `Ensure` passes leaves the ledger as it is, as the release of a blank id does;
-- `CommitPublished` is the commit without reservations to replace.
abbrev pub ensures : Call
ensures = releases ""

abbrev pub standard_labels : List (String × String)
standard_labels =
    ("app.kubernetes.io/name", app_name)
    ∷ ("app.kubernetes.io/component", "storage-accounting")
    ∷ []

module _ {S V R : Type 0} (server : Server S V R) (codec : Codec R) where
  abbrev pub empty_secret : Options → LedgerSecret V R
  empty_secret o = record {
    name = o.secret_name;
    namespace = o.namespace;
    labels = standard_labels;
    secret_type = "Opaque";
    resource_version = server.unset;
    data_fields = [];
  }

  abbrev pub with_ledger : LedgerSecret V R → Ledger → LedgerSecret V R
  with_ledger x l = record x {
    labels = standard_labels;
    secret_type = "Opaque";
    data_fields = insert ledger_data_key (codec.marshal l) x.data_fields;
  }

  abbrev ledger_of_raw : Option R → Result Ledger
  ledger_of_raw none = ok empty
  ledger_of_raw (some raw) = if codec.is_blank raw then ok empty else codec.unmarshal raw

  -- The ledger in a secret's data.
  unfoldable pub ledger_in : List (String × R) → Result Ledger
  ledger_in m = ledger_of_raw (lookup ledger_data_key m)

  abbrev pub with_secret :
      LedgerSecret V R → Result Ledger → Result (Ledger × Option (LedgerSecret V R))
  with_secret x (err e) = err e
  with_secret x (ok l) = ok (l, some x)

  unfoldable pub read_ledger : Lookup V R → Result (Ledger × Option (LedgerSecret V R))
  unfolding ledger_in
  read_ledger missing = ok (empty, none)
  read_ledger (lookup_failed e) = err e
  read_ledger (found x) = with_secret x (ledger_in x.data_fields)

  unfoldable pub load : S → Result (Ledger × Option (LedgerSecret V R))
  unfolding read_ledger
  load s = read_ledger (server.get s)

  abbrev pub conflict_of : Option WriteError → Option StoreError
  conflict_of none = none
  conflict_of (some already_exists) = some (unwritten conflicting)
  conflict_of (some conflicting) = some (unwritten conflicting)
  conflict_of (some (write_failed e)) = some (unwritten (write_failed e))

  abbrev pub error_of : Option WriteError → Option StoreError
  error_of none = none
  error_of (some e) = some (unwritten e)

  unfoldable pub save : Options → S → Ledger → Option (LedgerSecret V R) → S × Option StoreError
  save o t l none =
      let (after, e) = server.create t (with_ledger (empty_secret o) l) in (after, conflict_of e)
  save o t l (some x) = let (after, e) = server.update t (with_ledger x l) in (after, error_of e)

  unfoldable pub save_admitted :
      Options → S → Ledger ⊎ LedgerError → Option (LedgerSecret V R) → S × Option StoreError
  unfolding save
  save_admitted o t (inr e) x = (t, some (refused e))
  save_admitted o t (inl l) x = save o t l x

  unfoldable pub mutate_loaded :
      Options → Call → Result (Ledger × Option (LedgerSecret V R)) → S → S × Option StoreError
  unfolding mutate save_admitted
  mutate_loaded o c (err e) t = (t, some (unreadable e))
  mutate_loaded o c (ok (l, x)) t = save_admitted o t (mutate o.limit_bytes c l) x

  -- One attempt at a call: it reads at the state `s` and writes at the state `t`.
  unfoldable pub attempt : Options → Call → S → S → S × Option StoreError
  unfolding load mutate_loaded
  attempt o c s t = if enabled o then mutate_loaded o c (load s) t else (t, none)

  abbrev pub zero_usage : Usage
  zero_usage = record {
    capacity_known = false;
    limit_bytes = 0;
    used_bytes = 0;
    reserved_bytes = 0;
    available_bytes = 0;
  }

  -- `Usage`.
  unfoldable pub read_usage : Options → S → Result Usage
  unfolding load
  read_usage o s =
      if enabled o
      then elim (load s) [ err e ↦ err e | ok (l, x) ↦ ok (usage l o.limit_bytes) ]
      else ok zero_usage
