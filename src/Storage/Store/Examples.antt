-- ===== src/Storage/Store/Examples.antt =====
-- Two replicas on a server that keeps every content of the secret, whose version is how many there
-- were.
use ai_models.Prelude.{
  ℕ, suc, ◌<◌, ◌≡◌, ◌⊎◌, inl, inr, refl, String, false, Option, none, some, List, [], ◌∷◌, ◌==◌,
  if◌then◌else◌, arith, Bool-cases,
}
use ai_models.Prelude.{length}
use ai_models.Prelude.Text.{trim_space}
use ai_models.Prelude.Assoc.{lookup}
use ai_models.Publication.Handle.{Result, ok, err}
use ai_models.Storage.{Owner, Ledger, reserve, usage, sum_published, sum_reservations}
use ai_models.Storage.Calls.{Call, reserves, run, step, empty, Inv}
use ai_models.Storage.Store.{
  Options, LedgerSecret, Lookup, found, missing, WriteError, already_exists, conflicting, Server,
  Codec, attempt, default_secret_name, unwritten, with_ledger, empty_secret, load, read_ledger,
  mutate, mutate_loaded, save_admitted, save,
}
use ai_models.Storage.Store.Refines.{
  Later, now, created, updated, IsOptimistic, done, tried, Part, Holds, Attempts-IsLedger,
}

abbrev Raw : Type 0
Raw = Option Ledger

abbrev Entries : Type 0
Entries = List (String × Raw)

abbrev read_raw : Raw → Result Ledger
read_raw none = err "no text"
read_raw (some l) = ok l

abbrev codec : Codec Raw
codec = record { marshal = some; is_blank = λ raw. false; unmarshal = read_raw }

abbrev get_from : List Entries → Lookup ℕ Raw
get_from [] = missing
get_from (m ∷ older) = found (record {
  name = default_secret_name;
  namespace = "d8-ai-models";
  labels = [];
  secret_type = "Opaque";
  resource_version = length (m ∷ older);
  data_fields = m;
})

abbrev create_on : List Entries → LedgerSecret ℕ Raw → List Entries × Option WriteError
create_on [] x = (x.data_fields ∷ [], none)
create_on (m ∷ older) x = (m ∷ older, some already_exists)

unfoldable update_on : List Entries → LedgerSecret ℕ Raw → List Entries × Option WriteError
update_on s x =
    if x.resource_version == length s then (x.data_fields ∷ s, none) else (s, some conflicting)

abbrev server : Server (List Entries) ℕ Raw
server = record { unset = 0; get = get_from; create = create_on; update = update_on }

abbrev held : List Entries → Option Entries
held [] = none
held (m ∷ older) = some m

not_longer : (r t : List Entries) → (length r < length t) ⊎ (r ≡ t) → length r < suc (length t)
not_longer r t (inl shorter) = omega arith
not_longer r t (inr same) = let e : length r ≡ length t = rw same refl in omega arith

empty_before : (r : List Entries) → (length r < 0) ⊎ (r ≡ []) → length r < 1
empty_before r h = not_longer r [] h

Later-length : (r t : List Entries) → Later server r t → (length r < length t) ⊎ (r ≡ t)
unfolding update_on
Later-length r t now = inr refl
Later-length r t (created {t = []} later x) = inl (empty_before r (Later-length r [] later))
Later-length r t (created {t = m ∷ older} later x) = Later-length r (m ∷ older) later
Later-length r t (updated {t = s} later x) = elim (Bool-cases (x.resource_version == length s)) [
  | inl current ↦ rw current (inl (not_longer r s (Later-length r s later)))
  | inr stale ↦ rw stale (Later-length r s later)
]

create-held_lem :
    (t : List Entries) (x : LedgerSecret ℕ Raw)
    → (held (create_on t x).0 ≡ held t)
      ⊎ ((held t ≡ none) × (held (create_on t x).0 ≡ some x.data_fields))
create-held_lem [] x = inr (refl, refl)
create-held_lem (m ∷ older) x = inl refl

get-found_lem :
    (s : List Entries) (x : LedgerSecret ℕ Raw)
    → get_from s ≡ found x
    → (held s ≡ some x.data_fields) × (length s ≡ x.resource_version)
get-found_lem [] x h = absurd (cc)
get-found_lem (m ∷ older) x h = (cc, cc)

update-held_lem :
    (r t : List Entries) (x y : LedgerSecret ℕ Raw)
    → Later server r t
    → get_from r ≡ found x
    → y.resource_version ≡ x.resource_version
    → (held (update_on t y).0 ≡ held t)
      ⊎ ((held t ≡ held r) × (held (update_on t y).0 ≡ some y.data_fields))
unfolding update_on
update-held_lem r t x y later got e = elim (Later-length r t later) [
  | inl shorter ↦
      let read_length : length r ≡ x.resource_version = (get-found_lem r x got).1 in
      let stale : (y.resource_version == length t) ≡ false = ground arith in rw stale (inl refl)
  | inr same ↦ elim (Bool-cases (y.resource_version == length t)) [
    | inl current ↦ rw current (inr (rw same refl, refl))
    | inr stale ↦ rw stale (inl refl)
  ]
]

abbrev laws : IsOptimistic server
laws = record {
  held = held;
  get-found = λ s x h. (get-found_lem s x h).0;
  create-held = create-held_lem;
  update-held = update-held_lem;
}

abbrev owner : Owner
owner = record { kind = "Model"; name = "m"; namespace = "ns"; uid = "u" }

abbrev asked : String → ℕ → Call
asked id size = reserves (record { id = id; owner = owner; size_bytes = size; created_at = 0 }) 5

abbrev options : Options
options = record {
  namespace = "d8-ai-models";
  secret_name = default_secret_name;
  limit_bytes = 100;
}

abbrev calls : List Call
calls = asked "a" 60 ∷ asked "b" 30 ∷ asked "b" 30 ∷ []

abbrev first : List Entries
first = (attempt server codec options (asked "a" 60) [] []).0

-- The second replica had read before the first one wrote, which is a conflict, and reads again.
abbrev second : List Entries
second = (attempt server codec options (asked "b" 30) [] first).0

abbrev third : List Entries
third = (attempt server codec options (asked "b" 30) second second).0

stale_attempt :
    (attempt server codec options (asked "b" 30) [] first).1 ≡ some (unwritten conflicting)
unfolding attempt load read_ledger mutate_loaded mutate save_admitted save reserve usage trim_space
    sum_published sum_reservations lookup
stale_attempt = refl

abbrev first_write : LedgerSecret ℕ Raw
first_write =
    with_ledger server codec (empty_secret server codec options) (step 100 empty (asked "a" 60))

first-later : Later server [] first
unfolding step attempt load read_ledger mutate_loaded mutate save_admitted save reserve usage
    trim_space sum_published sum_reservations lookup
first-later = created now first_write

Attempts-IsLedger_example :
    (ds : List Call) × (Part ds calls
      × Holds server codec laws (λ l. (refl, refl)) third (run 100 empty ds)
      × Inv 100 (run 100 empty ds))
Attempts-IsLedger_example =
    Attempts-IsLedger server codec laws (λ l. (refl, refl)) options [] third calls (omega arith)
      (omega arith) (omega arith, (omega arith, (omega arith, tt))) refl
      (tried now (tried first-later (tried now done)))
