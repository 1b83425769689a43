-- ===== src/Requests/Examples/Server.antt =====
-- A server for at most one secret, and a format of times.
use ai_models.Prelude.{
  ◌≡◌, ◌∙◌, ◌⊎◌, inl, inr, refl, sym, ap, subst, String, Bool, true, false, ◌&&◌, List, [], ◌∷◌,
  Option, none, some, if◌then◌else◌, In, arith, Bool-cases,
}
use text.Mathlib.TextEquality.{eq_iff}
use ai_models.Prelude.Text.{str_eq, str_eq_self}
use ai_models.Publication.Handle.{Result, ok}
use ai_models.Prelude.Marks.{marks, count_marks, count_marks-marks, marks_filled}
use ai_models.Requests.{Secret, TimeText}
use ai_models.Requests.Cycle.{SecretClient, Write, written, not_found, write_failed, NamesDistinct}
use ai_models.Requests.Schedule.{Lookup, found, missing, ScheduleClient}

abbrev same_entries : List (String × String) → List (String × String) → Bool
same_entries [] [] = true
same_entries ((k, v) ∷ m) ((j, w) ∷ n) = str_eq k j && str_eq v w && same_entries m n
same_entries _ _ = false

abbrev same_secret : Secret → Secret → Bool
same_secret a b =
    str_eq a.name b.name
    && same_entries a.labels b.labels
    && same_entries a.annotations b.annotations
    && same_entries a.data_fields b.data_fields

same_entries→eq : (m n : List (String × String)) → same_entries m n ≡ true → m ≡ n
same_entries→eq [] [] h = refl
same_entries→eq [] (x ∷ n) h = absurd (cc)
same_entries→eq (x ∷ m) [] h = absurd (cc)
same_entries→eq ((k, v) ∷ m) ((j, w) ∷ n) h =
    ground (arith, eq_iff k j, eq_iff v w, same_entries→eq m n)

same_secret→eq : (a b : Secret) → same_secret a b ≡ true → a ≡ b
same_secret→eq a b h = ground (
  arith,
  eq_iff a.name b.name,
  same_entries→eq a.labels b.labels,
  same_entries→eq a.annotations b.annotations,
  same_entries→eq a.data_fields b.data_fields,
)

abbrev named : Option Secret → String → Option Secret
named none n = none
named (some x) n = if str_eq x.name n then some x else none

abbrev listed : Option Secret → Result (List Secret)
listed none = ok []
listed (some x) = ok (x ∷ [])

abbrev updated_on : Option Secret → Secret → Secret → Option Secret × Write
updated_on none old new = (none, not_found)
updated_on (some x) old new =
    if same_secret x old && str_eq old.name new.name
    then (some new, written)
    else (some x, write_failed "conflict")

abbrev deleted_on : Option Secret → String → Option Secret × Write
deleted_on none n = (none, not_found)
deleted_on (some x) n = if str_eq x.name n then (none, written) else (some x, not_found)

pub listed-named :
    (s : Option Secret) (xs : List Secret) (x : Secret)
    → listed s ≡ ok xs
    → In x xs
    → named s x.name ≡ some x
listed-named none [] x l i = elim i [ ]
listed-named none (y ∷ ys) x l i = absurd (cc)
listed-named (some y) [] x l i = elim i [ ]
listed-named (some y) (z ∷ []) x l i = elim i [
  | inl e ↦ let same : y ≡ x = cc in rw same (rw (str_eq_self x.name))
  | inr nowhere ↦ elim nowhere [ ]
]
listed-named (some y) (z ∷ w ∷ zs) x l i = absurd (ground arith)

pub listed-NamesDistinct :
    (s : Option Secret) (xs : List Secret) → listed s ≡ ok xs → NamesDistinct xs
listed-NamesDistinct s [] l = tt
listed-NamesDistinct s (x ∷ []) l = (tt, tt)
listed-NamesDistinct none (x ∷ y ∷ xs) l = absurd (ground arith)
listed-NamesDistinct (some z) (x ∷ y ∷ xs) l = absurd (ground arith)

-- A secret that is replaced by one of its name.
replaced :
    (x old new : Secret) (n : String)
    → (same_secret x old ≡ true) × (str_eq old.name new.name ≡ true)
    → (named (some new) n ≡ named (some x) n)
      ⊎ ((named (some x) n ≡ some old) × (named (some new) n ≡ some new))
replaced x old new n h =
    let e = same_secret→eq x old h.0 in
    let name = ap (λ (r : Secret). r.name) e ∙ (eq_iff old.name new.name).0 h.1 in
    elim (Bool-cases (str_eq new.name n)) [
      | inr other ↦ inl (rw (name, other))
      | inl here ↦
          let named_so = subst (λ k. str_eq k n ≡ true) (sym name) here in
          inr (rw named_so (ap some e), rw here)
    ]

same_both : (a b : Bool) → (a && b) ≡ true → (a ≡ true) × (b ≡ true)
same_both true true h = (refl, refl)
same_both true false h = absurd (cc)
same_both false b h = absurd (cc)

pub updated_on-named :
    (s : Option Secret) (old new : Secret) (n : String)
    → (named (updated_on s old new).0 n ≡ named s n)
      ⊎ ((named s n ≡ some old) × (named (updated_on s old new).0 n ≡ some new))
updated_on-named none old new n = inl refl
updated_on-named (some x) old new n =
    elim (Bool-cases (same_secret x old && str_eq old.name new.name)) [
      | inr other ↦ rw other (inl refl)
      | inl same ↦ rw same (replaced x old new n (same_both _ _ same))
    ]

pub deleted_on-named :
    (s : Option Secret) (name n : String)
    → (named (deleted_on s name).0 n ≡ named s n)
      ⊎ ((n ≡ name) × (named (deleted_on s name).0 n ≡ none))
deleted_on-named none name n = inl refl
deleted_on-named (some x) name n = ground (arith, eq_iff x.name name, eq_iff x.name n)

abbrev pub server : SecretClient (Option Secret)
server = record {
  stored = named;
  list = listed;
  update = updated_on;
  delete_by_name = deleted_on;
  list-stored = listed-named;
  list-NamesDistinct = listed-NamesDistinct;
  update-stored = updated_on-named;
  delete_by_name-stored = deleted_on-named;
}

abbrev fetched : Option Secret → Lookup
fetched none = missing
fetched (some x) = found x

abbrev created_on : Option Secret → Secret → Option Secret × Option String
created_on none x = (some x, none)
created_on (some y) x = (some y, some "already exists")

pub created_on-named :
    (s : Option Secret) (x : Secret) (n : String)
    → (named (created_on s x).0 n ≡ named s n)
      ⊎ ((n ≡ x.name) × (named s n ≡ none) × (named (created_on s x).0 n ≡ some x))
created_on-named none x n = ground (arith, eq_iff x.name n)
created_on-named (some y) x n = inl refl

pub created_on-ok :
    (s : Option Secret) (x : Secret)
    → (created_on s x).1 ≡ none
    → named (created_on s x).0 x.name ≡ some x
created_on-ok none x h = rw (str_eq_self x.name)
created_on-ok (some y) x h = absurd (cc)

pub updated_on-ok :
    (s : Option Secret) (old new : Secret)
    → (updated_on s old new).1 ≡ written
    → named (updated_on s old new).0 new.name ≡ some new
updated_on-ok none old new h = absurd (cc)
updated_on-ok (some x) old new h =
    elim (Bool-cases (same_secret x old && str_eq old.name new.name)) [
      | inl same ↦ rw (same, str_eq_self new.name)
      | inr other ↦ let no = rw other at h in absurd (cc)
    ]

pub named-name : (s : Option Secret) (n : String) (x : Secret) → named s n ≡ some x → x.name ≡ n
named-name none n x h = absurd (cc)
named-name (some y) n x h = ground (arith, eq_iff y.name n)

pub fetched-named :
    (s : Option Secret) (n : String) (x : Secret)
    → fetched (named s n) ≡ found x
    → named s n ≡ some x
fetched-named none n x h = absurd (cc)
fetched-named (some y) n x h = ground arith

abbrev pub schedule_server : ScheduleClient server
schedule_server = record {
  get = λ s n. fetched (named s n);
  create = created_on;
  get-stored = fetched-named;
  create-stored = created_on-named;
  created = created_on-ok;
  updated = updated_on-ok;
  stored_name = named-name;
}

abbrev pub marked_times : TimeText
marked_times = record {
  parse = count_marks;
  format = marks;
  parse-format = count_marks-marks;
  format_filled = marks_filled;
}
