-- ===== src/UploadSession/Client.antt =====
-- The client's update: `Client.update` and `get` of
-- images/controller/internal/adapters/k8s/uploadsessionstate/client.go, which tries again at a conflict for
-- as long as there is one. Each round is what the server answered to its read and to its write.
use ai_models.Prelude.{
  ◌≡◌, ◌⊎◌, refl, String, List, [], ◌∷◌, ◌++◌, Option, none, some, if◌then◌else◌, All, inl, inr,
  Bool-cases,
}
use ai_models.Prelude.Text.{is_empty, trim_space}
use ai_models.Publication.Handle.{Result, ok, err}
use ai_models.Requests.{Secret}
use ai_models.Requests.Schedule.{Lookup, found, missing, lookup_failed}
use ai_models.UploadSession.{Codec, Session}
use ai_models.UploadSession.Read.{session_from_secret}
use ai_models.UploadSession.Write.{Entries}
use ai_models.UploadSession.Automaton.{Op, apply}

pub data Answer : Type 0 where
  accepted conflict : Answer
  rejected : String → Answer

pub record Round : Type 0 where
  pub read_answer : Lookup
  pub write_answer : Answer

abbrev pub with_entries : Secret → Entries → Secret
with_entries s m = record s { data_fields = m }

-- What a round ends with: a conflict leads to the next round.
pub data Outcome : Type 0 where
  again : Outcome
  refused : String → Outcome
  stored : Secret → Outcome

abbrev pub after_write : Answer → Secret → Outcome
after_write accepted s = stored s
after_write conflict s = again
after_write (rejected e) s = refused e

abbrev pub write_back : Secret → Result Entries → Answer → Outcome
write_back s (err e) answer = refused e
write_back s (ok m) answer = after_write answer (with_entries s m)

abbrev pub next_round : Outcome → Outcome → Outcome
next_round again later = later
next_round (refused e) later = refused e
next_round (stored s) later = stored s

next_round-stored :
    (o later : Outcome) (s : Secret)
    → next_round o later ≡ stored s
    → (o ≡ stored s) ⊎ ((o ≡ again) × (later ≡ stored s))
next_round-stored again later s h = inr (refl, h)
next_round-stored (refused e) later s h = absurd (cc)
next_round-stored (stored t) later s h = inl h

module _ (codec : Codec) where
  unfoldable pub one_round : Op → Lookup → Answer → Outcome
  one_round op (lookup_failed e) answer = refused e
  one_round op missing answer = refused "upload session secret not found"
  one_round op (found s) answer = write_back s (apply codec op s.data_fields) answer

  -- The rounds, of which the source takes as many as there are; `again` where it is still at it.
  unfoldable pub rounds : Op → List Round → Outcome
  unfolding one_round
  rounds op [] = again
  rounds op (r ∷ rest) =
      let later = rounds op rest in next_round (one_round op r.read_answer r.write_answer) later

  -- `Client.update`; a name that is blank is refused by `get`.
  unfoldable pub update : String → Op → List Round → Outcome
  unfolding rounds
  update name op answers =
      if is_empty (trim_space name)
      then refused "upload session state secret name must not be empty"
      else rounds op answers

  abbrev pub loaded : Lookup → Result (Option Session)
  loaded (lookup_failed e) = err e
  loaded missing = ok none
  loaded (found s) = elim (session_from_secret codec (some s)) [
    | err e ↦ err e
    | ok v ↦ ok (some v)
  ]

  -- `Client.Load`.
  unfoldable pub load : String → Lookup → Result (Option Session)
  load name answer =
      if is_empty (trim_space name)
      then err "upload session state secret name must not be empty"
      else loaded answer

  -- A round that met a conflict.
  abbrev pub IsConflict : Op → Round → Type 0
  IsConflict op r = one_round op r.read_answer r.write_answer ≡ again

  -- The stored secret is the write's result on what the same round read.
  abbrev pub IsFresh : Op → Secret → Round → Type 0
  IsFresh op s r =
      (old : Secret) × (r.read_answer ≡ found old)
      × ((m : Entries) × (apply codec op old.data_fields ≡ ok m)
          × (s ≡ with_entries old m)
          × (r.write_answer ≡ accepted))

  made_of :
      (op : Op) (old : Secret) (r : Result Entries) (w : Answer) (s : Secret)
      → apply codec op old.data_fields ≡ r
      → write_back old r w ≡ stored s
      → (m : Entries) × (apply codec op old.data_fields ≡ ok m)
        × (s ≡ with_entries old m)
        × (w ≡ accepted)
  made_of op old (err e) w s a h = absurd (cc)
  made_of op old (ok m) accepted s a h = (m, a, cc, refl)
  made_of op old (ok m) conflict s a h = absurd (cc)
  made_of op old (ok m) (rejected e) s a h = absurd (cc)

  one_round-IsFresh :
      (op : Op) (l : Lookup) (w : Answer) (s : Secret)
      → one_round op l w ≡ stored s
      → IsFresh op s record { read_answer = l; write_answer = w }
  unfolding one_round
  one_round-IsFresh op (lookup_failed e) w s h = absurd (cc)
  one_round-IsFresh op missing w s h = absurd (cc)
  one_round-IsFresh op (found old) w s h =
      (old, refl, made_of op old (apply codec op old.data_fields) w s refl h)

  -- A round after conflicts.
  abbrev pub IsSettled : Op → Secret → List Round → Type 0
  IsSettled op s answers =
      (before : List Round) × ((r : Round) × ((after : List Round) × (answers ≡ before ++ r ∷ after)
          × All (IsConflict op) before
          × IsFresh op s r))

  later_IsSettled :
      (op : Op) (s : Secret) (r : Round) (rest : List Round)
      → IsConflict op r
      → IsSettled op s rest
      → IsSettled op s (r ∷ rest)
  later_IsSettled op s r rest c (before, (last, (after, e, conflicts, fresh))) =
      (r ∷ before, (last, (after, cc, (c, conflicts), fresh)))

  rounds-IsSettled :
      (op : Op) (s : Secret) (answers : List Round)
      → rounds op answers ≡ stored s
      → IsSettled op s answers
  unfolding rounds
  rounds-IsSettled op s [] h = absurd (cc)
  rounds-IsSettled op s (r ∷ rest) h =
      elim (next_round-stored (one_round op r.read_answer r.write_answer) (rounds op rest) s h) [
        | inl here ↦
            ([], (r, (rest, refl, tt, one_round-IsFresh op r.read_answer r.write_answer s here)))
        | inr (met, later) ↦ later_IsSettled op s r rest met (rounds-IsSettled op s rest later)
      ]

  -- A secret that an update stores is its write on the secret that the same round had read, and
  -- all rounds before met a conflict.
  pub update-IsSettled :
      (name : String) (op : Op) (s : Secret) (answers : List Round)
      → update name op answers ≡ stored s
      → IsSettled op s answers
  unfolding update
  update-IsSettled name op s answers = elim (Bool-cases (is_empty (trim_space name))) [
    | inl blank ↦ rw blank (λ h. absurd (cc))
    | inr named ↦ rw named (λ h. rounds-IsSettled op s answers h)
  ]
