-- ===== src/Requests/Cycle/Life.antt =====
-- The life of a request by its state alone, and what the loops of a cycle do to it.
use ai_models.Prelude.{
  ℕ, ◌<◌, ◌≡◌, ◌≢◌, ◌∙◌, sym, subst, ap, inl, inr, String, true, false, List, [], ◌∷◌, Option, none,
  some, All, arith, Bool-cases, ltb,
}
use ai_models.Prelude.Int64.{Int64}
use ai_models.Publication.Handle.{Result, ok, err}
use ai_models.Requests.{
  Secret, TimeText, RequestState, ignored, queued, active, completed, classify_request, is_state,
  request_secrets_by_state, completed_request_expired,
}
use ai_models.Requests.Cycle.{
  SecretClient, continued, with_kept, Write, written, not_found, write_failed, NamesDistinct,
  Surroundings, Gate, no_gate, opened, quorum_not_ready, gate_failed, update_each,
  prune_expired_completed_requests, garbage_collection_deferral,
}

-- Where the gate lets the cleanup run.
abbrev pub IsPassed : Gate → Type 0
IsPassed no_gate = Unit {0}
IsPassed opened = Unit {0}
IsPassed quorum_not_ready = ⊥
IsPassed (gate_failed e) = ⊥

pub not_busy : (pods : ℕ) → ltb 0 pods ≡ false → pods ≡ 0
not_busy pods h = ground arith

pub is_busy : (pods : ℕ) → ltb 0 pods ≡ true → 0 < pods
is_busy pods h = ground arith

-- What a cycle in these surroundings may do to a request: arm a queued one where no publication pod is
-- active, requeue an active one where some is, complete an active one where nothing failed or stood in the
-- way, and remove a completed one.
pub data Move (env : Surroundings) : Option RequestState → Option RequestState → Type 0 where
  arms : garbage_collection_deferral env.pods ≡ ok 0 → Move env (some queued) (some active)
  requeues :
      (k : ℕ)
      → 0 < k
      → garbage_collection_deferral env.pods ≡ ok k
      → Move env (some active) (some queued)
  completes :
      env.policy_failure ≡ none
      → garbage_collection_deferral env.pods ≡ ok 0
      → env.cleanup_failure ≡ none
      → IsPassed env.gate
      → Move env (some active) (some completed)
  prunes : Move env (some completed) none

pub data Life (env : Surroundings) (a : Option RequestState) : Option RequestState → Type 0 where
  stays : Life env a a
  goes : {b c : Option RequestState} → Life env a b → Move env b c → Life env a c

abbrev pub state_of : Option Secret → Option RequestState
state_of none = none
state_of (some s) = some (classify_request s)

module _ {env : Surroundings} where
  Life-trans : {a b c : Option RequestState} → Life env a b → Life env b c → Life env a c
  Life-trans l stays = l
  Life-trans l (goes k m) = goes (Life-trans l k) m

  Life-eq : {a b : Option RequestState} → a ≡ b → Life env a b
  Life-eq {a} e = subst (Life env a) e stays

  Life-move :
      {a b : Option RequestState} (x y : Option Secret)
      → state_of x ≡ a
      → state_of y ≡ b
      → Move env a b
      → Life env (state_of x) (state_of y)
  Life-move {a} {b} x y e f m =
      subst (λ c. Life env c (state_of y)) (sym e) (subst (Life env a) (sym f) (goes stays m))

is_state-eq : (a b : RequestState) → is_state a b ≡ true → a ≡ b
is_state-eq ignored b h = ground arith
is_state-eq queued b h = ground arith
is_state-eq active b h = ground arith
is_state-eq completed b h = ground arith

abbrev pub InState : RequestState → Secret → Type 0
InState a s = classify_request s ≡ a

module _ {S : Type 0} (client : SecretClient S) (times : TimeText) (env : Surroundings) where
  open client use {
    stored, list, update, delete_by_name, list-stored, list-NamesDistinct, update-stored,
    delete_by_name-stored,
  }

  -- One state leads to the other, whatever the name.
  abbrev pub Lives : S → S → Type 0
  Lives s t = (n : String) → Life env (state_of (stored s n)) (state_of (stored t n))

  pub Lives-trans : (s t u : S) → Lives s t → Lives t u → Lives s u
  Lives-trans s t u l k n = Life-trans (l n) (k n)

  update-Lives :
      (s : S) (x y : Secret) (a b : RequestState)
      → Move env (some a) (some b)
      → classify_request x ≡ a
      → classify_request y ≡ b
      → Lives s (update s x y).0
  update-Lives s x y a b m e f n = elim (update-stored s x y n) [
    | inl same ↦ Life-eq (ap state_of (sym same))
    | inr (old, new) ↦
        Life-move (stored s n) (stored (update s x y).0 n) (ap state_of old ∙ ap some e)
          (ap state_of new ∙ ap some f) m
  ]

  continued-Life :
      {A : Type 0} (s after : S) (failed : String → A) (rest : S × A) (w : Write) (n : String)
      → Life env (state_of (stored s n)) (state_of (stored after n))
      → Life env (state_of (stored s n)) (state_of (stored rest.0 n))
      → Life env
          (state_of (stored s n))
          (state_of (stored (continued (λ e. (after, failed e)) rest w).0 n))
  continued-Life s after failed rest written n one all = all
  continued-Life s after failed rest not_found n one all = all
  continued-Life s after failed rest (write_failed e) n one all = one

  -- A loop of writes that each make one move.
  pub update_each-Lives :
      (f : Secret → Secret) (a b : RequestState)
      → Move env (some a) (some b)
      → ((x : Secret) → classify_request x ≡ a → classify_request (f x) ≡ b)
      → (s : S) (xs : List Secret) → All (InState a) xs
      → Lives s (update_each client times f s xs).0
  unfolding update_each
  update_each-Lives f a b m to s [] h = λ n. stays
  update_each-Lives f a b m to s (x ∷ xs) h = λ n.
      let one = update-Lives s x (f x) a b m h.0 (to x h.0) n in
      let rest = update_each-Lives f a b m to (update s x (f x)).0 xs h.1 n in
      continued-Life s (update s x (f x)).0 some _ (update s x (f x)).1 n one (Life-trans one rest)

  with_kept-Life :
      (s : S) (x : Secret) (p : S × Result (List Secret)) (n : String)
      → Life env (state_of (stored s n)) (state_of (stored p.0 n))
      → Life env (state_of (stored s n)) (state_of (stored (with_kept x p).0 n))
  with_kept-Life s x (t, ok ys) n l = l
  with_kept-Life s x (t, err e) n l = l

  -- The listed secrets are stored.
  abbrev pub Listed : S → List Secret → Type 0
  Listed s xs = All (λ (x : Secret). stored s x.name ≡ some x) xs

  -- A deletion of one name leaves the others.
  delete_by_name-Listed :
      (s : S) (name : String) (xs : List Secret)
      → All (λ (t : Secret). t.name ≢ name) xs
      → Listed s xs
      → Listed (delete_by_name s name).0 xs
  delete_by_name-Listed s name [] other l = tt
  delete_by_name-Listed s name (x ∷ xs) other l = (
    elim (delete_by_name-stored s name x.name) [
      | inl same ↦ same ∙ l.0
      | inr (e, gone) ↦ absurd (other.0 e)
    ],
    delete_by_name-Listed s name xs other.1 l.1,
  )

  delete_by_name-Lives :
      (s : S) (x : Secret)
      → stored s x.name ≡ some x
      → classify_request x ≡ completed
      → Lives s (delete_by_name s x.name).0
  delete_by_name-Lives s x l e n = elim (delete_by_name-stored s x.name n) [
    | inl same ↦ Life-eq (ap state_of (sym same))
    | inr (named, gone) ↦
        Life-move (stored s n) (stored (delete_by_name s x.name).0 n)
          (ap (λ k. state_of (stored s k)) named ∙ ap state_of l ∙ ap some e) (ap state_of gone)
          prunes
  ]

  expired-completed :
      (x : Secret) (now : ℕ) (ttl : Int64)
      → completed_request_expired times x now ttl ≡ true
      → classify_request x ≡ completed
  unfolding completed_request_expired
  expired-completed x now ttl h = is_state-eq (classify_request x) completed (ground arith)

  pub prune-Lives :
      (s : S) (xs : List Secret) (now : ℕ) (ttl : Int64)
      → Listed s xs
      → NamesDistinct xs
      → Lives s (prune_expired_completed_requests client times s xs now ttl).0
  unfolding prune_expired_completed_requests
  prune-Lives s [] now ttl l d = λ n. stays
  prune-Lives s (x ∷ xs) now ttl l d = λ n.
      let after = (delete_by_name s x.name).0 in
      let kept = prune-Lives s xs now ttl l.1 d.1 n in
      let rest = prune-Lives after xs now ttl (delete_by_name-Listed s x.name xs d.0 l.1) d.1 n in
      elim (Bool-cases (completed_request_expired times x now ttl)) [
        | inr no_longer ↦
            rw no_longer (
              with_kept-Life s x (prune_expired_completed_requests client times s xs now ttl) n
                kept)
        | inl expired ↦
            let one = delete_by_name-Lives s x l.0 (expired-completed x now ttl expired) n in
            rw expired
              (continued-Life s after err _ (delete_by_name s x.name).1 n one (Life-trans one rest))
      ]

  pub request_secrets_by_state-InState :
      (a : RequestState) (xs : List Secret) → All (InState a) (request_secrets_by_state xs a)
  unfolding request_secrets_by_state
  request_secrets_by_state-InState a [] = tt
  request_secrets_by_state-InState a (x ∷ xs) =
      elim (Bool-cases (is_state (classify_request x) a)) [
        | inl yes_state ↦
            rw yes_state (is_state-eq _ a yes_state, request_secrets_by_state-InState a xs)
        | inr no_state ↦ rw no_state (request_secrets_by_state-InState a xs)
      ]
