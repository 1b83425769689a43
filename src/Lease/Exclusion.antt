-- ===== src/Lease/Exclusion.antt =====
-- One holder at a time: what an acquired lease keeps the other runners from.
use ai_models.Prelude.{
  ℕ, ◌+◌, ◌*◌, ◌≡◌, ◌≢◌, ◌<◌, ◌∙◌, sym, refl, subst, String, true, false, not, ◌&&◌, ltb, List, [],
  ◌∷◌, some, All, arith, inl, inr, Bool-cases,
}
use ai_models.Prelude.Text.{is_empty, trim_space, trim_space_idem, str_eq}
use ai_models.Publication.Handle.{ok}
use ai_models.Lease.{
  Lease, Runner, Read, Write, Attempt, found, not_found, get_failed, LeaseClient, written, rejected,
  write_failed, acquired, expired, duration_seconds, second, default_executor_lease_duration,
  new_lease, updated_lease, held_by_other, write_lease, run, new_executor_lease_runner,
}

-- The time for which a runner takes the lease.
abbrev pub term : Runner → ℕ
term r = duration_seconds r.duration default_executor_lease_duration * second

-- The lease is one that the runner wrote at that time.
pub record Written (r : Runner) (now : ℕ) (l : Lease) : Type 0 where
  pub held : l.holder_identity ≡ some r.identity
  pub renewed : l.renew_time ≡ some now
  pub lasts :
      l.lease_duration_seconds ≡ some (duration_seconds r.duration default_executor_lease_duration)

new_lease-Written : (r : Runner) (now : ℕ) → Written r now (new_lease r now)
unfolding new_lease
new_lease-Written r now = record { held = refl; renewed = refl; lasts = refl }

updated_lease-Written : (r : Runner) (now : ℕ) (l : Lease) → Written r now (updated_lease r now l)
unfolding updated_lease
updated_lease-Written r now l = record { held = refl; renewed = refl; lasts = refl }

-- A runner whose identity is trimmed, and not empty, as the constructor leaves it.
abbrev pub IsNamed : Runner → Type 0
IsNamed r = (trim_space r.identity ≡ r.identity) × (is_empty r.identity ≡ false)

-- Within the term, the lease is held by another for every other runner.
Written-held_by_other :
    (r q : Runner) (now later : ℕ) (l : Lease)
    → IsNamed r
    → Written r now l
    → str_eq r.identity q.identity ≡ false
    → later < now + term r
    → held_by_other q later l ≡ true
unfolding held_by_other expired duration_seconds
Written-held_by_other r q now later l n w other before =
    rw (w.held, w.renewed, w.lasts, n.0, n.1, other) (ground arith)

acquired-true : (w : Write) (failure : String) → acquired w failure ≡ ok true → w ≡ written
acquired-true written failure h = refl
acquired-true rejected failure h = absurd (cc)
acquired-true write_failed failure h = absurd (cc)

-- A lease that a runner with a trimmed and not empty identity acquires over the one it read keeps
-- another identity out exactly until its term ends, and never the runner itself.
pub updated_lease-held_by_other :
    (r q : Runner) (now later : ℕ) (l : Lease)
    → IsNamed r
    → held_by_other q later (updated_lease r now l)
      ≡ (not (str_eq r.identity q.identity) && ltb later (now + term r))
unfolding held_by_other expired duration_seconds
updated_lease-held_by_other r q now later l n =
    let w = updated_lease-Written r now l in
    rw (w.held, w.renewed, w.lasts, n.0, n.1) (ground arith)

-- The attempt is another runner's, and its clock is before the time.
abbrev pub IsOther : Runner → ℕ → Attempt → Type 0
IsOther r until a = (str_eq r.identity a.runner.identity ≡ false) × (a.now < until)

module _ {S : Type 0} (client : LeaseClient S) where
  open client use {
    stored, create, update, create-stored, create-written, update-stored, update-written,
  }

  -- An attempt that returns true has written its lease.
  pub write_lease-Written :
      (r : Runner) (now : ℕ) (read : Read) (s : S)
      → (write_lease client r now read s).1 ≡ ok true
      → (l : Lease) × (stored (write_lease client r now read s).0 ≡ some l) × Written r now l
  unfolding write_lease
  write_lease-Written r now get_failed s h = absurd (cc)
  write_lease-Written r now not_found s h = (
    new_lease r now,
    (create-written s (new_lease r now) (acquired-true _ _ h)).1,
    new_lease-Written r now,
  )
  write_lease-Written r now (found l) s h = elim (Bool-cases (held_by_other r now l)) [
    | inl other ↦ absurd (ground arith)
    | inr free ↦ (
      updated_lease r now l,
      rw free (update-written s l (updated_lease r now l) (ground arith)).1,
      updated_lease-Written r now l,
    )
  ]

  -- Within the term of a written lease, another runner's attempt leaves it, and does not return true.
  write_lease_excluded :
      (r : Runner) (now : ℕ) (l : Lease) (a : Attempt) (s : S)
      → IsNamed r
      → Written r now l
      → stored s ≡ some l
      → IsOther r (now + term r) a
      → (stored (write_lease client a.runner a.now a.read s).0 ≡ some l)
        × ((write_lease client a.runner a.now a.read s).1 ≢ ok true)
  unfolding write_lease
  write_lease_excluded r now l a s n w here o = go a.read
    where
      taken : (m : Lease) → stored s ≡ some m → held_by_other a.runner a.now m ≡ false → ⊥
      taken m there free =
          let same : l ≡ m = cc in
          let held : held_by_other a.runner a.now l ≡ true =
            Written-held_by_other r a.runner now a.now l n w o.0 o.1 in
          let held_m : held_by_other a.runner a.now m ≡ true =
            subst (λ x. held_by_other a.runner a.now x ≡ true) same held in
          cc

      go :
          (read : Read)
          → (stored (write_lease client a.runner a.now read s).0 ≡ some l)
            × ((write_lease client a.runner a.now read s).1 ≢ ok true)
      go get_failed = (here, λ e. cc)
      go not_found = (
        elim (create-stored s (new_lease a.runner a.now)) [
          | inl same ↦ same ∙ here
          | inr (empty, next) ↦ absurd (cc)
        ],
        λ e.
            let (empty, next) = create-written s (new_lease a.runner a.now) (acquired-true _ _ e) in
            cc,
      )
      go (found m) = elim (Bool-cases (held_by_other a.runner a.now m)) [
        | inl held ↦ rw held (here, λ e. cc)
        | inr free ↦ rw free (
          elim (update-stored s m (updated_lease a.runner a.now m)) [
            | inl same ↦ same ∙ here
            | inr (there, next) ↦ absurd (taken m there free)
          ],
          λ e.
              taken m (update-written s m (updated_lease a.runner a.now m) (acquired-true _ _ e)).0
                free,
        )
      ]

  run_excluded :
      (r : Runner) (now : ℕ) (l : Lease) (s : S) (attempts : List Attempt)
      → IsNamed r
      → Written r now l
      → stored s ≡ some l
      → All (IsOther r (now + term r)) attempts
      → (stored (run client s attempts).0 ≡ some l)
        × All (λ result. result ≢ ok true) (run client s attempts).1
  unfolding run
  run_excluded r now l s [] n w here o = (here, tt)
  run_excluded r now l s (a ∷ attempts) n w here o =
      let (kept, refused) = write_lease_excluded r now l a s n w here o.0 in
      let (last, rest) =
        run_excluded r now l (write_lease client a.runner a.now a.read s).0 attempts n w kept o.1 in
      (last, (refused, rest))

  -- Once a runner whose identity is trimmed and not empty has acquired the lease, no call of a runner
  -- with another identity acquires it, whatever it has read, in any sequence of such calls whose clocks
  -- are before the end of the term, and the lease stays as it was written.
  pub write_lease_excludes :
      (r : Runner) (now : ℕ) (read : Read) (s : S) (attempts : List Attempt)
      → IsNamed r
      → (write_lease client r now read s).1 ≡ ok true
      → All (IsOther r (now + term r)) attempts
      → (stored (run client (write_lease client r now read s).0 attempts).0
          ≡ stored (write_lease client r now read s).0)
        × All
            (λ result. result ≢ ok true)
            (run client (write_lease client r now read s).0 attempts).1
  write_lease_excludes r now read s attempts n acquires o =
      let (l, here, w) = write_lease-Written r now read s acquires in
      let (last, refused) =
        run_excluded r now l (write_lease client r now read s).0 attempts n w here o in
      (last ∙ sym here, refused)

-- The runner that the constructor returns has an identity that is trimmed and not empty, whatever space
-- the given one has at its ends.
pub new_executor_lease_runner-IsNamed :
    (namespace name identity : String) (lease_duration : ℕ) (r : Runner)
    → new_executor_lease_runner namespace name identity lease_duration ≡ ok r
    → IsNamed r
unfolding new_executor_lease_runner
new_executor_lease_runner-IsNamed namespace name identity lease_duration r h =
    ground (arith, trim_space_idem identity)
