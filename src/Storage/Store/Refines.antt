-- ===== src/Storage/Store/Refines.antt =====
-- Attempts of several replicas at the ledger in the secret, in any order and with any delay between
-- what they read and what they write.
use ai_models.Prelude.{
  ℕ, ◌<◌, ◌≡◌, ◌⊎◌, inl, inr, refl, sym, subst, String, false, Option, none, some, List, [], ◌∷◌,
  All, Bool-cases,
}
use ai_models.Prelude.Int64.{half}
use ai_models.Prelude.Assoc.{insert, lookup-insert}
use ai_models.Publication.Handle.{Result, ok, err}
use ai_models.Storage.{Ledger, LedgerError, reserve, commit_published_replacing_reservations}
use ai_models.Storage.Calls.{
  Call, reserves, releases, commits, unpublishes, step, run, empty, Fits, Inv, run-Inv,
}
use ai_models.Storage.Store.{
  Options, enabled, LedgerSecret, Lookup, found, missing, lookup_failed, Server, Codec, admitted,
  mutate, empty_secret, with_ledger, ledger_in, with_secret, read_ledger, load, save, save_admitted,
  mutate_loaded, attempt, ledger_data_key,
}

-- What a state becomes by any writes of the secret.
pub data Later {S V R : Type 0} (server : Server S V R) (r : S) : S → Type 0 where
  now : Later server r r
  created :
      {t : S} → Later server r t → (x : LedgerSecret V R) → Later server r (server.create t x).0
  updated :
      {t : S} → Later server r t → (x : LedgerSecret V R) → Later server r (server.update t x).0

-- Optimistic concurrency: a secret is created only where there is none, and an update is made only
-- where the secret is still as it was when the version that the update names was read. A
-- write that fails may be made nevertheless. `held` is the data of the stored secret.
pub record IsOptimistic {S V R : Type 0} (server : Server S V R) : Type 0 where
  pub held : S → Option (List (String × R))
  pub get-found :
      (s : S) (x : LedgerSecret V R) → server.get s ≡ found x → held s ≡ some x.data_fields
  pub create-held :
      (t : S) (x : LedgerSecret V R)
      → (held (server.create t x).0 ≡ held t)
        ⊎ ((held t ≡ none) × (held (server.create t x).0 ≡ some x.data_fields))
  pub update-held :
      (r t : S) (x y : LedgerSecret V R)
      → Later server r t
      → server.get r ≡ found x
      → y.resource_version ≡ x.resource_version
      → (held (server.update t y).0 ≡ held t)
        ⊎ ((held t ≡ held r) × (held (server.update t y).0 ≡ some y.data_fields))

-- A ledger's text is not empty and reads as that ledger.
abbrev pub Reads : {R : Type 0} → Codec R → Type 0
Reads codec =
    (l : Ledger)
    → (codec.is_blank (codec.marshal l) ≡ false) × (codec.unmarshal (codec.marshal l) ≡ ok l)

-- Attempts at calls one after another, each on what was read at its state or any before it.
pub data Attempts {S V R : Type 0} (server : Server S V R) (codec : Codec R) (o : Options)
    : S → List Call → S → Type 0 where
  done : {t : S} → Attempts server codec o t [] t
  tried :
      {c : Call} {cs : List Call} {s t u : S}
      → Later server s t
      → Attempts server codec o (attempt server codec o c s t).0 cs u
      → Attempts server codec o t (c ∷ cs) u

-- Some of the calls, in their order.
pub data Part : List Call → List Call → Type 0 where
  nothing : Part [] []
  taken : (c : Call) {ds cs : List Call} → Part ds cs → Part (c ∷ ds) (c ∷ cs)
  left : (c : Call) {ds cs : List Call} → Part ds cs → Part ds (c ∷ cs)

admitted-inl : (p : Ledger × Option LedgerError) (m : Ledger) → admitted p ≡ inl m → m ≡ p.0
admitted-inl (l, none) m h = cc
admitted-inl (l, some e) m h = absurd (cc)

mutate-step : (limit : ℕ) (c : Call) (l m : Ledger) → mutate limit c l ≡ inl m → m ≡ step limit l c
unfolding mutate step
mutate-step limit (reserves r t) l m h = admitted-inl (reserve l limit r t) m h
mutate-step limit (releases id) l m h = cc
mutate-step limit (commits ids a t) l m h =
    admitted-inl (commit_published_replacing_reservations l limit ids a t) m h
mutate-step limit (unpublishes id) l m h = cc

module _ {S V R : Type 0} (server : Server S V R) (codec : Codec R) (laws : IsOptimistic server)
    (reads : Reads codec) where
  abbrev pub ledger_of : Option (List (String × R)) → Result Ledger
  ledger_of none = ok empty
  ledger_of (some m) = ledger_in server codec m

  -- The ledger that the stored secret holds.
  abbrev pub Holds : S → Ledger → Type 0
  Holds s l = ledger_of (laws.held s) ≡ ok l

  ledger_in-insert :
      (l : Ledger) (m : List (String × R))
      → ledger_in server codec (insert ledger_data_key (codec.marshal l) m) ≡ ok l
  unfolding ledger_in
  ledger_in-insert l m =
      rw (lookup-insert ledger_data_key ledger_data_key (codec.marshal l) m)
        (rw (reads l).0 (reads l).1)

  same_Holds : (s t : S) (l : Ledger) → laws.held s ≡ laws.held t → Holds t l → Holds s l
  same_Holds s t l e h = rw e h

  written_Holds :
      (s : S) (m : Ledger) (x : LedgerSecret V R)
      → laws.held s ≡ some (with_ledger server codec x m).data_fields
      → Holds s m
  written_Holds s m x e = rw e (ledger_in-insert m x.data_fields)

  -- After an attempt the ledger is as it was, or the call was made on it.
  abbrev pub Answered : S → S → Ledger → Call → ℕ → Type 0
  Answered t u l c limit = (Holds u l) ⊎ (Holds u (step limit l c))

  create-Answered :
      (o : Options) (c : Call) (t : S) (l m : Ledger)
      → Holds t l
      → m ≡ step o.limit_bytes empty c
      → Answered t (save server codec o t m none).0 l c o.limit_bytes
  unfolding save
  create-Answered o c t l m h made =
      let x = with_ledger server codec (empty_secret server codec o) m in
      elim (laws.create-held t x) [
        | inl same ↦ inl (same_Holds (server.create t x).0 t l same h)
        | inr (nothing_held, new) ↦
            let e : ok empty ≡ ok l = subst (λ d. ledger_of d ≡ ok l) nothing_held h in
            let same : empty ≡ l = cc in
            inr (
              rw (sym same) (
                rw (sym made)
                  (written_Holds (server.create t x).0 m (empty_secret server codec o) new)))
      ]

  update-Answered :
      (o : Options) (c : Call) (s t : S) (x : LedgerSecret V R) (k l m : Ledger)
      → Later server s t
      → server.get s ≡ found x
      → ledger_in server codec x.data_fields ≡ ok k
      → Holds t l
      → m ≡ step o.limit_bytes k c
      → Answered t (save server codec o t m (some x)).0 l c o.limit_bytes
  unfolding save
  update-Answered o c s t x k l m later got parsed h made =
      let y = with_ledger server codec x m in
      elim (laws.update-held s t x y later got refl) [
        | inl same ↦ inl (same_Holds (server.update t y).0 t l same h)
        | inr (unchanged, new) ↦
            let read_held : laws.held t ≡ some x.data_fields = cc (laws.get-found s x got) in
            let e : ledger_in server codec x.data_fields ≡ ok l =
              subst (λ d. ledger_of d ≡ ok l) read_held h in
            let same : k ≡ l = cc in
            inr (rw (sym same) (rw (sym made) (written_Holds (server.update t y).0 m x new)))
      ]

  save_admitted-Answered :
      (o : Options) (c : Call) (t : S) (l : Ledger) (r : Ledger ⊎ LedgerError)
      (x : Option (LedgerSecret V R))
      → Holds t l
      → ((m : Ledger) → r ≡ inl m → Answered t (save server codec o t m x).0 l c o.limit_bytes)
      → Answered t (save_admitted server codec o t r x).0 l c o.limit_bytes
  unfolding save_admitted
  save_admitted-Answered o c t l (inl m) x h saved = saved m refl
  save_admitted-Answered o c t l (inr e) x h saved = inl h

  found-Answered :
      (o : Options) (c : Call) (s t : S) (x : LedgerSecret V R) (r : Result Ledger) (l : Ledger)
      → Later server s t
      → server.get s ≡ found x
      → ledger_in server codec x.data_fields ≡ r
      → Holds t l
      → Answered t
          (mutate_loaded server codec o c (with_secret server codec x r) t).0
          l
          c
          o.limit_bytes
  unfolding mutate_loaded
  found-Answered o c s t x (err e) l later got parsed h = inl h
  found-Answered o c s t x (ok k) l later got parsed h =
      save_admitted-Answered o c t l (mutate o.limit_bytes c k) (some x) h (λ m e.
        update-Answered o c s t x k l m later got parsed h (mutate-step o.limit_bytes c k m e))

  read-Answered :
      (o : Options) (c : Call) (s t : S) (answer : Lookup V R) (l : Ledger)
      → Later server s t
      → server.get s ≡ answer
      → Holds t l
      → Answered t
          (mutate_loaded server codec o c (read_ledger server codec answer) t).0
          l
          c
          o.limit_bytes
  unfolding mutate_loaded read_ledger
  read-Answered o c s t missing l later got h =
      save_admitted-Answered o c t l (mutate o.limit_bytes c empty) none h
        (λ m e. create-Answered o c t l m h (mutate-step o.limit_bytes c empty m e))
  read-Answered o c s t (lookup_failed e) l later got h = inl h
  read-Answered o c s t (found x) l later got h =
      found-Answered o c s t x (ledger_in server codec x.data_fields) l later got refl h

  attempt-Answered :
      (o : Options) (c : Call) (s t : S) (l : Ledger)
      → Later server s t
      → Holds t l
      → Answered t (attempt server codec o c s t).0 l c o.limit_bytes
  unfolding attempt load
  attempt-Answered o c s t l later h = elim (Bool-cases (enabled o)) [
    | inl on ↦ rw on (read-Answered o c s t (server.get s) l later refl h)
    | inr off ↦ rw off (inl h)
  ]

  Attempts-refine :
      (o : Options) (t u : S) (cs : List Call) (l : Ledger)
      → Attempts server codec o t cs u
      → Holds t l
      → (ds : List Call) × (Part ds cs × Holds u (run o.limit_bytes l ds))
  unfolding run
  Attempts-refine o t u cs l done h = ([], (nothing, h))
  Attempts-refine o t u cs l (tried {c} {cs = rest} {s} later others) h =
      elim (attempt-Answered o c s t l later h) [
        | inl same ↦
            let (ds, (part, end)) = Attempts-refine o _ u rest l others same in
            (ds, (left c part, end))
        | inr made ↦
            let (ds, (part, end)) =
              Attempts-refine o _ u rest (step o.limit_bytes l c) others made in
            (c ∷ ds, (taken c part, end))
      ]

  Part-All :
      (limit : ℕ) (ds cs : List Call) → Part ds cs → All (Fits limit) cs → All (Fits limit) ds
  Part-All limit ds cs nothing a = tt
  Part-All limit ds cs (taken c {ds = es} {cs = rest} part) (here, a) =
      (here, Part-All limit es rest part a)
  Part-All limit ds cs (left c {cs = rest} part) (here, a) = Part-All limit ds rest part a

  -- Attempts of any replicas at calls whose sizes fit (a publication's beside the limit in an
  -- int64), from where there is no secret, each on what was read at its state or any before it,
  -- under one positive limit and with a server of optimistic concurrency and a codec that reads
  -- back what it writes: the stored ledger reads, is the ledger of some of the calls in the order
  -- of their attempts, and holds at most the limit of bytes and no id twice.
  pub Attempts-IsLedger :
      (o : Options) (t u : S) (cs : List Call)
      → 0 < o.limit_bytes
      → o.limit_bytes < half
      → All (Fits o.limit_bytes) cs
      → laws.held t ≡ none
      → Attempts server codec o t cs u
      → (ds : List Call) × (Part ds cs
          × Holds u (run o.limit_bytes empty ds)
          × Inv o.limit_bytes (run o.limit_bytes empty ds))
  Attempts-IsLedger o t u cs pos h fits none_held attempts =
      let starts : Holds t empty = rw none_held refl in
      let (ds, (part, end)) = Attempts-refine o t u cs empty attempts starts in
      (ds, (part, end, run-Inv o.limit_bytes ds pos h (Part-All o.limit_bytes ds cs part fits)))
