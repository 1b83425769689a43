-- ===== src/NodeCache/Plan/Loop.antt =====
-- The loops that append candidates to the eviction plan.
use text.Mathlib.TextEquality.{eq_iff}
use ai_models.Prelude.{
  ◌%◌, ◌<◌, ◌≡◌, refl, ◌⊎◌, inl, inr, String, Bool, true, false, ◌||◌, List, [], ◌∷◌, ◌++◌, arith,
  Bool-cases, In, All, All-append,
}
use ai_models.Prelude.Text.{str_eq, str_eq_self}
use ai_models.Prelude.Int64.{Int64, modulus, add64, le64}
use ai_models.Prelude.Assoc.{member}
use ai_models.NodeCache.Plan.{
  Entry, Candidate, CandidateReason, Progress, candidate, append_candidate, append_all,
  append_until_fits,
}
use ai_models.NodeCache.Plan.CandidateReason.{size_pressure}

-- A candidate of the list has the directory.
abbrev pub has_dir : String → List Candidate → Bool
has_dir d [] = false
has_dir d (c ∷ cs) = str_eq c.destination_dir d || has_dir d cs

-- No directory stands twice.
abbrev pub DirsDistinct : List Candidate → Type 0
DirsDistinct [] = Unit {0}
DirsDistinct (c ∷ cs) = (has_dir c.destination_dir cs ≡ false) × DirsDistinct cs

has_dir-append :
    (d : String) (cs : List Candidate) (c : Candidate)
    → has_dir d (cs ++ c ∷ []) ≡ (str_eq c.destination_dir d || has_dir d cs)
has_dir-append d [] c = refl
has_dir-append d (b ∷ cs) c = ground (arith, has_dir-append d cs c)

DirsDistinct-append :
    (cs : List Candidate) (c : Candidate)
    → DirsDistinct cs
    → has_dir c.destination_dir cs ≡ false
    → DirsDistinct (cs ++ c ∷ [])
DirsDistinct-append [] c h k = (refl, tt)
DirsDistinct-append (b ∷ cs) c h k = ground (
  arith,
  has_dir-append b.destination_dir cs c,
  eq_iff c.destination_dir b.destination_dir,
  eq_iff b.destination_dir c.destination_dir,
  DirsDistinct-append cs c h.1,
)

-- The selected directories are those of the candidates, none twice, and the bytes add up.
pub record Tracked (p : Progress) : Type 0 where
  pub agrees : (d : String) → member d p.selected ≡ has_dir d p.plan.candidates
  pub distinct : DirsDistinct p.plan.candidates
  pub adds_up :
      add64 p.plan.residual_size_bytes p.plan.reclaim_bytes ≡ p.plan.total_size_bytes % modulus

append_candidate-Tracked :
    (p : Progress) (e : Entry) (reason : CandidateReason)
    → e.size_bytes < modulus
    → Tracked p
    → Tracked (append_candidate p e reason)
unfolding append_candidate member
append_candidate-Tracked p e reason fits t = record {
  agrees = λ d. ground (arith, t.agrees d, has_dir-append d p.plan.candidates (candidate e reason));
  distinct = ground (
    arith,
    t.agrees e.destination_dir,
    DirsDistinct-append p.plan.candidates (candidate e reason) t.distinct,
  );
  adds_up = ground (arith, t.adds_up);
}

append_candidate-All :
    (P : Candidate → Type 0) (p : Progress) (e : Entry) (reason : CandidateReason)
    → P (candidate e reason)
    → All P p.plan.candidates
    → All P (append_candidate p e reason).plan.candidates
unfolding append_candidate
append_candidate-All P p e reason h k = elim (Bool-cases (member e.destination_dir p.selected)) [
  | inl m ↦ rw m k
  | inr m ↦ rw m (All-append P p.plan.candidates (candidate e reason ∷ []) k (h, tt))
]

append_candidate-has_dir :
    (p : Progress) (e : Entry) (reason : CandidateReason)
    → Tracked p
    → has_dir e.destination_dir (append_candidate p e reason).plan.candidates ≡ true
unfolding append_candidate
append_candidate-has_dir p e reason t = ground (
  arith,
  t.agrees e.destination_dir,
  has_dir-append e.destination_dir p.plan.candidates (candidate e reason),
  str_eq_self e.destination_dir,
)

append_candidate_keeps_dirs :
    (p : Progress) (e : Entry) (reason : CandidateReason) (d : String)
    → has_dir d p.plan.candidates ≡ true
    → has_dir d (append_candidate p e reason).plan.candidates ≡ true
unfolding append_candidate
append_candidate_keeps_dirs p e reason d h =
    ground (arith, has_dir-append d p.plan.candidates (candidate e reason))

pub append_all-Tracked :
    (p : Progress) (es : List Entry) (reason : CandidateReason)
    → All (λ e. e.size_bytes < modulus) es
    → Tracked p
    → Tracked (append_all p es reason)
unfolding append_all
append_all-Tracked p [] reason f t = t
append_all-Tracked p (e ∷ es) reason f t =
    append_all-Tracked (append_candidate p e reason) es reason f.1
      (append_candidate-Tracked p e reason f.0 t)

pub append_all-All :
    (P : Candidate → Type 0) (p : Progress) (es : List Entry) (reason : CandidateReason)
    → ((e : Entry) → In e es → P (candidate e reason))
    → All P p.plan.candidates
    → All P (append_all p es reason).plan.candidates
unfolding append_all
append_all-All P p [] reason h k = k
append_all-All P p (e ∷ es) reason h k =
    append_all-All P (append_candidate p e reason) es reason (λ f m. h f (inr m))
      (append_candidate-All P p e reason (h e (inl refl)) k)

pub append_all_keeps_dirs :
    (p : Progress) (es : List Entry) (reason : CandidateReason) (d : String)
    → has_dir d p.plan.candidates ≡ true
    → has_dir d (append_all p es reason).plan.candidates ≡ true
unfolding append_all
append_all_keeps_dirs p [] reason d h = h
append_all_keeps_dirs p (e ∷ es) reason d h =
    append_all_keeps_dirs (append_candidate p e reason) es reason d
      (append_candidate_keeps_dirs p e reason d h)

pub append_all-has_dir :
    (p : Progress) (es : List Entry) (reason : CandidateReason) (e : Entry)
    → All (λ f. f.size_bytes < modulus) es
    → Tracked p
    → In e es
    → has_dir e.destination_dir (append_all p es reason).plan.candidates ≡ true
unfolding append_all
append_all-has_dir p [] reason e f t m = elim m [ ]
append_all-has_dir p (g ∷ es) reason e f t m = elim m [
  | inl same ↦
      append_all_keeps_dirs (append_candidate p g reason) es reason e.destination_dir
        (rw same (append_candidate-has_dir p g reason t))
  | inr q ↦
      append_all-has_dir (append_candidate p g reason) es reason e f.1
        (append_candidate-Tracked p g reason f.0 t) q
]

pub append_until_fits-Tracked :
    (max : Int64) (p : Progress) (es : List Entry)
    → All (λ e. e.size_bytes < modulus) es
    → Tracked p
    → Tracked (append_until_fits max p es)
unfolding append_until_fits
append_until_fits-Tracked max p [] f t = t
append_until_fits-Tracked max p (e ∷ es) f t =
    let next = append_candidate-Tracked p e size_pressure f.0 t in
    elim (Bool-cases (le64 (append_candidate p e size_pressure).plan.residual_size_bytes max)) [
      | inl fits ↦ rw fits next
      | inr over ↦
          rw over (append_until_fits-Tracked max (append_candidate p e size_pressure) es f.1 next)
    ]

pub append_until_fits-All :
    (P : Candidate → Type 0) (max : Int64) (p : Progress) (es : List Entry)
    → ((e : Entry) → In e es → P (candidate e size_pressure))
    → All P p.plan.candidates
    → All P (append_until_fits max p es).plan.candidates
unfolding append_until_fits
append_until_fits-All P max p [] h k = k
append_until_fits-All P max p (e ∷ es) h k =
    let next = append_candidate-All P p e size_pressure (h e (inl refl)) k in
    elim (Bool-cases (le64 (append_candidate p e size_pressure).plan.residual_size_bytes max)) [
      | inl fits ↦ rw fits next
      | inr over ↦ rw over (
          append_until_fits-All P max (append_candidate p e size_pressure) es (λ f m. h f (inr m))
            next)
    ]

pub append_until_fits_keeps_dirs :
    (max : Int64) (p : Progress) (es : List Entry) (d : String)
    → has_dir d p.plan.candidates ≡ true
    → has_dir d (append_until_fits max p es).plan.candidates ≡ true
unfolding append_until_fits
append_until_fits_keeps_dirs max p [] d h = h
append_until_fits_keeps_dirs max p (e ∷ es) d h = ground (
  arith,
  append_candidate_keeps_dirs p e size_pressure d,
  append_until_fits_keeps_dirs max (append_candidate p e size_pressure) es d,
)

-- The loop stops early only when the residual size fits.
pub append_until_fits_stops :
    (max : Int64) (p : Progress) (es : List Entry)
    → All (λ e. e.size_bytes < modulus) es
    → Tracked p
    → (le64 (append_until_fits max p es).plan.residual_size_bytes max ≡ true)
      ⊎ ((e : Entry)
          → In e es
          → has_dir e.destination_dir (append_until_fits max p es).plan.candidates ≡ true)
unfolding append_until_fits
append_until_fits_stops max p [] f t = inr (λ e m. elim m [ ])
append_until_fits_stops max p (g ∷ es) f t =
    let next = append_candidate p g size_pressure in
    elim (Bool-cases (le64 next.plan.residual_size_bytes max)) [
      | inl fits ↦ inl (rw fits fits)
      | inr over ↦
          rw over
            (elim (append_until_fits_stops max next es f.1
              (append_candidate-Tracked p g size_pressure f.0 t)) [
                | inl fits ↦ inl fits
                | inr all ↦ inr (λ e m. elim m [
                  | inl same ↦
                      append_until_fits_keeps_dirs max next es e.destination_dir
                        (rw same (append_candidate-has_dir p g size_pressure t))
                  | inr q ↦ all e q
                ])
              ])
    ]
