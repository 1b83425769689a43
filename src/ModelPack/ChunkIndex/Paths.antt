-- ===== src/ModelPack/ChunkIndex/Paths.antt =====
-- The path of a file or of an archive's entry: `RelativePath` of
-- images/controller/internal/support/archiveio/archiveio.go. `filepath.Join` puts parts together that need
-- no cleaning, since none is empty, "." or "..".
use Prim.Native.Char.{Char, code}
use Prim.Native.String
use ai_models.Prelude.{
  ◌≡◌, refl, sym, subst, ◌⊎◌, inl, inr, String, Bool, true, false, ◌||◌, ◌==◌, List, [], ◌∷◌,
  if◌then◌else◌, Bool-cases, All,
}
use ai_models.Prelude.Text.{is_empty, trim_space, str_eq}
use ai_models.Publication.Handle.{Result, ok, err}
use ai_models.ModelPack.Results.{◌>>=◌, ok_same, >>=-ok}

-- `strings.ReplaceAll(name, "\\", "/")`.
replace_backslashes : String → String
replace_backslashes String.[] = String.[]
replace_backslashes (String.◌∷◌ c s) =
    if code c == 92
    then String.◌∷◌ "/" (replace_backslashes s)
    else String.◌∷◌ c (replace_backslashes s)

prepend : Char → List String → List String
prepend c [] = String.◌∷◌ c String.[] ∷ []
prepend c (part ∷ parts) = String.◌∷◌ c part ∷ parts

-- `strings.Split(name, "/")`.
split : String → List String
unfolding prepend
split String.[] = String.[] ∷ []
split (String.◌∷◌ c s) =
    let rest = split s in if code c == 47 then String.[] ∷ rest else prepend c rest

abbrev pub join : List String → String
join [] = ""
join (part ∷ []) = part
join (part ∷ next ∷ parts) = String.◌++◌ part (String.◌++◌ "/" (join (next ∷ parts)))

unfoldable pub relative_parts : List String → Result (List String)
relative_parts [] = ok []
relative_parts (part ∷ parts) =
    let rest = relative_parts parts in
    if is_empty part || str_eq part "."
    then rest
    else if str_eq part ".."
    then err "refusing to extract archive entry outside of destination"
    else rest >>= λ result. ok (part ∷ result)

abbrev pub joined : List String → Result String
joined [] = ok "."
joined (part ∷ parts) = ok (join (part ∷ parts))

unfoldable pub relative_path : String → Result String
unfolding relative_parts split replace_backslashes
relative_path name =
    if is_empty (trim_space (replace_backslashes name))
    then err "archive entry name must not be empty"
    else relative_parts (split (trim_space (replace_backslashes name))) >>= joined

pub has_slash : String → Bool
has_slash String.[] = false
has_slash (String.◌∷◌ c s) = code c == 47 || has_slash s

-- A part that names something below its directory.
abbrev pub IsPlain : String → Type 0
IsPlain part =
    (is_empty part ≡ false)
    × (str_eq part "." ≡ false)
    × (str_eq part ".." ≡ false)
    × (has_slash part ≡ false)

abbrev HasNoSlash : String → Type 0
HasNoSlash part = has_slash part ≡ false

prepend-HasNoSlash :
    (c : Char) (parts : List String)
    → code c == 47 ≡ false
    → All HasNoSlash parts
    → All HasNoSlash (prepend c parts)
unfolding prepend has_slash
prepend-HasNoSlash c [] h a = (rw h, tt)
prepend-HasNoSlash c (part ∷ parts) h a = (rw h a.0, a.1)

split-HasNoSlash : (s : String) → All HasNoSlash (split s)
unfolding split has_slash
split-HasNoSlash String.[] = (refl, tt)
split-HasNoSlash (String.◌∷◌ c s) = elim (Bool-cases (code c == 47)) [
  | inl slash ↦ rw slash (refl, split-HasNoSlash s)
  | inr other ↦ rw other (prepend-HasNoSlash c (split s) other (split-HasNoSlash s))
]

or_false : (a b : Bool) → (a || b) ≡ false → a ≡ false
or_false true b h = absurd (cc)
or_false false b h = refl

or_false_right : (a b : Bool) → (a || b) ≡ false → b ≡ false
or_false_right true b h = absurd (cc)
or_false_right false b h = h

relative_parts-IsPlain :
    (parts result : List String)
    → All HasNoSlash parts
    → relative_parts parts ≡ ok result
    → All IsPlain result
unfolding relative_parts
relative_parts-IsPlain [] result a = λ h. subst (All IsPlain) (ok_same [] result h) tt
relative_parts-IsPlain (part ∷ parts) result a =
    elim (Bool-cases (is_empty part || str_eq part ".")) [
      | inl skipped ↦ rw skipped (relative_parts-IsPlain parts result a.1)
      | inr named ↦ rw named (elim (Bool-cases (str_eq part "..")) [
        | inl up ↦ rw up (λ h. absurd (cc))
        | inr plain ↦ rw plain (λ h.
            let step = >>=-ok (relative_parts parts) _ result h in
            subst (All IsPlain) (ok_same (part ∷ step.0) result step.2) (
              (
                or_false (is_empty part) _ named,
                or_false_right (is_empty part) _ named,
                plain,
                a.0,
              ),
              relative_parts-IsPlain parts step.0 a.1 step.1,
            ))
      ])
    ]

joined-IsPlain :
    (parts : List String) (path : String)
    → All IsPlain parts
    → joined parts ≡ ok path
    → (path ≡ ".") ⊎ ((parts : List String) × (path ≡ join parts) × All IsPlain parts)
joined-IsPlain [] path a h = inl (sym (ok_same _ path h))
joined-IsPlain (part ∷ parts) path a h = inr (part ∷ parts, sym (ok_same _ path h), a)

-- A path that is returned for a name is "." or joins parts of which none is empty, "." or ".." or
-- has a slash.
pub relative_path-IsPlain :
    (name path : String)
    → relative_path name ≡ ok path
    → (path ≡ ".") ⊎ ((parts : List String) × (path ≡ join parts) × All IsPlain parts)
unfolding relative_path
relative_path-IsPlain name path =
    elim (Bool-cases (is_empty (trim_space (replace_backslashes name)))) [
      | inl empty ↦ rw empty (λ h. absurd (cc))
      | inr filled ↦ rw filled (λ h.
          let step =
            >>=-ok (relative_parts (split (trim_space (replace_backslashes name)))) _ path h in
          joined-IsPlain step.0 path
            (relative_parts-IsPlain (split (trim_space (replace_backslashes name))) step.0
              (split-HasNoSlash (trim_space (replace_backslashes name))) step.1)
            step.2)
    ]
