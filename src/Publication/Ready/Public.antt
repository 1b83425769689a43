-- ===== src/Publication/Ready/Public.antt =====
-- The capabilities that a ready status publishes.
use Prim.Native.String.{len}
use ai_models.Prelude.{
  ℕ, suc, ◌+◌, ◌≡◌, ◌≤◌, ◌<◌, refl, String, Bool, true, false, not, ◌||◌, List, [], ◌∷◌, ◌==◌, ltb,
  length, All, In, Bool-cases, inl, inr, arith,
}
use ai_models.Prelude.Text.{is_empty, trim_space, trim_space_idem, str_eq, str_eq_self, str_eq_comm}
use ai_models.Prelude.Assoc.{member}
use ai_models.Publication.Ready.{
  unique_loop, unique_non_empty_strings, max_source_capability_values,
  max_source_capability_value_length,
}

abbrev pub NoneTwice : List String → Type 0
NoneTwice [] = Unit {0}
NoneTwice (x ∷ xs) = (member x xs ≡ false) × NoneTwice xs

-- The value is trimmed, not empty, and at most 128 bytes long.
abbrev pub IsPublic : String → Type 0
IsPublic x = (trim_space x ≡ x) × (is_empty x ≡ false) × (len x ≤ 128)

-- The trimmed value is public, so it is to be published.
abbrev pub is_public : String → Bool
is_public raw = not (is_empty (trim_space raw) || ltb 128 (len (trim_space raw)))

-- What a loop from the values `seen` may return.
record Unique (seen : List String) (n : ℕ) (xs : List String) : Type 0 where
  pub count : length xs + n ≤ max_source_capability_values
  pub none_twice : NoneTwice xs
  pub public : All IsPublic xs
  pub new : All (λ x. member x seen ≡ false) xs

weaken :
    (c : String) (seen xs : List String)
    → All (λ x. member x (c ∷ seen) ≡ false) xs
    → (member c xs ≡ false) × All (λ x. member x seen ≡ false) xs
unfolding member
weaken c seen [] h = (refl, tt)
weaken c seen (x ∷ xs) h =
    let (rest, old) = weaken c seen xs h.1 in (ground (arith, str_eq_comm c x), (ground arith, old))

unique_loop-Unique :
    (seen : List String) (n : ℕ) (values : List String)
    → n < max_source_capability_values
    → Unique seen n (unique_loop seen n values)
unfolding unique_loop
unique_loop-Unique seen n [] h = record {
  count = omega arith;
  none_twice = tt;
  public = tt;
  new = tt;
}
unique_loop-Unique seen n (raw ∷ values) h =
    elim (Bool-cases (
      is_empty (trim_space raw) || ltb max_source_capability_value_length (len (trim_space raw)))) [
        | inl skipped ↦ rw skipped (unique_loop-Unique seen n values h)
        | inr fine ↦ elim (Bool-cases (member (trim_space raw) seen)) [
          | inl again ↦ rw (fine, again) (unique_loop-Unique seen n values h)
          | inr fresh ↦
              let public : IsPublic (trim_space raw) =
                (trim_space_idem raw, ground arith, ground arith) in
              elim (Bool-cases (suc n == max_source_capability_values)) [
                | inl full ↦
                    rw (fine, fresh, full)
                      (record {
                        count = ground arith;
                        none_twice = unfold member in (refl, tt);
                        public = (public, tt);
                        new = (fresh, tt);
                      })
                | inr room ↦
                    let rest =
                      unique_loop-Unique (trim_space raw ∷ seen) (suc n) values (ground arith) in
                    let (once, new) = weaken (trim_space raw) seen _ rest.new in
                    rw (fine, fresh, room)
                      (record {
                        count = omega (arith, rest.count);
                        none_twice = (once, rest.none_twice);
                        public = (public, rest.public);
                        new = (fresh, new);
                      })
              ]
        ]
      ]

-- At most 32 source capabilities of a kind are published, none twice, and each is trimmed, not
-- empty and at most 128 bytes long.
pub unique_non_empty_strings-bounds :
    (values : List String)
    → (length (unique_non_empty_strings values) ≤ 32)
      × NoneTwice (unique_non_empty_strings values)
      × All IsPublic (unique_non_empty_strings values)
unfolding unique_non_empty_strings
unique_non_empty_strings-bounds values =
    let u = unique_loop-Unique [] 0 values (omega arith) in
    (omega (arith, u.count), u.none_twice, u.public)

any_of : (a b c : Bool) → (a || (b || c)) ≡ true → ((b || a) || c) ≡ true
any_of a b c h = ground arith

unique_loop_covers :
    (seen : List String) (n : ℕ) (values : List String) (raw : String)
    → length (unique_loop seen n values) + n < max_source_capability_values
    → In raw values
    → is_public raw ≡ true
    → (member (trim_space raw) (unique_loop seen n values) || member (trim_space raw) seen) ≡ true
unfolding unique_loop member
unique_loop_covers seen n [] raw h m p = elim m [ ]
unique_loop_covers seen n (v ∷ values) raw h m p = elim (Bool-cases (is_public v)) [
  | inr skipped ↦
      let blank : (is_empty (trim_space v)
            || ltb max_source_capability_value_length (len (trim_space v)))
          ≡ true =
        ground arith in
      rw blank (elim m [
        | inl same ↦ absurd (cc)
        | inr later ↦ unique_loop_covers seen n values raw (ground arith) later p
      ])
  | inl fine ↦
      let told : (is_empty (trim_space v)
            || ltb max_source_capability_value_length (len (trim_space v)))
          ≡ false =
        ground arith in
      elim (Bool-cases (member (trim_space v) seen)) [
        | inl again ↦
            rw (told, again)
              (elim m [
                | inl same ↦ rw same (ground arith)
                | inr later ↦ unique_loop_covers seen n values raw (rw (told, again) at h) later p
              ])
        | inr fresh ↦ elim (Bool-cases (suc n == max_source_capability_values)) [
          | inl full ↦ absurd (ground arith)
          | inr room ↦
              rw (told, fresh, room)
                (elim m [
                  | inl same ↦ rw (same, str_eq_self (trim_space v))
                  | inr later ↦
                      let k : length (unique_loop (trim_space v ∷ seen) (suc n) values) + suc n
                          < max_source_capability_values =
                        ground arith in
                      any_of
                        (member (trim_space raw) (unique_loop (trim_space v ∷ seen) (suc n) values))
                        (str_eq (trim_space v) (trim_space raw)) (member (trim_space raw) seen)
                        (unique_loop_covers (trim_space v ∷ seen) (suc n) values raw k later p)
                ])
        ]
      ]
]

-- Where fewer than 32 source capabilities of a kind are published, each given value that, once
-- trimmed, is not empty and at most 128 bytes long is among them.
pub unique_non_empty_strings_covers :
    (values : List String) (raw : String)
    → length (unique_non_empty_strings values) < 32
    → In raw values
    → is_public raw ≡ true
    → member (trim_space raw) (unique_non_empty_strings values) ≡ true
unfolding unique_non_empty_strings
unique_non_empty_strings_covers values raw h m p =
    let covered = unique_loop_covers [] 0 values raw (omega (arith, h)) m p in
    unfold member in (ground arith)
