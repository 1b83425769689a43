-- ===== src/ModelPack/MediaType/Pattern.antt =====
-- The expression `modelPackLayerMediaTypeRegexp` of
-- images/controller/internal/adapters/modelpack/oci/layer_media_type.go, and what Go's `regexp` makes of the
-- constructs that it uses: of all matches the one that the greedy choices prefer, left to right. A group
-- that takes no part in the match is "".
use Prim.Native.Char.{code}
use Prim.Native.String
use ai_models.Prelude.{ℕ, String, Bool, ◌&&◌, ◌||◌, Option, none, some, if◌then◌else◌, ◌==◌, leb}

-- A text, `\w+`, one after the other, `(?:r)?`, and a group by its number.
pub data Regex : Type 0 where
  text : String → Regex
  words : Regex
  seq : Regex → Regex → Regex
  optional : Regex → Regex
  group : ℕ → Regex → Regex

-- What the three groups hold.
abbrev pub Groups : Type 0
Groups = String × String × String

abbrev pub set_group : ℕ → String → Groups → Groups
set_group n m (a, b, c) = if n == 1 then (m, b, c) else if n == 2 then (a, m, c) else (a, b, m)

-- `\w`, which is ASCII.
abbrev pub is_word : ℕ → Bool
is_word c =
    (leb b'0' c && leb c b'9')
    || (leb b'A' c && leb c b'Z')
    || c == b'_'
    || (leb b'a' c && leb c b'z')

-- What a match goes on with: the text that it has matched, the rest, and the groups.
abbrev pub Next : Type 0
Next = String → String → Groups → Option Groups

abbrev pub or_match : Option Groups → Option Groups → Option Groups
or_match (some g) other = some g
or_match none other = other

unfoldable pub match_text : String → String → Groups → Next → Option Groups
match_text String.[] s g next = next String.[] s g
match_text (String.◌∷◌ c t) String.[] g next = none
match_text (String.◌∷◌ c t) (String.◌∷◌ d s) g next =
    if code c == code d then match_text t s g (λ m rest. next (String.◌∷◌ d m) rest) else none

-- One character at least, and as many as there are; fewer, if that leads to no match.
unfoldable pub match_words : String → Groups → Next → Option Groups
match_words String.[] g next = none
match_words (String.◌∷◌ c s) g next =
    let longer = match_words s g (λ m rest. next (String.◌∷◌ c m) rest) in
    if is_word (code c) then or_match longer (next (String.◌∷◌ c String.[]) s g) else none

unfoldable pub match_at : Regex → String → Groups → Next → Option Groups
unfolding match_text match_words
match_at (text t) s g next = match_text t s g next
match_at words s g next = match_words s g next
match_at (seq r q) s g next =
    match_at r s g (λ m rest h. match_at q rest h (λ n end. next (String.◌++◌ m n) end))
match_at (optional r) s g next = or_match (match_at r s g next) (next String.[] s g)
match_at (group n r) s g next = match_at r s g (λ m rest h. next m rest (set_group n m h))

-- The end of the text, `$`.
abbrev pub at_end : Next
at_end m String.[] g = some g
at_end m (String.◌∷◌ c rest) g = none

-- `^application/vnd\.cncf\.model\.(\w+(?:\.\w+)?)\.v1\.(\w+)(?:\+?(\w+))?$` between its anchors.
abbrev pub model_pack_layer_media_type_regexp : Regex
model_pack_layer_media_type_regexp = seq (text "application/vnd.cncf.model.") (
    seq (group 1 (seq words (optional (seq (text ".") words)))) (
      seq (text ".v1.")
        (seq (group 2 words) (optional (seq (optional (text "+")) (group 3 words))))))

-- `FindStringSubmatch`, less the whole match that stands first in its result.
unfoldable pub find_string_submatch : String → Option Groups
unfolding match_at
find_string_submatch value = match_at model_pack_layer_media_type_regexp value ("", "", "") at_end
