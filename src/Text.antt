-- ===== src/Text.antt =====
-- common/utils/normalize.util.ts, `trimOrUndefined`, and the text of a template. JavaScript's `trim` is a parameter.
use Prim.Native.String.{String}
use guardtrak_api.Prelude.{Bool, true, false, Option, none, some, if◌then◌else◌}

-- `text.length === 0`
abbrev pub is_empty : String → Bool
is_empty String.[] = true
is_empty (String.◌∷◌ c s) = false

module _ (trim : String → String) where
  unfoldable pub trim_or_undefined : Option String → Option String
  trim_or_undefined none = none
  trim_or_undefined (some value) =
      let trimmed = trim value in if is_empty trimmed then none else some trimmed

-- Two texts after one another, as in a template.
unfoldable pub append : String → String → String
append String.[] after = after
append (String.◌∷◌ c s) after = String.◌∷◌ c (append s after)
