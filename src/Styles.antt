-- ===== src/Styles.antt =====
-- Style records, `Record<string, string>` objects of zenith-extension/webview-ui/src/stores, as
-- lists of entries in insertion order, and `normalizeStyles` of stores/utils.ts. The keys are names
-- of CSS properties, so the rule of JavaScript that puts integer keys first does not apply.
pub mod Laws
pub mod Camel
use zenith_extension.Prelude.{
  ℕ, ◌-◌, Bool, true, false, ◌&&◌, List, [], ◌∷◌, Option, none, some, leb, ◌==◌, if◌then◌else◌,
}
use zenith_extension.Prelude.Text.{Text, text_eq}

abbrev pub Styles : Type 0
Styles = List (Text × Text)

-- `styles[key]`, `none` for `undefined`
unfoldable pub lookup : Text → Styles → Option Text
lookup k [] = none
lookup k ((j, v) ∷ m) = if text_eq j k then some v else lookup k m

-- `{ ...styles, [key]: value }` and `styles[key] = value`: an old key keeps its place.
unfoldable pub insert : Text → Text → Styles → Styles
insert k v [] = (k, v) ∷ []
insert k v ((j, w) ∷ m) = if text_eq j k then (k, v) ∷ m else (j, w) ∷ insert k v m

-- `{ ...styles, ...news }`
unfoldable pub merge : Styles → Styles → Styles
merge styles [] = styles
merge styles ((k, v) ∷ news) = merge (insert k v styles) news

-- `[a-z]`
unfoldable pub is_lower : ℕ → Bool
is_lower c = leb b'a' c && leb c b'z'

-- `str.replace(/-([a-z])/g, (g) => g[1].toUpperCase())`
unfoldable pub to_camel_case : Text → Text
to_camel_case [] = []
to_camel_case (c ∷ []) = c ∷ []
to_camel_case (c ∷ d ∷ s) = elim (c == b'-' && is_lower d) [
  | true ↦ (d - 32) ∷ to_camel_case s
  | false ↦ c ∷ to_camel_case (d ∷ s)
]

-- The loop of `normalizeStyles`, into the object that is built.
unfoldable pub normalize_into : Styles → Styles → Styles
normalize_into normalized [] = normalized
normalize_into normalized ((key, val) ∷ rest) =
    normalize_into (insert (to_camel_case key) val normalized) rest

unfoldable pub normalize_styles : Styles → Styles
unfolding normalize_into
normalize_styles styles = normalize_into [] styles
