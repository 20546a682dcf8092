-- ===== src/Vite.antt =====
-- The `transform` hook of the Vite plugin (zenith-vite-plugin/src/index.ts) with its cache and the
-- shadow directory (zenith-vite-plugin/src/shadow.ts). The digest of a text and `injectGhostIds` on
-- texts, which goes through the parser and the printer of Babel, are parameters.
pub mod Proxy
pub mod Cache
mod Tests
use zenith_extension.Prelude.{
  ℕ, Bool, true, false, ◌&&◌, ◌||◌, not, Option, none, some, List, [], ◌∷◌, ◌++◌, ltb, length,
  if◌then◌else◌,
}
use zenith_extension.Prelude.Text.{Text, codes, text_eq}

-- The result of `injectGhostIds`: the code, and the entries by their IDs.
pub record Injected : Type 0 where
  pub code : Text
  pub entries : List (Text × Text)

pub data Transformed : Type 0 where
  -- `null`: Vite goes on with the code as it is.
  unchanged : Transformed
  virtual_code : Text → Transformed
  injected : Injected → Transformed

pub data RegistryCall : Type 0 where
  clear_file : Text → RegistryCall
  register : List (Text × Text) → RegistryCall

-- A process with one instance of the plugin: `_transformCache`, which belongs to the module, the
-- calls that were sent, and the manifest of the shadow directory.
pub record Plugin : Type 0 where
  pub cache : List (Text × (Text × Injected))
  pub sent : List RegistryCall
  pub manifest : List (Text × Text)

abbrev pub new_plugin : Plugin
new_plugin = record { cache = []; sent = []; manifest = [] }

-- A call of `transform`: the file's ID, its path below the root, which is lower case on Windows, its
-- code, what the ghost proxy has for it,
-- and whether the socket is open and the shadow directory takes the file.
pub record Load : Type 0 where
  pub id : Text
  pub path : Text
  pub code : Text
  pub in_node_modules : Bool
  pub virtual_content : Option Text
  pub is_open : Bool
  pub shadow_ok : Bool

unfoldable pub ends_with : Text → Text → Bool
ends_with t [] = text_eq [] t
ends_with t (c ∷ s) = text_eq (c ∷ s) t || ends_with t s

-- `JSX_EXTENSIONS`
unfoldable pub is_jsx : Text → Bool
unfolding ends_with
is_jsx id = ends_with (codes ".jsx") id || ends_with (codes ".tsx") id

-- `Map.get` and `Map.set`
unfoldable pub find_key : {V : Type 0} → Text → List (Text × V) → Option V
find_key k [] = none
find_key k ((j, v) ∷ m) = if text_eq j k then some v else find_key k m

unfoldable pub set_key : {V : Type 0} → Text → V → List (Text × V) → List (Text × V)
set_key k v [] = (k, v) ∷ []
set_key k v ((j, w) ∷ m) = if text_eq j k then (j, v) ∷ m else (j, w) ∷ set_key k v m

-- `ShadowDirectory.write`: the manifest gets the entries of the file.
unfoldable pub write_shadow : List (Text × Text) → List (Text × Text) → List (Text × Text)
unfolding set_key
write_shadow manifest [] = manifest
write_shadow manifest ((id, entry) ∷ entries) = write_shadow (set_key id entry manifest) entries

-- The calls for a file: its IDs are cleared before the new ones are registered.
unfoldable pub registry_calls : Bool → Text → Injected → List RegistryCall
registry_calls is_open path r =
    if is_open
    then clear_file path ∷ (if ltb 0 (length r.entries) then register r.entries ∷ [] else [])
    else []

-- A text that is missing or empty is no content.
unfoldable pub content_of : Option Text → Option Text
content_of none = none
content_of (some []) = none
content_of (some (c ∷ s)) = some (c ∷ s)

module _ (digest : Text → Text) (inject : Text → Text → Option Injected) (shadow : Bool) where
  -- After the injection.
  unfoldable pub store_result : Load → Injected → Plugin → Transformed × Plugin
  unfolding set_key registry_calls write_shadow
  store_result l r s =
      let has_shadow = shadow && ltb 0 (length r.entries) in
      let t : Plugin = record s {
        cache = set_key l.path (digest l.code, r) s.cache;
        sent = s.sent ++ registry_calls l.is_open l.path r;
      } in
      if has_shadow && not l.shadow_ok then (unchanged, t) else (
        injected r,
        if has_shadow then record t { manifest = write_shadow s.manifest r.entries } else t,
      )

  abbrev pub inject_result : Load → Option Injected → Plugin → Transformed × Plugin
  inject_result l none s = (unchanged, s)
  inject_result l (some r) s = store_result l r s

  -- The base code is the virtual content, if there is any.
  unfoldable pub transform_base : Load → Option Text → Plugin → Transformed × Plugin
  unfolding store_result is_jsx
  transform_base l none s =
      if is_jsx l.id then inject_result l (inject l.code l.path) s else (unchanged, s)
  transform_base l (some base) s =
      if is_jsx l.id then inject_result l (inject base l.path) s else (virtual_code base, s)

  abbrev pub transform_cached : Load → Option (Text × Injected) → Plugin → Transformed × Plugin
  transform_cached l none s = transform_base l (content_of l.virtual_content) s
  transform_cached l (some (hash, r)) s =
      if text_eq hash (digest l.code)
      then (injected r, s)
      else transform_base l (content_of l.virtual_content) s

  -- `transform`
  unfoldable pub transform : Load → Plugin → Transformed × Plugin
  unfolding transform_base find_key content_of
  transform l s =
      if l.in_node_modules then (unchanged, s) else transform_cached l (find_key l.path s.cache) s

  unfoldable pub load_all : List Load → Plugin → Plugin
  unfolding transform
  load_all [] s = s
  load_all (l ∷ ls) s = load_all ls (transform l s).1
