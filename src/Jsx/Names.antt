-- ===== src/Jsx/Names.antt =====
-- Tag names, as the injector and the patcher print them.
use zenith_extension.Prelude.{◌∷◌, ◌++◌, Bool, false, ◌&&◌}
use zenith_extension.Prelude.Text.{Text, codes, text_eq}
use zenith_extension.Jsx.{Name, ident, dotted, namespaced}

-- `getTagName` of injector.ts
unfoldable pub tag_name : Name → Text
tag_name (ident name) = name
tag_name (dotted base name) = tag_name base ++ b'.' ∷ name
tag_name (namespaced space name) = space ++ b':' ∷ name

-- `getTagName` of surgical.ts, which does not know namespaced names
unfoldable pub patcher_tag_name : Name → Text
patcher_tag_name (ident name) = name
patcher_tag_name (dotted base name) = patcher_tag_name base ++ b'.' ∷ name
patcher_tag_name (namespaced space name) = codes "unknown"

-- `isFragment`: `<Fragment>` and `<React.Fragment>`
unfoldable pub is_fragment : Name → Bool
is_fragment (ident name) = text_eq name (codes "Fragment")
is_fragment (dotted (ident base) name) =
    text_eq base (codes "React") && text_eq name (codes "Fragment")
is_fragment (dotted (dotted base mid) name) = false
is_fragment (dotted (namespaced space mid) name) = false
is_fragment (namespaced space name) = false
