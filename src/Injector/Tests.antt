-- ===== src/Injector/Tests.antt =====
-- The injector at a concrete file: `<div className="wide"><b/></div>`.
use zenith_extension.Prelude.{◌≡◌, refl, true, false, List, [], ◌∷◌, push}
use zenith_extension.Prelude.Text.{Text, codes, text_eq}
use mathlib.Core.Option
use zenith_extension.Jsx.{Name, ident, Node, Nodes, element, attribute, string_literal, nil, cons}
use zenith_extension.Injector.{file_entries, child, segment}
use zenith_extension.Injector.Components.{direct, within, component_file}
use zenith_extension.Injector.Attributes.{fingerprint_name, locked_name, inject_file}
use zenith_extension.Injector.Idempotence.{inject_file_idem}

abbrev id_name : Text
id_name = codes "data-zenith-id"

abbrev wide : Nodes
wide = cons (attribute (codes "className") (string_literal (codes "wide"))) nil

abbrev page : Node
page =
    component_file (within nil direct nil) nil
      (element 30 (ident (codes "div")) false wide
        (cons (element 50 (ident (codes "b")) true nil nil) nil))
      nil

print_ne : text_eq fingerprint_name id_name ≡ false
unfolding text_eq
print_ne = refl

locked_ne : text_eq locked_name id_name ≡ false
unfolding text_eq
locked_ne = refl

inject_file_idem_example :
    (file_entries id_name (codes "a.tsx") (inject_file id_name (codes "a.tsx") page) ≡ [])
    × (inject_file id_name (codes "a.tsx") (inject_file id_name (codes "a.tsx") page)
        ≡ inject_file id_name (codes "a.tsx") page)
inject_file_idem_example = inject_file_idem id_name (codes "a.tsx") print_ne locked_ne page

abbrev div : Name
div = ident (codes "div")

abbrev place_path : List Text
place_path = push (codes "p.0" ∷ []) (segment div (child 1))
