-- ===== src/Vite/Tests.antt =====
-- A file that is loaded twice.
use zenith_extension.Prelude.{◌≡◌, refl, true, false, Option, none, some, [], ◌∷◌}
use zenith_extension.Prelude.Text.{Text, codes, text_eq}
use zenith_extension.Vite.{
  Injected, content_of, is_jsx, Load, new_plugin, injected, store_result, transform, load_all,
}
use zenith_extension.Vite.Cache.{plain, IsPlain, transform-plain, transform-stored}

abbrev digest : Text → Text
digest code = code

abbrev inject : Text → Text → Option Injected
inject code path = some (record { code = code; entries = [] })

abbrev load : Load
load = record {
  id = codes "/site/src/App.tsx";
  path = codes "src/App.tsx";
  code = codes "<a/>";
  in_node_modules = false;
  virtual_content = none;
  is_open = true;
  shadow_ok = true;
}

abbrev load-IsPlain : IsPlain load
unfolding content_of is_jsx text_eq
load-IsPlain = record { no_content = refl; takes = refl; same_kind = refl }

transform-plain_example :
    (transform digest inject false load (load_all digest inject false (load ∷ []) new_plugin)).0
    ≡ plain digest inject false load
transform-plain_example =
    transform-plain digest inject false (load ∷ []) load ((load-IsPlain, λ e. refl), tt)
      load-IsPlain

abbrev first_result : Injected
first_result = record { code = codes "<a id/>"; entries = [] }

-- The proxy has got another code since.
abbrev edited : Load
edited = record load { virtual_content = some (codes "<b/>") }

transform-stored_example :
    transform digest inject false edited
      (store_result digest inject false load first_result new_plugin).1
    ≡ (injected first_result, (store_result digest inject false load first_result new_plugin).1)
transform-stored_example =
    transform-stored digest inject false load edited first_result new_plugin refl refl refl
