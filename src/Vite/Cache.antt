-- ===== src/Vite/Cache.antt =====
-- The cache of `transform` in zenith-vite-plugin/src/index.ts: where it is not seen, and where it is.
use zenith_extension.Prelude.{
  ◌≡◌, refl, ◌∙◌, sym, ap, Bool, true, false, Option, none, some, List, [], ◌∷◌, All, if◌then◌else◌,
  Bool-cases, inl, inr, arith,
}
use mathlib.Core.Option.{some-injective}
use zenith_extension.Prelude.Text.{Text, text_eq, text_eq_iff, text_eq_refl}
use zenith_extension.Vite.{
  Injected, Transformed, unchanged, injected, Plugin, new_plugin, Load, is_jsx, find_key, set_key,
  content_of, store_result, inject_result, transform_base, transform_cached, transform, load_all,
}

pub find_key-set_key :
    {V : Type 0} (j k : Text) (v : V) (m : List (Text × V))
    → find_key j (set_key k v m) ≡ (if text_eq k j then some v else find_key j m)
unfolding find_key set_key
find_key-set_key j k v [] = refl
find_key-set_key j k v ((i, w) ∷ m) =
    ground (arith, text_eq_iff k j, text_eq_iff i k, text_eq_iff i j, find_key-set_key j k v m)

-- The proxy has no content for the file, the shadow directory takes it, and the path shows whether it
-- is JSX as the ID does.
pub record IsPlain (l : Load) : Type 0 where
  pub no_content : content_of l.virtual_content ≡ none
  pub takes : l.shadow_ok ≡ true
  pub same_kind : is_jsx l.id ≡ is_jsx l.path

module _ (digest : Text → Text) (inject : Text → Text → Option Injected) (shadow : Bool) where
  abbrev pub plain_result : Option Injected → Transformed
  plain_result none = unchanged
  plain_result (some r) = injected r

  -- What a load gives without a cache and without virtual content.
  unfoldable pub plain : Load → Transformed
  plain l =
      if l.in_node_modules
      then unchanged
      else if is_jsx l.id
      then plain_result (inject l.code l.path)
      else unchanged

  -- A code that the digest tells from the last one, if it differs.
  abbrev pub Tells : Text → Text → Type 0
  Tells last code = digest code ≡ digest last → code ≡ last

  module _ (last : Text) where
    record IsCached (path hash : Text) (r : Injected) : Type 0 where
      jsx : is_jsx path ≡ true
      code : Text
      tells : Tells last code
      hashed : hash ≡ digest code
      made : inject code path ≡ some r

    IsSound : Plugin → Type 0
    IsSound s =
        (path hash : Text) (r : Injected)
        → find_key path s.cache ≡ some (hash, r)
        → IsCached path hash r

    record IsRight (l : Load) (o : Transformed × Plugin) : Type 0 where
      given : l.code ≡ last → o.0 ≡ plain l
      sound : IsSound o.1

    store_cache :
        (l : Load) (r : Injected) (s : Plugin)
        → (store_result digest inject shadow l r s).1.cache
          ≡ set_key l.path (digest l.code, r) s.cache
    unfolding store_result
    store_cache l r s = ground arith

    store_gives :
        (l : Load) (r : Injected) (s : Plugin)
        → l.shadow_ok ≡ true
        → (store_result digest inject shadow l r s).0 ≡ injected r
    unfolding store_result
    store_gives l r s h = ground arith

    IsCached-now :
        (l : Load) (r q : Injected) (path hash : Text)
        → is_jsx l.path ≡ true
        → inject l.code l.path ≡ some r
        → l.path ≡ path
        → ◌≡◌ {A = Text × Injected} (digest l.code, r) (hash, q)
        → Tells last l.code
        → IsCached path hash q
    IsCached-now l r q path hash j e p w x =
        let d : digest l.code ≡ hash = ap (λ x. x.0) w in
        let k : r ≡ q = ap (λ x. x.1) w in
        record { jsx = cc; code = l.code; tells = x; hashed = sym d; made = cc }

    store-IsSound :
        (l : Load) (r : Injected) (s : Plugin)
        → is_jsx l.path ≡ true
        → inject l.code l.path ≡ some r
        → Tells last l.code
        → IsSound s
        → IsSound (store_result digest inject shadow l r s).1
    unfolding IsSound
    store-IsSound l r s j e x h path hash q f =
        let g =
          sym (find_key-set_key path l.path (digest l.code, r) s.cache)
          ∙ sym (ap (find_key path) (store_cache l r s))
          ∙ f in
        elim (Bool-cases (text_eq l.path path)) [
          | inl same ↦
              IsCached-now l r q path hash j e ((text_eq_iff l.path path).0 same)
                (some-injective _ _ (rw same at g)) x
          | inr other ↦ h path hash q (rw other at g)
        ]

    inject-IsRight :
        (l : Load) (o : Option Injected) (s : Plugin)
        → inject l.code l.path ≡ o
        → is_jsx l.id ≡ true
        → l.in_node_modules ≡ false
        → IsPlain l
        → Tells last l.code
        → IsSound s
        → IsRight l (inject_result digest inject shadow l o s)
    unfolding plain
    inject-IsRight l none s e j n p x h = record { given = λ y. simp (n, j, e); sound = h }
    inject-IsRight l (some r) s e j n p x h = record {
      given = λ y. store_gives l r s p.takes ∙ sym (simp (n, j, e));
      sound = store-IsSound l r s (sym p.same_kind ∙ j) e x h;
    }

    base-IsRight :
        (l : Load) (s : Plugin)
        → l.in_node_modules ≡ false
        → IsPlain l
        → Tells last l.code
        → IsSound s
        → IsRight l (transform_base digest inject shadow l none s)
    unfolding transform_base plain
    base-IsRight l s n p x h = elim (Bool-cases (is_jsx l.id)) [
      | inl j ↦ rw j (inject-IsRight l (inject l.code l.path) s refl j n p x h)
      | inr other ↦ rw other (record { given = λ y. simp (n, other); sound = h })
    ]

    hit-IsRight :
        (l : Load) (hash : Text) (r : Injected) (s : Plugin)
        → IsCached l.path hash r
        → hash ≡ digest l.code
        → l.in_node_modules ≡ false
        → IsPlain l
        → IsSound s
        → IsRight l (injected r, s)
    unfolding plain
    hit-IsRight l hash r s c d n p h = record {
      given = λ y.
          let same : c.code ≡ l.code = c.tells (sym c.hashed ∙ d ∙ ap digest y) ∙ sym y in
          let e : inject l.code l.path ≡ some r = ap (λ x. inject x l.path) (sym same) ∙ c.made in
          let j : is_jsx l.id ≡ true = p.same_kind ∙ c.jsx in sym (simp (n, j, e));
      sound = h;
    }

    cached-IsRight :
        (l : Load) (o : Option (Text × Injected)) (s : Plugin)
        → find_key l.path s.cache ≡ o
        → l.in_node_modules ≡ false
        → IsPlain l
        → Tells last l.code
        → IsSound s
        → IsRight l (transform_cached digest inject shadow l o s)
    unfolding IsSound
    cached-IsRight l none s f n p x h = rw p.no_content (base-IsRight l s n p x h)
    cached-IsRight l (some (hash, r)) s f n p x h =
        elim (Bool-cases (text_eq hash (digest l.code))) [
          | inl same ↦ rw same (
              hit-IsRight l hash r s (h l.path hash r f) ((text_eq_iff hash (digest l.code)).0 same)
                n p h)
          | inr other ↦ rw (other, p.no_content) (base-IsRight l s n p x h)
        ]

    unless_modules :
        (l : Load) (s : Plugin) (b : Bool)
        → l.in_node_modules ≡ b
        → IsPlain l
        → Tells last l.code
        → IsSound s
        → IsRight l (
            if b
            then (unchanged, s)
            else transform_cached digest inject shadow l (find_key l.path s.cache) s)
    unfolding plain
    unless_modules l s true e p x h = record { given = λ y. simp e; sound = h }
    unless_modules l s false e p x h = cached-IsRight l (find_key l.path s.cache) s refl e p x h

    transform-IsRight :
        (l : Load) (s : Plugin)
        → IsPlain l
        → Tells last l.code
        → IsSound s
        → IsRight l (transform digest inject shadow l s)
    unfolding transform
    transform-IsRight l s p x h = unless_modules l s l.in_node_modules refl p x h

    load_all-IsSound :
        (ls : List Load) (s : Plugin)
        → All (λ l. IsPlain l × Tells last l.code) ls
        → IsSound s
        → IsSound (load_all digest inject shadow ls s)
    unfolding load_all
    load_all-IsSound [] s p h = h
    load_all-IsSound (l ∷ ls) s ((p, x), ps) h =
        load_all-IsSound ls _ ps (transform-IsRight l s p x h).sound

    empty-IsSound : IsSound new_plugin
    unfolding IsSound find_key
    empty-IsSound path hash r e = cc

  -- In a process with one plugin, if the digest tells the code of a load from the codes that were
  -- loaded before, the proxy never has content, the shadow directory takes each file and each path
  -- shows whether it is JSX as the ID does, then the load gives what it gives without a cache.
  pub transform-plain :
      (ls : List Load) (l : Load)
      → All (λ m. IsPlain m × Tells l.code m.code) ls
      → IsPlain l
      → (transform digest inject shadow l (load_all digest inject shadow ls new_plugin)).0 ≡ plain l
  transform-plain ls l ps p =
      (transform-IsRight l.code l _ p (λ e. refl)
          (load_all-IsSound l.code ls new_plugin ps (empty-IsSound l.code))).given
        refl

  hit :
      (l : Load) (s : Plugin) (hash : Text) (r : Injected)
      → l.in_node_modules ≡ false
      → find_key l.path s.cache ≡ some (hash, r)
      → hash ≡ digest l.code
      → transform digest inject shadow l s ≡ (injected r, s)
  unfolding transform
  hit l s hash r n f d = simp (n, f) (rw d (rw (text_eq_refl (digest l.code)) refl))

  stored :
      (l : Load) (r : Injected) (s : Plugin)
      → find_key l.path (store_result digest inject shadow l r s).1.cache ≡ some (digest l.code, r)
  stored l r s =
      ap (find_key l.path) (store_cache l.code l r s)
      ∙ find_key-set_key l.path l.path (digest l.code, r) s.cache
      ∙ rw (text_eq_refl l.path) refl

  -- Once a result is cached, the same code of the file gives it again, without a call of the
  -- registry, whatever virtual content the proxy has by then, even if the result was made from
  -- other virtual content.
  pub transform-stored :
      (l m : Load) (r : Injected) (s : Plugin)
      → m.path ≡ l.path
      → m.code ≡ l.code
      → m.in_node_modules ≡ false
      → transform digest inject shadow m (store_result digest inject shadow l r s).1
        ≡ (injected r, (store_result digest inject shadow l r s).1)
  transform-stored l m r s p c n =
      hit m (store_result digest inject shadow l r s).1 (digest l.code) r n
        (ap (λ k. find_key k (store_result digest inject shadow l r s).1.cache) p ∙ stored l r s)
        (ap digest (sym c))
