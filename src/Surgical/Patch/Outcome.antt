-- ===== src/Surgical/Patch/Outcome.antt =====
-- When `patchSourceFile` succeeds, and what it changes.
use mathlib.Core.Path.{fun_ext}
use zenith_extension.Prelude.{
  ℕ, ◌≡◌, refl, Bool, true, false, not, ◌&&◌, ◌||◌, none, Bool-cases, ◌⊎◌, inl, inr, arith,
  if◌then◌else◌,
}
use zenith_extension.Jsx.{Node}
use zenith_extension.Surgical.Resolve.{Target, is_dynamic}
use zenith_extension.Surgical.Locate.{
  Error, collision, logic_locked, runtime_error, Result, ok, err, is_given, resolve,
}
use zenith_extension.Surgical.Patch.{
  Instructions, is_some, is_structural, edit, update, tag_at, is_mismatch, apply, patch,
}
use zenith_extension.Surgical.Patch.Locality.{outside, outside-update, update_id}

cascade :
    (mismatch lock delete moves : Bool) (removed : Result Node) (x ast' : Node)
    → delete ≡ false
    → (if mismatch
        then err collision
        else if lock
        then err logic_locked
        else if delete
        then removed
        else if moves
        then err runtime_error
        else ok x)
      ≡ ok ast'
    → (moves ≡ false) × (lock ≡ false) × (x ≡ ast')
cascade mismatch lock delete moves removed x ast' h e = ground arith

unlocked :
    (structural locked dynamic : Bool)
    → (not structural && (locked || dynamic)) ≡ false
    → (structural ≡ true) ⊎ ((locked ≡ false) × (dynamic ≡ false))
unlocked true locked dynamic h = inl refl
unlocked false locked dynamic h = inr (ground arith, ground arith)

Result-cases {ℓ} :
    {A : Type ℓ} (r : Result A) → ((a : A) × (r ≡ ok a)) ⊎ ((e : Error) × (r ≡ err e))
Result-cases (ok a) = inl (a, refl)
Result-cases (err e) = inr (e, refl)

edit_of_none :
    (i : Instructions)
    → i.styles ≡ none
    → i.class_name ≡ none
    → i.text_content ≡ none
    → i.content_update ≡ none
    → i.insert ≡ none
    → edit i ≡ (λ p. p)
unfolding edit
edit_of_none i s c t u n = fun_ext (λ p. rw (s, c, t, u, n))

module _ (remove_path : ℕ → Node → Node) where
  pub patch-eq-apply :
      (i : Instructions) (t : Target) (ast : Node)
      → resolve i.zenith_id i.fingerprint ast ≡ ok t
      → patch remove_path i ast ≡ apply remove_path i t ast
  unfolding patch
  patch-eq-apply i t ast h = rw (h, patch)

  patch-eq-err :
      (i : Instructions) (x : Error) (ast : Node)
      → resolve i.zenith_id i.fingerprint ast ≡ err x
      → patch remove_path i ast ≡ err x
  unfolding patch
  patch-eq-err i x ast h = rw (h, patch)

  -- If a patch that deletes nothing succeeds, then its ID was resolved, it asked for no
  -- reparenting, its target is unlocked unless the patch is structural, the result is the tree with
  -- the target edited, and outside of the target nothing has changed.
  pub patch-eq-ok :
      (i : Instructions) (ast ast' : Node)
      → i.delete ≡ false
      → patch remove_path i ast ≡ ok ast'
      → (t : Target) × (resolve i.zenith_id i.fingerprint ast ≡ ok t)
        × (is_some i.reparent ≡ false)
        × ((is_structural i ≡ true) ⊎ ((t.locked ≡ false) × (is_dynamic t.origin ≡ false)))
        × (update t.loc (edit i) ast ≡ ast')
        × (outside t.loc ast' ≡ outside t.loc ast)
  patch-eq-ok i ast ast' h e = elim (Result-cases (resolve i.zenith_id i.fingerprint ast)) [
    | inr (x, r) ↦ cc (e, patch-eq-err i x ast r)
    | inl (t, r) ↦
        let (moves, lock, same) = applied t (rw (patch-eq-apply i t ast r) at e) in
        (
          t,
          r,
          moves,
          unlocked (is_structural i) t.locked (is_dynamic t.origin) lock,
          same,
          rw (← same) (outside-update t.loc (edit i) ast),
        )
  ]
    where
      applied :
          (t : Target)
          → apply remove_path i t ast ≡ ok ast'
          → (is_some i.reparent ≡ false)
            × ((not (is_structural i) && (t.locked || is_dynamic t.origin)) ≡ false)
            × (update t.loc (edit i) ast ≡ ast')
      applied t k = unfold apply in cascade _ _ _ _ _ _ _ h k

  -- If a patch without deletion, styles, class name, text, content update and insertion succeeds, it
  -- changes nothing, also where it asks for duplicating, moving, grouping or ungrouping.
  pub patch-noop :
      (i : Instructions) (ast ast' : Node)
      → i.delete ≡ false
      → i.styles ≡ none
      → i.class_name ≡ none
      → i.text_content ≡ none
      → i.content_update ≡ none
      → i.insert ≡ none
      → patch remove_path i ast ≡ ok ast'
      → ast' ≡ ast
  patch-noop i ast ast' d s c t u n e =
      let (x, _, _, _, same, _) = patch-eq-ok i ast ast' d e in
      rw (← same) (rw (edit_of_none i s c t u n) (update_id x.loc ast))

  apply-expected_tag :
      (i : Instructions) (t : Target) (ast : Node)
      → t.locked ≡ false
      → is_given i.fingerprint ≡ true
      → apply remove_path i t ast ≡ apply remove_path (record i { expected_tag = none }) t ast
  unfolding apply is_structural edit
  apply-expected_tag i t ast u g =
      elim (Bool-cases (is_mismatch i.expected_tag (tag_at t.loc ast))) [
        | inl y ↦ rw (g, u, y)
        | inr n ↦ rw (g, u, n)
      ]

  -- If the ID resolves to an unlocked target and a fingerprint is given, the expected tag is not
  -- enforced: the patch has the outcome of the same patch without it.
  pub patch-expected_tag :
      (i : Instructions) (t : Target) (ast : Node)
      → resolve i.zenith_id i.fingerprint ast ≡ ok t
      → t.locked ≡ false
      → is_given i.fingerprint ≡ true
      → patch remove_path i ast ≡ patch remove_path (record i { expected_tag = none }) ast
  patch-expected_tag i t ast r u g =
      let j = record i { expected_tag = none } in
      rw (patch-eq-apply i t ast r, patch-eq-apply j t ast r) (apply-expected_tag i t ast u g)
