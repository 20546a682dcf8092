-- ===== src/Snapping/Pairs.antt =====
-- The pairs of lines that the loops of `getSnapping` in
-- zenith-extension/webview-ui/src/utils/snapUtils.ts compare, and what a nearest place is.
use zenith_extension.Prelude.{ℕ, ◌≤◌, ◌<◌, Option, List, [], ◌∷◌, ◌++◌, map, if◌then◌else◌, arith}
use zenith_extension.Prelude.Int.{ℤ, ◌+ℤ◌, ◌-ℤ◌}
use zenith_extension.Prelude.Text.{Text}
use zenith_extension.Snapping.{
  SnapRect, SnapTarget, Edge, all_edges, Span, snap_threshold, abs, edge_of, is_excluded,
}

-- An edge of the rectangle and an edge of a target.
pub record Pair : Type 0 where
  pub own : ℤ
  pub other : ℤ

unfoldable pub distance : Pair → ℕ
distance p = abs (p.own -ℤ p.other)

pub data Among (p : Pair) : List Pair → Type 0 where
  here : {ps : List Pair} → Among p (p ∷ ps)
  there : {q : Pair} {ps : List Pair} → Among p ps → Among p (q ∷ ps)

-- No pair is closer than `n`.
unfoldable pub AllFrom : ℕ → List Pair → Type 0
AllFrom n [] = Unit
AllFrom n (p ∷ ps) = (n ≤ distance p) × AllFrom n ps

-- All pairs of an active edge and a target's edge, in the order of the loops.
unfoldable pub pairs_of_edge : ℤ → Span → List Pair
pairs_of_edge c t = map (λ e. record { own = c; other = edge_of t e }) all_edges

unfoldable pub pairs_of_edges : Span → List Edge → Span → List Pair
pairs_of_edges s [] t = []
pairs_of_edges s (i ∷ is) t = pairs_of_edge (edge_of s i) t ++ pairs_of_edges s is t

unfoldable pub pairs_of :
    (axis : SnapRect → Span) (s : Span) (edges : List Edge) (exclude : Option Text)
    → List SnapTarget
    → List Pair
pairs_of axis s edges exclude [] = []
pairs_of axis s edges exclude (t ∷ ts) =
    (if is_excluded t.id exclude then [] else pairs_of_edges s edges (axis t.rect))
    ++ pairs_of axis s edges exclude ts

-- A place that is nearest: no pair is within ten pixels and the rectangle stays, or it moves by what
-- a closest pair is apart, which is less than ten pixels.
pub data IsNearest (start : ℤ) (ps : List Pair) : ℤ → Type 0 where
  unmoved : AllFrom snap_threshold ps → IsNearest start ps start
  moved :
      (p : Pair)
      → Among p ps
      → distance p < snap_threshold
      → AllFrom (distance p) ps
      → IsNearest start ps (start +ℤ (p.other -ℤ p.own))

pub AllFrom-push :
    (n : ℕ) (ps : List Pair) (q : Pair) → AllFrom n ps → n ≤ distance q → AllFrom n (ps ++ q ∷ [])
unfolding AllFrom
AllFrom-push n [] q a h = (h, tt)
AllFrom-push n (p ∷ ps) q (k, a) h = (k, AllFrom-push n ps q a h)

pub AllFrom-weaken : (m n : ℕ) (ps : List Pair) → m ≤ n → AllFrom n ps → AllFrom m ps
unfolding AllFrom
AllFrom-weaken m n [] h a = tt
AllFrom-weaken m n (p ∷ ps) h (k, a) = (omega arith, AllFrom-weaken m n ps h a)

pub Among-last : (ps : List Pair) (q : Pair) → Among q (ps ++ q ∷ [])
Among-last [] q = here
Among-last (p ∷ ps) q = there (Among-last ps q)

pub Among-push : {p : Pair} (ps : List Pair) (q : Pair) → Among p ps → Among p (ps ++ q ∷ [])
Among-push [] q x = elim x [ ]
Among-push (p ∷ ps) q here = here
Among-push (p ∷ ps) q (there a) = there (Among-push ps q a)
