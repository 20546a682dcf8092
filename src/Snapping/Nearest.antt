-- ===== src/Snapping/Nearest.antt =====
-- Where `getSnapping` of zenith-extension/webview-ui/src/utils/snapUtils.ts puts a rectangle.
use zenith_extension.Prelude.{
  ℕ, ◌≤◌, ◌<◌, ◌≡◌, refl, Bool, true, false, Option, none, some, List, [], ◌∷◌, ◌++◌, append_assoc,
  append-nil, ltb, sym, ap, if◌then◌else◌, arith,
}
use mathlib.Core.Path.{subst}
use zenith_extension.Prelude.Int.{ℤ, ◌+ℤ◌, ◌-ℤ◌}
use zenith_extension.Prelude.Text.{Text}
use zenith_extension.Snapping.Pairs.{
  Pair, distance, Among, AllFrom, pairs_of_edge, pairs_of_edges, pairs_of, IsNearest, unmoved,
  moved, AllFrom-push, AllFrom-weaken, Among-last, Among-push,
}
use zenith_extension.Snapping.{
  SnapRect, SnapTarget, Edge, low, center, high, Span, snap_threshold, edge_of, Best, no_snap,
  consider, consider_all, scan_edges, is_excluded, scan_targets, place_of, edges_or_all, snap_axis,
  x_axis, y_axis, get_snapping,
}

-- What the loops keep, for the pairs seen so far.
unfoldable Tracks : ℤ → List Pair → ℕ → Option ℤ → Type 0
Tracks start ps m none = (m ≡ snap_threshold) × AllFrom snap_threshold ps
Tracks start ps m (some v) =
    (p : Pair) × Among p ps
    × (distance p ≡ m)
    × (m < snap_threshold)
    × AllFrom m ps
    × (v ≡ start +ℤ (p.other -ℤ p.own))

Tracks-min :
    (start : ℤ) (ps : List Pair) (m : ℕ) (s : Option ℤ)
    → Tracks start ps m s
    → (m ≤ snap_threshold) × AllFrom m ps
unfolding Tracks
Tracks-min start ps m none (e, a) = rw (e) (omega arith, a)
Tracks-min start ps m (some v) (p, i, d, h, a, e) = (omega arith, a)

-- A pair that is no closer leaves what is tracked.
Tracks-farther :
    (start : ℤ) (ps : List Pair) (m : ℕ) (s : Option ℤ) (q : Pair)
    → Tracks start ps m s
    → m ≤ distance q
    → Tracks start (ps ++ q ∷ []) m s
unfolding Tracks
Tracks-farther start ps m none q (e, a) h = (e, AllFrom-push _ ps q a (omega arith))
Tracks-farther start ps m (some v) q (p, i, d, k, a, e) h =
    (p, Among-push ps q i, d, k, AllFrom-push m ps q a h, e)

-- A closer pair is tracked.
Tracks-closer :
    (start : ℤ) (ps : List Pair) (m : ℕ) (s : Option ℤ) (q : Pair)
    → Tracks start ps m s
    → distance q < m
    → Tracks start (ps ++ q ∷ []) (distance q) (some (start +ℤ (q.other -ℤ q.own)))
unfolding Tracks
Tracks-closer start ps m s q t h =
    let (k, a) = Tracks-min start ps m s t in
    (
      q,
      Among-last ps q,
      refl,
      omega arith,
      AllFrom-push _ ps q (AllFrom-weaken _ m ps (omega arith) a) (omega arith),
      refl,
    )

Keeps : ℤ → List Pair → Best → Type 0
Keeps start ps b = Tracks start ps b.min_diff b.snap

test-Keeps :
    (start : ℤ) (ps : List Pair) (x y : Bool) (b₁ b₂ b₃ : Best)
    → (x ≡ true → Keeps start ps b₁)
    → (x ≡ false → Keeps start ps b₂)
    → (x ≡ false → Keeps start ps b₃)
    → Keeps start ps (if x then b₁ else if y then b₂ else b₃)
test-Keeps start ps true y b₁ b₂ b₃ f g h = f refl
test-Keeps start ps false true b₁ b₂ b₃ f g h = g refl
test-Keeps start ps false false b₁ b₂ b₃ f g h = h refl

ltb_lt : (a b : ℕ) → ltb a b ≡ true → a < b
ltb_lt a b h = ground arith

ltb_ge : (a b : ℕ) → ltb a b ≡ false → b ≤ a
ltb_ge a b h = ground arith

consider-Keeps :
    (start : ℤ) (ps : List Pair) (q : Pair) (b : Best)
    → Keeps start ps b
    → Keeps start (ps ++ q ∷ []) (consider start q.own q.other b)
unfolding consider distance Keeps
consider-Keeps start ps q b t =
    test-Keeps start (ps ++ q ∷ []) _ _ _ _ _
      (λ h. Tracks-closer start ps b.min_diff b.snap q t (ltb_lt _ _ h))
      (λ h. Tracks-farther start ps b.min_diff b.snap q t (ltb_ge _ _ h))
      (λ h. Tracks-farther start ps b.min_diff b.snap q t (ltb_ge _ _ h))

consider_all-Keeps :
    (start c : ℤ) (t : Span) (ps : List Pair) (b : Best)
    → Keeps start ps b
    → Keeps start (ps ++ pairs_of_edge c t) (consider_all start c t b)
unfolding consider_all pairs_of_edge
consider_all-Keeps start c t ps b k =
    subst (λ qs. Keeps start qs (consider_all start c t b)) (three ps _ _ _)
      (consider-Keeps start _ (record { own = c; other = edge_of t high }) _
        (consider-Keeps start _ (record { own = c; other = edge_of t center }) _
          (consider-Keeps start ps (record { own = c; other = edge_of t low }) b k)))
  where
    three :
        (qs : List Pair) (p q r : Pair)
        → (((qs ++ p ∷ []) ++ q ∷ []) ++ r ∷ []) ≡ qs ++ p ∷ q ∷ r ∷ []
    three [] p q r = refl
    three (x ∷ qs) p q r = ap (λ l. x ∷ l) (three qs p q r)

scan_edges-Keeps :
    (s t : Span) (is : List Edge) (ps : List Pair) (b : Best)
    → Keeps (edge_of s low) ps b
    → Keeps (edge_of s low) (ps ++ pairs_of_edges s is t) (scan_edges s is t b)
unfolding scan_edges pairs_of_edges
scan_edges-Keeps s t [] ps b k = subst (λ qs. Keeps (edge_of s low) qs b) (sym (append-nil ps)) k
scan_edges-Keeps s t (i ∷ is) ps b k =
    subst (λ qs. Keeps (edge_of s low) qs (scan_edges s (i ∷ is) t b)) (append_assoc ps _ _)
      (scan_edges-Keeps s t is _ _ (consider_all-Keeps (edge_of s low) (edge_of s i) t ps b k))

scan_targets-Keeps :
    (axis : SnapRect → Span) (s : Span) (is : List Edge) (e : Option Text) (ts : List SnapTarget)
    (ps : List Pair) (b : Best)
    → Keeps (edge_of s low) ps b
    → Keeps (edge_of s low) (ps ++ pairs_of axis s is e ts) (scan_targets axis s is e ts b)
unfolding scan_targets pairs_of
scan_targets-Keeps axis s is e [] ps b k =
    subst (λ qs. Keeps (edge_of s low) qs b) (sym (append-nil ps)) k
scan_targets-Keeps axis s is e (t ∷ ts) ps b k =
    subst (λ qs. Keeps (edge_of s low) qs (scan_targets axis s is e (t ∷ ts) b))
      (append_assoc ps _ _) (scan_targets-Keeps axis s is e ts _ _ (one (is_excluded t.id e)))
  where
    one :
        (x : Bool)
        → Keeps
            (edge_of s low)
            (ps ++ (if x then [] else pairs_of_edges s is (axis t.rect)))
            (if x then b else scan_edges s is (axis t.rect) b)
    one true = subst (λ qs. Keeps (edge_of s low) qs b) (sym (append-nil ps)) k
    one false = scan_edges-Keeps s (axis t.rect) is ps b k

Tracks-IsNearest :
    (start : ℤ) (ps : List Pair) (m : ℕ) (s : Option ℤ)
    → Tracks start ps m s
    → IsNearest start ps (place_of start s)
unfolding Tracks place_of
Tracks-IsNearest start ps m none (e, a) = unmoved a
Tracks-IsNearest start ps m (some v) (p, i, d, h, a, e) =
    subst (IsNearest start ps) (sym e)
      (moved p i (omega arith) (AllFrom-weaken _ m ps (omega arith) a))

no_snap-Keeps : (start : ℤ) → Keeps start [] no_snap
unfolding Keeps Tracks AllFrom
no_snap-Keeps start = (refl, tt)

snap_axis-IsNearest :
    (axis : SnapRect → Span) (r : SnapRect) (ts : List SnapTarget) (e : Option Text)
    (is : Option (List Edge))
    → IsNearest
        (edge_of (axis r) low)
        (pairs_of axis (axis r) (edges_or_all is) e ts)
        (snap_axis axis r ts e is).place
unfolding snap_axis Keeps
snap_axis-IsNearest axis r ts e is =
    Tracks-IsNearest (edge_of (axis r) low) _ _ _
      (scan_targets-Keeps axis (axis r) (edges_or_all is) e ts [] no_snap (no_snap-Keeps _))

-- On each axis, `getSnapping` puts the rectangle at a nearest place: where no active edge is within
-- ten pixels of a target's edge it stays, and otherwise it moves by the distance of a closest pair of
-- an active edge and an edge of a target that is not excluded.
pub get_snapping-IsNearest :
    (r : SnapRect) (ts : List SnapTarget) (e : Option Text) (xs ys : Option (List Edge))
    → IsNearest
        (edge_of (x_axis r) low)
        (pairs_of x_axis (x_axis r) (edges_or_all xs) e ts)
        (get_snapping r ts e xs ys).x.place
      × IsNearest
          (edge_of (y_axis r) low)
          (pairs_of y_axis (y_axis r) (edges_or_all ys) e ts)
          (get_snapping r ts e xs ys).y.place
unfolding get_snapping
get_snapping-IsNearest r ts e xs ys =
    (snap_axis-IsNearest x_axis r ts e xs, snap_axis-IsNearest y_axis r ts e ys)
