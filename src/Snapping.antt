-- ===== src/Snapping.antt =====
-- `getSnapping` of zenith-extension/webview-ui/src/utils/snapUtils.ts. Rectangles have whole pixels;
-- lines and results are counted in half pixels, since a center is half a width away, so that the
-- threshold is 20 and two distances within 0.1 are equal.
pub mod Pairs
pub mod Nearest
mod Tests
use zenith_extension.Prelude.{
  ℕ, ◌+◌, Bool, true, false, ◌&&◌, Option, none, some, List, [], ◌∷◌, ltb, ◌==◌, push,
  if◌then◌else◌,
}
use zenith_extension.Prelude.Int.{ℤ, pos, pos_part, neg_part, ◌+ℤ◌, ◌-ℤ◌}
use zenith_extension.Prelude.Text.{Text, text_eq}

pub record SnapRect : Type 0 where
  pub x : ℤ
  pub y : ℤ
  pub width : ℤ
  pub height : ℤ

pub record SnapTarget : Type 0 where
  pub id : Text
  pub rect : SnapRect

-- The numbers 0, 1 and 2 of `activeEdges`.
pub data Edge : Type 0 where
  low center high : Edge

abbrev pub all_edges : List Edge
all_edges = low ∷ center ∷ high ∷ []

-- One axis of a rectangle: where it starts and how long it is, in pixels.
pub record Span : Type 0 where
  pub origin : ℤ
  pub size : ℤ

abbrev pub snap_threshold : ℕ
snap_threshold = 20

-- `Math.abs`
abbrev pub abs : ℤ → ℕ
abs z = pos_part z + neg_part z

unfoldable pub edge_of : Span → Edge → ℤ
edge_of s low = s.origin +ℤ s.origin
edge_of s center = (s.origin +ℤ s.origin) +ℤ s.size
edge_of s high = (s.origin +ℤ s.origin) +ℤ (s.size +ℤ s.size)

-- `minDiffX`, `snapX` and `result.guides.x`, and the same for the other axis.
pub record Best : Type 0 where
  pub min_diff : ℕ
  pub snap : Option ℤ
  pub guides : List ℤ

abbrev pub no_snap : Best
no_snap = record { min_diff = snap_threshold; snap = none; guides = [] }

abbrev pub has_snap : Option ℤ → Bool
has_snap none = false
has_snap (some v) = true

-- The body of the inner loop, for an edge `c` of the rectangle and an edge `t` of a target.
unfoldable pub consider : (start c t : ℤ) → Best → Best
consider start c t b =
    if ltb (abs (c -ℤ t)) b.min_diff
    then record { min_diff = abs (c -ℤ t); snap = some (start +ℤ (t -ℤ c)); guides = t ∷ [] }
    else if ltb (abs (c -ℤ t)) snap_threshold && has_snap b.snap && abs (c -ℤ t) == b.min_diff
    then record b { guides = push b.guides t }
    else b

-- The loop over the edges of a target, for one edge of the rectangle.
unfoldable pub consider_all : (start c : ℤ) → Span → Best → Best
unfolding consider edge_of
consider_all start c t b =
    consider start c (edge_of t high)
      (consider start c (edge_of t center) (consider start c (edge_of t low) b))

unfoldable pub scan_edges : Span → List Edge → Span → Best → Best
unfolding consider_all
scan_edges s [] t b = b
scan_edges s (i ∷ is) t b = scan_edges s is t (consider_all (edge_of s low) (edge_of s i) t b)

-- `target.id === excludeId`
abbrev pub is_excluded : Text → Option Text → Bool
is_excluded id none = false
is_excluded id (some e) = text_eq id e

unfoldable pub scan_targets :
    (axis : SnapRect → Span) (s : Span) (edges : List Edge) (exclude : Option Text)
    → List SnapTarget
    → Best
    → Best
unfolding scan_edges
scan_targets axis s edges exclude [] b = b
scan_targets axis s edges exclude (t ∷ ts) b =
    scan_targets axis s edges exclude ts
      (if is_excluded t.id exclude then b else scan_edges s edges (axis t.rect) b)

pub record AxisResult : Type 0 where
  pub place : ℤ
  pub guides : List ℤ

unfoldable pub place_of : (start : ℤ) → Option ℤ → ℤ
place_of start none = start
place_of start (some v) = v

abbrev pub edges_or_all : Option (List Edge) → List Edge
edges_or_all none = all_edges
edges_or_all (some es) = es

unfoldable pub snap_axis :
    (axis : SnapRect → Span)
    → SnapRect
    → List SnapTarget
    → Option Text
    → Option (List Edge)
    → AxisResult
unfolding scan_targets place_of
snap_axis axis rect targets exclude edges =
    let b = scan_targets axis (axis rect) (edges_or_all edges) exclude targets no_snap in
    record { place = place_of (edge_of (axis rect) low) b.snap; guides = b.guides }

abbrev pub x_axis : SnapRect → Span
x_axis r = record { origin = r.x; size = r.width }

abbrev pub y_axis : SnapRect → Span
y_axis r = record { origin = r.y; size = r.height }

pub record SnapResult : Type 0 where
  pub x : AxisResult
  pub y : AxisResult

-- The loop over the targets treats both axes in one pass; neither reads what the other writes.
unfoldable pub get_snapping :
    SnapRect → List SnapTarget → (exclude : Option Text) → (xs ys : Option (List Edge)) → SnapResult
unfolding snap_axis
get_snapping rect targets exclude xs ys = record {
  x = snap_axis x_axis rect targets exclude xs;
  y = snap_axis y_axis rect targets exclude ys;
}
