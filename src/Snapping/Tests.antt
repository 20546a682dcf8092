-- ===== src/Snapping/Tests.antt =====
-- Runs of `getSnapping` of zenith-extension/webview-ui/src/utils/snapUtils.ts, and the instance of its
-- property.
use zenith_extension.Prelude.{◌≡◌, refl, none, some, List, [], ◌∷◌}
use zenith_extension.Prelude.Int.{pos, negsuc, ◌+ℤ◌, ◌-ℤ◌}
use zenith_extension.Prelude.Text.{codes, text_eq}
use zenith_extension.Snapping.{
  SnapRect, SnapTarget, low, high, get_snapping, edge_of, x_axis, y_axis, edges_or_all,
}
use zenith_extension.Snapping.Pairs.{IsNearest, pairs_of}
use zenith_extension.Snapping.Nearest.{get_snapping-IsNearest}

abbrev box : SnapRect
box = record { x = pos 103; y = negsuc 49; width = pos 20; height = pos 10 }

abbrev scene : List SnapTarget
scene =
    record {
      id = codes "a";
      rect = record { x = pos 100; y = pos 0; width = pos 50; height = pos 50 };
    }
    ∷ record { id = codes "b"; rect = box }
    ∷ []

-- The right edge is two pixels from the center of the target, the closest pair; nothing is near on the other axis.
box_place : (get_snapping box scene (some (codes "b")) none none).x.place ≡ pos 210
unfolding get_snapping edge_of text_eq ◌+ℤ◌ ◌-ℤ◌
box_place = refl

box_height : (get_snapping box scene (some (codes "b")) none none).y.place ≡ negsuc 99
unfolding get_snapping edge_of text_eq ◌+ℤ◌ ◌-ℤ◌
box_height = refl

-- Dragging the right edge moves the left one, and the width stays.
right_edge_place :
    (get_snapping
      (record box { x = pos 75; width = pos 30 })
      scene
      (some (codes "b"))
      (some (high ∷ []))
      none).x.place
    ≡ pos 140
unfolding get_snapping edge_of text_eq ◌+ℤ◌ ◌-ℤ◌
right_edge_place = refl

get_snapping-IsNearest_example :
    IsNearest
      (edge_of (x_axis box) low)
      (pairs_of x_axis (x_axis box) (edges_or_all none) (some (codes "b")) scene)
      (get_snapping box scene (some (codes "b")) none none).x.place
    × IsNearest
        (edge_of (y_axis box) low)
        (pairs_of y_axis (y_axis box) (edges_or_all none) (some (codes "b")) scene)
        (get_snapping box scene (some (codes "b")) none none).y.place
get_snapping-IsNearest_example = get_snapping-IsNearest box scene (some (codes "b")) none none
