-- ===== src/Hash/Tests.antt =====
-- The name of a concrete workspace.
use zenith_extension.Prelude.{◌≡◌, refl, true, length, arith}
use zenith_extension.Prelude.Text.{Text, codes}
use zenith_extension.Hash.{fnv1a, fnv1a_u32}
use zenith_extension.Hash.Hex.{normalized, workspace_hash, read_hex, workspace_hash-fnv1a}

abbrev root : Text
root = codes "C:/Site"

print_root : workspace_hash true (codes "a") ≡ codes "e40c292c"
unfolding workspace_hash fnv1a_u32
print_root = refl

workspace_hash-fnv1a_example :
    (length (workspace_hash true root) ≡ 8)
    × (read_hex 0 (workspace_hash true root) ≡ fnv1a 2166136261 (normalized true root))
unfolding normalized
workspace_hash-fnv1a_example = workspace_hash-fnv1a true root (omega arith)
