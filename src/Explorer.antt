-- ===== src/Explorer.antt =====
-- The explorer store of the webview: zenith-extension/webview-ui/src/stores/useExplorerStore.ts. A
-- `Set<string>` is the list of its members in insertion order.
pub mod Path
mod Tests
use zenith_extension.Prelude.{
  Bool, true, false, not, ◌||◌, Option, none, some, List, [], ◌∷◌, if◌then◌else◌, push,
}
use zenith_extension.Prelude.Text.{Text, text_eq}

mutual
  pub data TreeNode : Type 0 where
    -- `id`, `tagName`, `className`, `isZenithElement`, `componentName`, `children`
    tree_node : Text → Text → Text → Bool → Option Text → TreeNodes → TreeNode

  pub data TreeNodes : Type 0 where
    nil : TreeNodes
    cons : TreeNode → TreeNodes → TreeNodes

pub record State : Type 0 where
  pub tree : TreeNodes
  pub expanded_ids : List Text
  pub hidden_ids : List Text
  pub locked_ids : List Text

-- `set.has(id)`
unfoldable pub has : Text → List Text → Bool
has id [] = false
has id (j ∷ ids) = text_eq id j || has id ids

-- `set.delete(id)`
unfoldable pub delete : Text → List Text → List Text
delete id [] = []
delete id (j ∷ ids) = if text_eq id j then delete id ids else j ∷ delete id ids

-- `set.add(id)`
unfoldable pub add : Text → List Text → List Text
unfolding has
add id ids = if has id ids then ids else push ids id

-- The change of a set that the three toggles share.
unfoldable pub toggle : Text → List Text → List Text
unfolding has delete add
toggle id ids = if has id ids then delete id ids else add id ids

unfoldable pub set_tree : TreeNodes → State → State
set_tree tree s = record s { tree = tree }

unfoldable pub toggle_expanded : Text → State → State
unfolding toggle
toggle_expanded id s = record s { expanded_ids = toggle id s.expanded_ids }

unfoldable pub toggle_visibility : Text → State → State
unfolding toggle
toggle_visibility id s = record s { hidden_ids = toggle id s.hidden_ids }

unfoldable pub toggle_lock : Text → State → State
unfolding toggle
toggle_lock id s = record s { locked_ids = toggle id s.locked_ids }

abbrev pub found_or : Option (List Text) → Option (List Text) → Option (List Text)
found_or none later = later
found_or (some result) later = some result

-- `findPath`
module _ (target_id : Text) where
  unfoldable mutual
    pub find_path : TreeNodes → List Text → Option (List Text)
    find_path nil path = none
    find_path (cons n ns) path = let later = find_path ns path in found_or (find_in n path) later

    pub find_in : TreeNode → List Text → Option (List Text)
    find_in (tree_node id tag_name class_name is_zenith component_name children) path =
        let below = find_path children (push path id) in
        if text_eq id target_id then some path else below

-- `path.forEach(pid => next.add(pid))`
unfoldable pub add_all : List Text → List Text → List Text
unfolding add
add_all [] ids = ids
add_all (id ∷ path) ids = add_all path (add id ids)

-- `expandToId`
unfoldable pub expand_to_id : Text → TreeNodes → State → State
unfolding find_path add_all
expand_to_id id tree s = elim (find_path id tree []) [
  | none ↦ s
  | some path ↦ record s { expanded_ids = add_all path s.expanded_ids }
]
