-- ===== src/Explorer/Tests.antt =====
-- The explorer at a concrete tree: `<main><div><b/></div></main>`.
use zenith_extension.Prelude.{◌≡◌, true, ◌||◌, none, List, [], ◌∷◌}
use zenith_extension.Prelude.Text.{Text, codes}
use zenith_extension.Explorer.{TreeNode, TreeNodes, tree_node, nil, cons, State, has, expand_to_id}
use zenith_extension.Explorer.Path.{Leads, here, inside, expand_to_id-Leads}

abbrev tag : Text → TreeNodes → TreeNode
tag name children = tree_node name name [] true none children

abbrev page : TreeNodes
page = cons (tag (codes "main") (cons (tag (codes "div") (cons (tag (codes "b") nil) nil)) nil)) nil

abbrev closed : State
closed = record { tree = page; expanded_ids = codes "x" ∷ []; hidden_ids = []; locked_ids = [] }

b-Leads : Leads page (codes "main" ∷ codes "div" ∷ []) (codes "b")
b-Leads = inside (codes "main") (codes "main") [] true none _ nil (
    inside (codes "div") (codes "div") [] true none _ nil
      (here (codes "b") (codes "b") [] true none nil nil))

expand_to_id-Leads_example :
    (path : List Text) × Leads page path (codes "b")
    × ((j : Text)
        → has j (expand_to_id (codes "b") page closed).expanded_ids
          ≡ (has j path || has j closed.expanded_ids))
expand_to_id-Leads_example =
    expand_to_id-Leads (codes "b") page (codes "main" ∷ codes "div" ∷ []) closed b-Leads
