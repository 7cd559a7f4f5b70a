-- ===== src/Commands/Format.antt =====
-- internal/format: what listings and searches print, less the forms with times and sizes.
use llmd.Prelude.{
  ℕ, suc, Bool, true, false, not, ◌&&◌, List, [], ◌∷◌, ◌++◌, Bytes, codes, str_eq, str_le, length,
  take, is_null, ltb, if◌then◌else◌,
}
use llmd.Text.{split, trim_suffix, contains}
use llmd.Text.Numbers.{itoa}
use llmd.Path.{slash}
use llmd.Store.{Document}
use llmd.Cat.{newline}

abbrev is_deleted : Document → Bool
is_deleted d = not (is_null d.deleted_at)

-- List
unfoldable pub list : List Document → Bytes
list [] = []
list (d ∷ docs) =
    d.key
    ++ (codes "  "
        ++ ((if is_deleted d then codes "[deleted] " else []) ++ (d.path ++ newline ∷ list docs)))

-- Paths
unfoldable pub paths : List Document → Bytes
paths [] = []
paths (d ∷ docs) = d.path ++ newline ∷ paths docs

-- A line of at most 80 bytes, or its first 77 and three dots.
abbrev display : Bytes → Bytes
display line = if ltb 80 (length line) then take 77 line ++ codes "..." else line

unfoldable pub matching_lines : (Bytes → Bytes) → Bytes → Bytes → ℕ → List Bytes → Bytes
unfolding contains itoa
matching_lines to_lower query path n [] = []
matching_lines to_lower query path n (l ∷ ls) =
    let rest = matching_lines to_lower query path (suc n) ls in
    if contains (to_lower l) query
    then path ++ (codes ":" ++ (itoa (suc n) ++ (codes ": " ++ (display l ++ newline ∷ rest))))
    else rest

-- SearchResults
unfoldable pub search_results : (Bytes → Bytes) → Bytes → List Document → Bytes
unfolding trim_suffix split matching_lines
search_results to_lower query [] = []
search_results to_lower query (d ∷ docs) =
    matching_lines to_lower (to_lower (trim_suffix query (codes "*"))) d.path 0
      (split newline d.content)
    ++ search_results to_lower query docs

-- Tree: the nodes below a name, in the order of the names
mutual
  pub data Tree : Type 0 where
    node : (is_doc deleted : Bool) → Nodes → Tree

  pub data Nodes : Type 0 where
    none : Nodes
    child : Bytes → Tree → Nodes → Nodes

abbrev new_node : Tree
new_node = node false false none

unfoldable pub change_child : Bytes → (Tree → Tree) → Nodes → Nodes
unfolding str_eq str_le
change_child name f none = child name (f new_node) none
change_child name f (child n t rest) =
    let later = child n t (change_child name f rest) in
    if str_eq n name
    then child n (f t) rest
    else if str_le name n
    then child name (f new_node) (child n t rest)
    else later

abbrev as_document : Bool → Tree → Tree
as_document deleted (node _ _ below) = node true deleted below

abbrev with_below : (Nodes → Nodes) → Tree → Tree
with_below f (node is_doc deleted below) = node is_doc deleted (f below)

unfoldable pub insert_path : List Bytes → Bool → Nodes → Nodes
unfolding change_child
insert_path [] deleted root = root
insert_path (p ∷ []) deleted root = change_child p (as_document deleted) root
insert_path (p ∷ q ∷ ps) deleted root =
    change_child p (with_below (insert_path (q ∷ ps) deleted)) root

unfoldable pub build_tree : List Document → Nodes → Nodes
unfolding insert_path split
build_tree [] root = root
build_tree (d ∷ docs) root = build_tree docs (insert_path (split slash d.path) (is_deleted d) root)

-- `├── `, `└── ` and `│   ` as bytes
abbrev pub connector : Bool → Bytes
connector false = 226 ∷ 148 ∷ 156 ∷ 226 ∷ 148 ∷ 128 ∷ 226 ∷ 148 ∷ 128 ∷ 32 ∷ []
connector true = 226 ∷ 148 ∷ 148 ∷ 226 ∷ 148 ∷ 128 ∷ 226 ∷ 148 ∷ 128 ∷ 32 ∷ []

abbrev margin : Bool → Bytes
margin false = 226 ∷ 148 ∷ 130 ∷ 32 ∷ 32 ∷ 32 ∷ []
margin true = codes "    "

abbrev is_none : Nodes → Bool
is_none none = true
is_none _ = false

abbrev suffix : Bool → Bool → Bool → Bytes
suffix is_doc deleted leaf =
    (if not is_doc && not leaf then codes "/" else [])
    ++ (if deleted then codes " [deleted]" else [])

unfoldable mutual
  pub print_nodes : Bytes → Nodes → Bytes
  print_nodes pre none = []
  print_nodes pre (child name t rest) = print_node pre (is_none rest) name t ++ print_nodes pre rest

  pub print_node : Bytes → Bool → Bytes → Tree → Bytes
  print_node pre last name (node is_doc deleted below) =
      pre
      ++ (connector last
          ++ (name
              ++ (suffix is_doc deleted (is_none below)
                  ++ newline ∷ print_nodes (pre ++ margin last) below)))

-- Tree
unfoldable pub tree : List Document → Bytes
unfolding build_tree print_nodes print_node
tree docs = print_nodes [] (build_tree docs none)
