-- ===== src/NgraphNodes.antt =====
-- ngraph_creator/src/NgraphNodes.cpp: the nodes of the graph under construction, by operand.
pub mod Names
pub mod Calls
pub mod Parameters
use text.Mathlib.Text.{◌==◌ as str_eq}
use nn_hal.Prelude.{
  ℕ, Bool, true, false, String, List, [], ◌∷◌, ◌++◌, Option, none, some, Result, ok, fault,
  undefined, ◌>>=◌, at, replicate, ◌==◌, ltb, length, if◌then◌else◌,
}
use nn_hal.Prelude.{set as set_elem}
use nn_hal.Graph.{Node, no_node, Ngraph}

-- mForcedNchw is never read, so it is left out.
pub record NgraphNodes : Type 0 where
  pub output_at_operand_index : List Node
  pub input_params : List Node
  pub result_nodes : List Node
  pub node_names : ℕ → Option String

unfoldable pub ngraph_nodes : ℕ → NgraphNodes
ngraph_nodes operands_size = record {
  output_at_operand_index = replicate operands_size no_node;
  input_params = [];
  result_nodes = [];
  node_names = λ _. none;
}

unfoldable pub add_input_param : NgraphNodes → Node → NgraphNodes
add_input_param s p = record s { input_params = s.input_params ++ p ∷ [] }

-- An index out of range is undefined.
unfoldable pub set_output_at_operand_index : NgraphNodes → ℕ → Node → Result NgraphNodes
set_output_at_operand_index s index out =
    if ltb index (length s.output_at_operand_index)
    then ok (record s { output_at_operand_index = set_elem s.output_at_operand_index index out })
    else fault undefined

unfoldable pub get_operation_output : NgraphNodes → ℕ → Result Node
get_operation_output s index = at s.output_at_operand_index index

unfoldable pub set_result_node : NgraphNodes → ℕ → Node → NgraphNodes
set_result_node s output_index result = record s { result_nodes = s.result_nodes ++ result ∷ [] }

-- mNodeNames[index] = name
abbrev pub put_name : NgraphNodes → ℕ → String → NgraphNodes
put_name s index name = record s {
  node_names = λ j. if index == j then some name else s.node_names j;
}

-- get_node_shared_ptr()->get_name(), undefined through a null pointer
abbrev pub node_name : Ngraph → Node → Result String
node_name g no_node = fault undefined
node_name g n = ok (g.name_of n)

-- the branch of getNodeName, by what the map holds
known_or_made : Ngraph → NgraphNodes → ℕ → Option String → Result (String × NgraphNodes)
known_or_made g s index (some name) = ok (name, s)
known_or_made g s index none = do
  n ← get_operation_output s index
  name ← node_name g n
  ok (name, put_name s index name)

unfoldable pub get_node_name : Ngraph → NgraphNodes → ℕ → Result (String × NgraphNodes)
unfolding known_or_made get_operation_output
get_node_name g s index = known_or_made g s index (s.node_names index)

unfoldable pub set_invalid_node : NgraphNodes → ℕ → NgraphNodes
set_invalid_node s index = put_name s index ""

-- The loop erases at `i` and goes on at `i + 1`, so the parameter behind an erased one is skipped.
pub erase_params : Ngraph → String → List Node → List Node
erase_params g name [] = []
erase_params g name (p ∷ []) = if str_eq name (g.name_of p) then [] else p ∷ []
erase_params g name (p ∷ q ∷ ps) =
    let skipping = q ∷ erase_params g name ps in
    let rest = p ∷ erase_params g name (q ∷ ps) in
    if str_eq name (g.name_of p) then skipping else rest

-- whether the loop erased any
pub erases : Ngraph → String → List Node → Bool
erases g name [] = false
erases g name (p ∷ ps) =
    let rest = erases g name ps in if str_eq name (g.name_of p) then true else rest

pub remove_input_parameter : Ngraph → NgraphNodes → String → ℕ → NgraphNodes
unfolding set_invalid_node erase_params erases
remove_input_parameter g s name index =
    let s' = record s { input_params = erase_params g name s.input_params } in
    if erases g name s.input_params then set_invalid_node s' index else s'
