-- ===== src/NetworkCreator.antt =====
-- ngraph_creator/src/NgraphNetworkCreator.cpp: from the model to the graph.
pub mod Support
pub mod Parameters
pub mod Frame
use nn_hal.Prelude.{
  ℕ, zero, suc, Bool, true, false, not, ◌&&◌, ◌||◌, List, [], ◌∷◌, Option, none, some, ◌==◌, length,
  if◌then◌else◌, Result, ok, fault, exception, abort, undefined, ◌>>=◌, at, String, ltb,
  set as set_elem,
}
use nn_hal.Types.{OperandType, OperationType, IntelDeviceType}
use nn_hal.ModelInfo.Model.{NnapiModelInfo, Operand, Operation}
use nn_hal.ModelInfo.Memory.{Memory, get_operand}
use nn_hal.Graph.{Node, no_node, parameter, Ngraph, ElementType, Graph, nodes}
use nn_hal.Graph.ElementType.{f32, f16, i8, u8, i16, u16, i32, boolean}
use nn_hal.NgraphNodes.{
  NgraphNodes, ngraph_nodes, add_input_param, set_output_at_operand_index, set_invalid_node,
  get_node_name,
}
use nn_hal.Build.{Context}
use nn_hal.Operations.Factory.{OperationsBase, get_operation}

pub record NgraphNetworkCreator : Type 0 where
  pub info : NnapiModelInfo
  pub memory : Memory
  pub ngraph : Ngraph
  pub plugin : IntelDeviceType
  pub graph : NgraphNodes
  pub operation_nodes : List (Option OperationsBase)

-- An operation's own constructor reads its first output.
unfoldable pub operation_node : Operation → Result (Option OperationsBase)
operation_node op = elim (get_operation op.type) [
  | none ↦ ok none
  | some o ↦ (do output ← at op.outputs 0; ok (some o))
]

-- the loop of the constructor
unfoldable pub operations_of : List Operation → Result (List (Option OperationsBase))
operations_of [] = ok []
operations_of (op ∷ ops) = do o ← operation_node op; rest ← operations_of ops; ok (o ∷ rest)

abbrev pub with_operations :
    Ngraph
    → Memory
    → NnapiModelInfo
    → IntelDeviceType
    → List (Option OperationsBase)
    → NgraphNetworkCreator
with_operations g memory info plugin ops = record {
  info = info;
  memory = memory;
  ngraph = g;
  plugin = plugin;
  graph = ngraph_nodes (length info.model.operands);
  operation_nodes = ops;
}

unfoldable pub ngraph_network_creator :
    Ngraph → Memory → NnapiModelInfo → IntelDeviceType → Result NgraphNetworkCreator
unfolding operations_of
ngraph_network_creator g memory info plugin = do
  ops ← operations_of info.model.operations
  ok (with_operations g memory info plugin ops)

-- the element type of a parameter; `none` is the `default`
unfoldable pub param_element : OperandType → Option ElementType
param_element OperandType.float32 = some f32
param_element OperandType.tensor_float32 = some f32
param_element OperandType.int32 = some i32
param_element OperandType.tensor_int32 = some i32
param_element OperandType.bool = some boolean
param_element OperandType.tensor_bool8 = some boolean
param_element OperandType.tensor_quant8_asymm = some u8
param_element OperandType.tensor_quant8_symm = some i8
param_element OperandType.tensor_quant8_symm_per_channel = some i8
param_element OperandType.tensor_quant8_asymm_signed = some i8
param_element OperandType.tensor_float16 = some f16
param_element OperandType.tensor_quant16_symm = some i16
param_element OperandType.tensor_quant16_asymm = some u16
param_element type = none

-- dims.size() > 0 and dims[0] != 0
abbrev pub has_size : List ℕ → Bool
has_size [] = false
has_size (d ∷ ds) = not (d == 0)

-- the two branches for the dimensions, with the parameter made at place `k`; `none` is the return
-- of false
unfoldable pub put_param :
    ℕ → ℕ → Operand → Option ElementType → NgraphNodes → Result (Option NgraphNodes)
put_param k i op none s = ok none
put_param k i op (some t) s = do
  s' ←
      set_output_at_operand_index (add_input_param s (parameter k t op.dimensions)) i
        (parameter k t op.dimensions)
  ok (some s')

unfoldable pub input_param : ℕ → ℕ → Operand → Bool → NgraphNodes → Result (Option NgraphNodes)
unfolding put_param
input_param k i op true s = put_param k i op (param_element op.type) s
input_param k i op false s = ok (some (set_invalid_node s i))

unfoldable pub create_input_param :
    NnapiModelInfo → ℕ → ℕ → NgraphNodes → Result (Option NgraphNodes)
unfolding input_param
create_input_param info k i s = do
  op ← get_operand info i
  input_param k i op (has_size op.dimensions) s

unfoldable pub create_params :
    NnapiModelInfo → ℕ → List ℕ → NgraphNodes → Result (Option NgraphNodes)
unfolding create_input_param
create_params info k [] s = ok (some s)
create_params info k (i ∷ is) s = do
  made ← create_input_param info k i s
  elim made [ none ↦ ok none | some s' ↦ create_params info (suc k) is s' ]

unfoldable pub create_input_params : NnapiModelInfo → NgraphNodes → Result (Option NgraphNodes)
unfolding create_params
create_input_params info s = create_params info 0 info.model.input_indexes s

abbrev pub context : NgraphNetworkCreator → ℕ → Context
context c i = record {
  info = c.info;
  memory = c.memory;
  ngraph = c.ngraph;
  plugin = c.plugin;
  operation = i;
}

-- !mOperationNodes[i] || !mOperationNodes[i]->validateForPlugin(), negated
unfoldable pub is_supported : NgraphNetworkCreator → ℕ → Option OperationsBase → Result Bool
is_supported c i none = ok false
is_supported c i (some o) = do (valid, s) ← o.validate_for_plugin (context c i) c.graph; ok valid

-- mOperationNodes[i]
unfoldable pub supports : NgraphNetworkCreator → ℕ → Result Bool
unfolding is_supported
supports c i = do o ← at c.operation_nodes i; is_supported c i o

-- supportedOperations[i] = value; an index out of range is undefined.
unfoldable pub write : List Bool → ℕ → Bool → Result (List Bool)
write supported i value =
    if ltb i (length supported) then ok (set_elem supported i value) else fault undefined

-- The two loops over getOperationsSize(), from operation `i` on, `count` of which are left.
unfoldable pub supported_from : NgraphNetworkCreator → ℕ → ℕ → List Bool → Result (List Bool)
unfolding supports write
supported_from c i zero supported = ok supported
supported_from c i (suc count) supported = do
  value ← supports c i
  written ← write supported i value
  supported_from c (suc i) count written

unfoldable pub valid_from : NgraphNetworkCreator → ℕ → ℕ → Result Bool
unfolding supports
valid_from c i zero = ok true
valid_from c i (suc count) = do
  value ← supports c i
  elim value [ true ↦ valid_from c (suc i) count | false ↦ ok false ]

-- The caller's vector, as it is left.
unfoldable pub get_supported_operations : NgraphNetworkCreator → List Bool → Result (List Bool)
unfolding supported_from
get_supported_operations c supported = supported_from c 0 (length c.info.model.operations) supported

unfoldable pub validate_operations : NgraphNetworkCreator → Result Bool
unfolding valid_from
validate_operations c = valid_from c 0 (length c.info.model.operations)

-- catch (const std::exception&): `none` is the return of false
abbrev pub caught {ℓ} : {A : Type ℓ} → Result (Option A) → Result (Option A)
caught (ok a) = ok a
caught (fault exception) = ok none
caught (fault abort) = fault abort
caught (fault undefined) = fault undefined

abbrev connected : Result (Unit {0} × NgraphNodes) → Result (Option NgraphNodes)
connected (ok (u, s)) = ok (some s)
connected (fault e) = fault e

-- The loop of initializeModel; the state at a failure is not read again.
connect_from :
    NgraphNetworkCreator
    → ℕ
    → List (Option OperationsBase)
    → NgraphNodes
    → Result (Option NgraphNodes)
connect_from c i [] s = ok (some s)
connect_from c i (none ∷ os) s = ok none
connect_from c i (some o ∷ os) s = do
  made ← caught (connected (o.connect_operation_to_graph (context c i) s))
  elim made [ none ↦ ok none | some s' ↦ connect_from c (suc i) os s' ]

unfoldable pub initialize_model : NgraphNetworkCreator → Result (Option NgraphNodes)
unfolding connect_from create_input_params
initialize_model c = do
  made ← create_input_params c.info c.graph
  elim made [ none ↦ ok none | some s ↦ connect_from c 0 c.operation_nodes s ]

-- std::make_shared<ngraph::Function>(mResultNodes, mInputParams)
abbrev pub generated : Ngraph → NgraphNodes → Result (Option (NgraphNodes × Graph))
generated g s =
    let graph : Graph = record {
      results = nodes s.result_nodes;
      parameters = nodes s.input_params;
    } in
    elim (g.refuses_function graph) [ none ↦ ok (some (s, graph)) | some e ↦ fault e ]

-- `none` is the null function. The exceptions of the model's initialisation are caught here too.
unfoldable pub generate_graph : NgraphNetworkCreator → Result (Option (NgraphNodes × Graph))
unfolding initialize_model
generate_graph c =
    caught
      do made ← initialize_model c; elim made [ none ↦ ok none | some s ↦ generated c.ngraph s ]

pub get_node_name_of : NgraphNetworkCreator → ℕ → Result (String × NgraphNetworkCreator)
get_node_name_of c index = do
  (name, s) ← get_node_name c.ngraph c.graph index
  ok (name, record c { graph = s })
