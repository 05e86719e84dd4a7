-- ===== src/Build.antt =====
-- What an operation works with: the model, the graph under construction and its own index
-- (OperationsBase.hpp: sModelInfo, sPluginType, mNgraphNodes, mNnapiOperationIndex), as a monad.
-- A fault drops the graph: the source's callers discard it, or the process ends.
pub mod Frame
use nn_hal.Prelude.{ℕ, Bool, List, Result, ok, fault, Fault, at}
use nn_hal.Types.{IntelDeviceType, OperationType}
use nn_hal.ModelInfo.Model.{NnapiModelInfo, Operand}
use nn_hal.ModelInfo.Memory.{Memory}
use nn_hal.ModelInfo.Memory as M
use nn_hal.Graph.{Node, nodes, call, constant, Op, Ngraph, make_node, ElementType}
use nn_hal.NgraphNodes.{NgraphNodes}
use nn_hal.NgraphNodes as N

pub record Context : Type 0 where
  pub info : NnapiModelInfo
  pub memory : Memory
  pub ngraph : Ngraph
  pub plugin : IntelDeviceType
  pub operation : ℕ

abbrev pub Build {ℓ} : Type ℓ → Type ℓ
Build A = Context → NgraphNodes → Result (A × NgraphNodes)

abbrev pub pure {ℓ} : {A : Type ℓ} → A → Build A
pure a c s = ok (a, s)

abbrev pub then_with {ℓ κ} :
    {A : Type ℓ} {B : Type κ}
    → (A → Build B)
    → Context
    → Result (A × NgraphNodes)
    → Result (B × NgraphNodes)
then_with f c (ok (a, s)) = f a c s
then_with f c (fault e) = fault e

infixl 5 ◌>>=◌ ◌>>◌
abbrev pub ◌>>=◌ {ℓ κ} : {A : Type ℓ} {B : Type κ} → Build A → (A → Build B) → Build B
◌>>=◌ m f c s = then_with f c (m c s)

abbrev pub ◌>>◌ {ℓ} : {B : Type ℓ} → Build (Unit {0}) → Build B → Build B
m >> k = m >>= λ _. k

abbrev pub with_state {ℓ} : {A : Type ℓ} → NgraphNodes → Result A → Result (A × NgraphNodes)
with_state s (ok a) = ok (a, s)
with_state s (fault e) = fault e

-- What reads the context alone.
abbrev pub asks {ℓ} : {A : Type ℓ} → (Context → Result A) → Build A
asks f c s = with_state s (f c)

abbrev pub fails {ℓ} : {A : Type ℓ} → Fault → Build A
fails e c s = fault e

abbrev pub operation_input : ℕ → Build ℕ
operation_input i = asks λ c. M.get_operation_input c.info c.operation i

abbrev pub operation_output : ℕ → Build ℕ
operation_output i = asks λ c. M.get_operation_output c.info c.operation i

abbrev pub operation_inputs_size : Build ℕ
operation_inputs_size = asks λ c. M.get_operation_inputs_size c.info c.operation

abbrev pub operation_outputs_size : Build ℕ
operation_outputs_size = asks λ c. M.get_operation_outputs_size c.info c.operation

-- getOperationType
abbrev pub operation_type : ℕ → Build OperationType
operation_type i = asks λ c. M.get_operation_type c.info i

abbrev pub operand : ℕ → Build Operand
operand i = asks λ c. M.get_operand c.info i

abbrev pub is_const : ℕ → Build Bool
is_const i = asks λ c. M.is_operand_life_time_const c.info i

abbrev pub is_omitted : ℕ → Build Bool
is_omitted i = asks λ c. M.is_omitted_input c.info c.operation i

-- sModelInfo->ParseOperationInput<T>(mNnapiOperationIndex, i), where T has `size` bytes
abbrev pub parse : ℕ → ℕ → Build ℕ
parse size i = asks λ c. M.parse_operation_input c.info c.memory size c.operation i

-- sModelInfo->GetConstVecOperand<T>(i)
abbrev pub const_vec : ℕ → ℕ → Build (List ℕ)
const_vec size i = asks λ c. M.get_const_vec_operand c.info c.memory size i

abbrev pub index_of {ℓ} : {A : Type ℓ} → List A → ℕ → Build A
index_of xs i = asks λ c. at xs i

abbrev pub plugin_type : Build IntelDeviceType
plugin_type = asks λ c. ok c.plugin

-- std::make_shared<...>(...)
abbrev pub make : Op → List Node → Build Node
make o ns = asks λ c. make_node c.ngraph (call o (nodes ns))

abbrev pub make_const : ElementType → List ℕ → List ℕ → Build Node
make_const t shape values = asks λ c. make_node c.ngraph (constant t shape values)

abbrev pub element_type_of : Node → Build ElementType
element_type_of n = asks λ c. ok (c.ngraph.element_type_of n)

abbrev pub shape_of : Node → Build (List ℕ)
shape_of n = asks λ c. ok (c.ngraph.shape_of n)

abbrev pub axis_of : Node → Build ℕ
axis_of n = asks λ c. ok (c.ngraph.axis_of n)

abbrev pub get_operation_output : ℕ → Build Node
get_operation_output i c s = with_state s (N.get_operation_output s i)

abbrev pub state_done : Result NgraphNodes → Result (Unit {0} × NgraphNodes)
state_done (ok s) = ok (tt, s)
state_done (fault e) = fault e

abbrev pub set_output : ℕ → Node → Build (Unit {0})
set_output i n c s = state_done (N.set_output_at_operand_index s i n)

abbrev pub add_result_node : ℕ → Node → Build (Unit {0})
add_result_node i n c s = ok (tt, N.set_result_node s i n)
