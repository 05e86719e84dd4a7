-- ===== src/Scenarios/Sample.antt =====
-- Tests: a model of one RELU over floats, with a second input that has no size, and its platform.
use nn_hal.Prelude.{ℕ, true, false, List, [], ◌∷◌, none, some, ok, ◌==◌, if◌then◌else◌}
use nn_hal.Types.{OperandType, OperandLifeTime, OperationType}
use nn_hal.Utils.Pools.{Os, RunTimePoolInfo, HidlMemory, Pointer, address}
use nn_hal.ModelInfo.Model.{
  Model, Operand, Operation, DataLocation, NnapiModelInfo, Request, OutputShape, fresh_operand,
}
use nn_hal.Graph.{Ngraph, ElementType}
use nn_hal.NgraphNodes.{NgraphNodes}
use nn_hal.PreparedModel.{Platform}
use nn_hal.PreparedModel.Execution.{Engine, Blob, Run}

abbrev pub location : ℕ → ℕ → DataLocation
location offset len = record { pool_index = 0; offset = offset; length = len }

abbrev pub tensor : List ℕ → OperandLifeTime → Operand
tensor dims lifetime = record {
  type = OperandType.tensor_float32;
  dimensions = dims;
  number_of_consumers = 1;
  scale = 0;
  zero_point = 0;
  lifetime = lifetime;
  location = location 0 0;
  channel_quant = record { scales = []; channel_dim = 0 };
}

-- a constant of two int32_t
abbrev pub two_ints : Operand
two_ints = record (tensor (2 ∷ []) OperandLifeTime.constant_copy) {
  type = OperandType.tensor_int32;
  location = location 0 8;
}

abbrev pub relu : Operation
relu = record { type = OperationType.relu; inputs = 0 ∷ []; outputs = 1 ∷ [] }

abbrev pub model : Model
model = record {
  operands =
      tensor (2 ∷ 3 ∷ []) OperandLifeTime.subgraph_input
      ∷ tensor (2 ∷ 3 ∷ []) OperandLifeTime.subgraph_output
      ∷ tensor [] OperandLifeTime.subgraph_input
      ∷ two_ints
      ∷ [];
  operations = relu ∷ [];
  input_indexes = 0 ∷ 2 ∷ [];
  output_indexes = 1 ∷ [];
  operand_values = 7 ∷ 0 ∷ 0 ∷ 0 ∷ 1 ∷ 1 ∷ 0 ∷ 0 ∷ [];
  pools = [];
}

abbrev pub os : Os
os = record {
  android = false;
  mapped = λ h m. some (address 4096);
  mmapped = λ h size prot fd offset. address 8192;
  locked = λ h m. none;
  munmap_zero = λ h p size. true;
  msync_zero = λ h p size. true;
}

abbrev pub ngraph : Ngraph
ngraph = record {
  refuses = λ n. none;
  refuses_function = λ g. none;
  name_of = λ n. "node";
  element_type_of = λ n. ElementType.f32;
  shape_of = λ n. 2 ∷ 3 ∷ [];
  axis_of = λ n. 0;
}

abbrev pub platform : Platform
platform = record {
  os = os;
  ngraph = ngraph;
  memory = λ a. 0;
  refuses_network = λ g. none;
  refuses_load = λ g. none;
}

abbrev pub shared_memory : HidlMemory
shared_memory = record { name = "mmap_fd"; size = 64; handle = 3 ∷ 3 ∷ 0 ∷ 0 ∷ [] }

abbrev pub pool : RunTimePoolInfo
pool = record { memory = none; hidl_memory = shared_memory; buffer = address 8192 }

abbrev pub empty_pool : RunTimePoolInfo
empty_pool = record pool { buffer = Pointer.null }

abbrev pub shape : OutputShape
shape = record { dimensions = 2 ∷ 3 ∷ []; is_sufficient = true }

-- the model at run time, with the pool of a request
abbrev pub mapped_info : NnapiModelInfo
mapped_info = record {
  model = model;
  pool_infos = [];
  operands = fresh_operand ∷ fresh_operand ∷ fresh_operand ∷ fresh_operand ∷ [];
  request_pool_infos = pool ∷ [];
  output_shapes = shape ∷ [];
}

abbrev pub plain_info : NnapiModelInfo
plain_info = record {
  model = model;
  pool_infos = [];
  operands = [];
  request_pool_infos = [];
  output_shapes = [];
}

-- the values of the two inputs, and the place of the output
abbrev pub request : Request
request = record {
  inputs =
      record { location = location 0 24; dimensions = [] }
      ∷ record { location = location 24 0; dimensions = [] }
      ∷ [];
  outputs = record { location = location 32 24; dimensions = [] } ∷ [];
  pools = shared_memory ∷ [];
}

abbrev pub named_nodes : NgraphNodes
named_nodes = record {
  output_at_operand_index = [];
  input_params = [];
  result_nodes = [];
  node_names = λ i. if i == 0 then some "input" else if i == 1 then some "output" else some "";
}

-- six floats
abbrev pub blob : Blob
blob = record { byte_size = 24; dims = 2 ∷ 3 ∷ []; floats = 0 ∷ 0 ∷ 0 ∷ 0 ∷ 0 ∷ 0 ∷ [] }

abbrev pub engine : Engine
engine = record { blob = λ ts name. ok blob; infer_fault = λ ts. none; ends_in_time = λ ts. true }

abbrev pub run : Run
run = record { info = mapped_info; graph = named_nodes; history = []; transfers = [] }
