-- ===== src/Operations/Lstm/Cell.antt =====
-- ngraph_creator/operations/src/LSTM.cpp: createNode, from the nodes of its inputs to its outputs.
pub mod Frame
use nn_hal.Prelude.{ℕ, Bool, not, [], ◌∷◌, if◌then◌else◌}
use nn_hal.Prelude.Floats.{float_of_half}
use nn_hal.Types.{OperandType}
use nn_hal.Graph.{Node, no_node, ElementType}
use nn_hal.Build.{Build, ◌>>=◌, ◌>>◌, pure, parse, index_of, make_const, element_type_of, shape_of}
use nn_hal.Operations.Base.{
  transpose, ConversionType, get_input_operand_dimensions, check_input_operand_type,
}
use nn_hal.Operations.Inputs.{get_input_node}
use nn_hal.Operations.Recurrent.Bidirectional.{has_first_dimension, set_output_at}
use nn_hal.Operations.Lstm.{
  Features, features, Gate, added, subtracted, multiplied, mat_mul_transposed, clip,
  lstm_activation, input_gate_node, weighted, weighted_with_cell, biased, scratch_buffer,
}

-- W_{ci}, W_{cf} and W_{co}: zeros where they are not used
abbrev pub cell_weights : Features → ElementType → ℕ → ℕ → Build Node
cell_weights f element num_units i =
    if f.peephole then get_input_node i else make_const element (num_units ∷ []) (0 ∷ [])

abbrev pub input_cell_weights : Features → ElementType → ℕ → Build Node
input_cell_weights f element num_units =
    if f.peephole
    then (if f.cifg then make_const element (num_units ∷ []) (0 ∷ []) else get_input_node 9)
    else make_const element (num_units ∷ []) (0 ∷ [])

-- W_{proj} and b_{proj}, which is zeros if it is not given
abbrev pub projection_nodes : Features → ElementType → ℕ → Build (Node × Node)
projection_nodes f element output_size = if not f.projection then pure (no_node, no_node) else (do
  weights ← get_input_node 16
  valid ← has_first_dimension 17
  bias ← (if valid then get_input_node 17 else make_const element (output_size ∷ []) (0 ∷ []))
  pure (weights, bias))

-- the limits of the cell's state and of the projection, a float or a half
abbrev pub clipping_at : ℕ → Build ℕ
clipping_at i = do
  half ← check_input_operand_type 0 OperandType.tensor_float16
  if half then (do limit ← parse 2 i; pure (float_of_half limit)) else parse 4 i

abbrev pub norm_node : Bool → ℕ → Build Node
norm_node used i = if used then get_input_node i else pure no_node

pub record Cell : Type 0 where
  pub features : Features
  pub element : ElementType
  pub input : Node
  pub input_gate : Gate
  pub forget_gate : Gate
  pub cell_gate : Gate
  pub output_gate : Gate
  pub projection : Node × Node
  pub state : Node
  pub cell_state : Node
  pub activation : ℕ
  pub cell_clipping : ℕ
  pub projection_clipping : ℕ

-- The inputs, in the order in which they are read. The limit of a projection that is not used is not
-- read.
pub cell_inputs : Features → Build Cell
cell_inputs f = do
  state_dims ← get_input_operand_dimensions 18
  cell_dims ← get_input_operand_dimensions 19
  num_units ← index_of cell_dims 1
  output_size ← index_of state_dims 1
  input ← get_input_node 0
  element ← element_type_of input
  xi ← input_gate_node f 1
  xf ← get_input_node 2
  xc ← get_input_node 3
  xo ← get_input_node 4
  hi ← input_gate_node f 5
  hf ← get_input_node 6
  hc ← get_input_node 7
  ho ← get_input_node 8
  ci ← input_cell_weights f element num_units
  cf ← cell_weights f element num_units 10
  co ← cell_weights f element num_units 11
  bi ← input_gate_node f 12
  bf ← get_input_node 13
  bc ← get_input_node 14
  bo ← get_input_node 15
  projection ← projection_nodes f element output_size
  state ← get_input_node 18
  cell_state ← get_input_node 19
  activation ← parse 4 20
  cell_clipping ← clipping_at 21
  projection_clipping ← (if f.projection then clipping_at 22 else pure 0)
  norm_i ← (if f.cifg then pure no_node else norm_node f.layer_norm 23)
  norm_f ← norm_node f.layer_norm 24
  norm_c ← norm_node f.layer_norm 25
  norm_o ← norm_node f.layer_norm 26
  pure (record {
    features = f;
    element = element;
    input = input;
    input_gate = record {
      from_input = xi;
      from_state = hi;
      from_cell = ci;
      bias = bi;
      norm = norm_i;
    };
    forget_gate = record {
      from_input = xf;
      from_state = hf;
      from_cell = cf;
      bias = bf;
      norm = norm_f;
    };
    cell_gate = record {
      from_input = xc;
      from_state = hc;
      from_cell = no_node;
      bias = bc;
      norm = norm_c;
    };
    output_gate = record {
      from_input = xo;
      from_state = ho;
      from_cell = co;
      bias = bo;
      norm = norm_o;
    };
    projection = projection;
    state = state;
    cell_state = cell_state;
    activation = activation;
    cell_clipping = cell_clipping;
    projection_clipping = projection_clipping;
  })

-- i_t: 1 - f_t where the gates are coupled
pub input_gate_of : Cell → Node → Node → Build (Node × Node)
input_gate_of c i_sum f_t =
    if c.features.cifg
    then (do
      shape ← shape_of f_t
      ones ← make_const c.element shape (0x3f800000 ∷ [])
      i_t ← subtracted ones f_t
      scratch ← scratch_buffer c.element i_t 3
      pure (i_t, scratch))
    else (do
      sum ← biased c.features.layer_norm c.input_gate i_sum
      i_t ← lstm_activation sum 6
      scratch ← scratch_buffer c.element i_t 4
      pure (i_t, scratch))

-- H: o_t times the activation of C, projected and clipped where there is a projection
pub hidden_state : Cell → Node → Node → Build Node
hidden_state c o_t cell = do
  activated ← lstm_activation cell c.activation
  product ← multiplied o_t activated
  if not c.features.projection then pure product else (do
    weighted_product ← mat_mul_transposed c.projection.0 product
    transposed ← transpose ConversionType.nc_cn weighted_product
    projected ← added transposed c.projection.1
    clip projected c.projection_clipping)

pub connect_lstm : Build (Unit {0})
connect_lstm = do
  f ← features
  c ← cell_inputs f
  i_sum ←
      (if f.cifg
        then pure no_node
        else weighted_with_cell c.input_gate c.input c.state c.cell_state)
  f_sum ← weighted_with_cell c.forget_gate c.input c.state c.cell_state
  c_sum ← weighted c.cell_gate c.input c.state
  o_sum ← weighted c.output_gate c.input c.state
  f_biased ← biased f.layer_norm c.forget_gate f_sum
  f_t ← lstm_activation f_biased 6
  (i_t, scratch) ← input_gate_of c i_sum f_t
  c_biased ← biased f.layer_norm c.cell_gate c_sum
  c_t ← lstm_activation c_biased c.activation
  kept ← multiplied f_t c.cell_state
  new ← multiplied i_t c_t
  cell ← added kept new
  clipped ← clip cell c.cell_clipping
  o_peephole ← multiplied c.output_gate.from_cell clipped
  o_all ← added o_sum o_peephole
  o_biased ← biased f.layer_norm c.output_gate o_all
  o_t ← lstm_activation o_biased 6
  hidden ← hidden_state c o_t clipped
  set_output_at 0 scratch
  set_output_at 1 hidden
  set_output_at 2 clipped
  set_output_at 3 hidden
