-- ===== src/Graph.antt =====
-- nGraph nodes, as the calls that make them: the library is not part of the source, so a node is
-- the record of its constructor call, and what the library answers about a node is a parameter.
use nn_hal.Prelude.Int.{ℤ}
use nn_hal.Prelude.{ℕ, Bool, String, List, [], ◌∷◌, Option, none, some, Result, ok, fault, Fault}

pub data ElementType : Type 0 where
  undefined_type boolean f16 f32 i8 u8 i16 u16 i32 u32 i64 : ElementType

pub data PadType : Type 0 where
  explicit same_upper valid : PadType

-- Attributes of the convolutions and of the pooling operations, each `{height, width}`.
pub record Windows : Type 0 where
  pub strides : List ℕ
  pub pads_begin : List ℕ
  pub pads_end : List ℕ
  pub auto_pad : PadType

-- InterpolateAttrs; an attribute that the source leaves alone is `default_mode`, and the last one of
-- `interpolate` says whether the mode of the shape is set to `sizes`.
pub data InterpolateMode : Type 0 where
  linear nearest : InterpolateMode

pub data CoordinateMode : Type 0 where
  align_corners half_pixel asymmetric : CoordinateMode

pub data NearestMode : Type 0 where
  default_mode floor_mode round_prefer_ceil : NearestMode

-- The operations with their attributes; a number is the bit pattern of the attribute.
pub data Op : Type 0 where
  abs exp floor log negative sigmoid sin sqrt tanh relu h_swish logical_not : Op
  add subtract multiply divide power maximum minimum : Op
  equal not_equal greater greater_equal less less_equal logical_and logical_or : Op
  select p_relu gather squeeze unsqueeze transpose pad pad_value : Op
  round_half_to_even batch_to_space space_to_batch : Op
  clamp : ℤ → ℤ → Op
  convert : ElementType → Op
  reshape : Bool → Op
  mat_mul : Bool → Bool → Op
  concat : ℕ → Op
  split : ℕ → Op
  reduce_max reduce_min reduce_sum reduce_prod reduce_mean reduce_and reduce_or : Bool → Op
  top_k_max_none top_k_min_none top_k_max_values : ℕ → Op
  depth_to_space space_to_depth : ℕ → Op
  shuffle_channels : ℕ → ℕ → Op
  strided_slice : List ℕ → List ℕ → List ℕ → Op
  mvn : ℕ → Op
  convolution group_convolution convolution_backprop : Windows → List ℕ → Op
  interpolate : InterpolateMode → CoordinateMode → NearestMode → Bool → Op
  roi_align : ℕ → ℕ → ℕ → ℕ → Op
  roi_pooling : List ℕ → ℕ → Op
  clamp_floats : ℕ → ℕ → Op
  max_pool avg_pool : Windows → List ℕ → Op

mutual
  -- `no_node` is the null pointer; a parameter carries the place at which it was made, so that two
  -- parameters are two nodes.
  pub data Node : Type 0 where
    no_node : Node
    parameter : ℕ → ElementType → List ℕ → Node
    constant : ElementType → List ℕ → List ℕ → Node
    call : Op → Nodes → Node
    output : Node → ℕ → Node

  pub data Nodes : Type 0 where
    end : Nodes
    node : Node → Nodes → Nodes

abbrev pub nodes : List Node → Nodes
nodes [] = end
nodes (n ∷ ns) = node n (nodes ns)

abbrev pub is_null : Node → Bool
is_null no_node = Bool.true
is_null n = Bool.false

-- An ngraph::Function.
pub record Graph : Type 0 where
  pub results : Nodes
  pub parameters : Nodes

-- What nGraph answers. `refuses` says how a constructor fails, where it does.
pub record Ngraph : Type 0 where
  pub refuses : Node → Option Fault
  pub refuses_function : Graph → Option Fault
  pub name_of : Node → String
  pub element_type_of : Node → ElementType
  pub shape_of : Node → List ℕ
  -- TopK::get_axis, counted from the first dimension
  pub axis_of : Node → ℕ

-- std::make_shared of a node
or_refused : Option Fault → Node → Result Node
or_refused none n = ok n
or_refused (some e) n = fault e

unfoldable pub make_node : Ngraph → Node → Result Node
unfolding or_refused
make_node g n = or_refused (g.refuses n) n
