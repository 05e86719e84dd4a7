-- ===== src/Operations/Factory/Frame.antt =====
-- ngraph_creator/src/OperationsFactory.cpp: what the operations that the factory makes leave alone.
use mathlib.Core.Path.{subst}
use nn_hal.Prelude.{Option, none, some, ok, ◌≡◌}
use nn_hal.NgraphNodes.{NgraphNodes}
use nn_hal.Types.{OperationType}
use nn_hal.Build.{Context}
use nn_hal.Build.Frame.{Keeps, Extends, IsOutput}
use nn_hal.Operations.Factory.{OperationsBase, get_operation}
use nn_hal.Operations.Inputs.Frame.{operation_rules, connect_operation_to_graph-Keeps}
use nn_hal.Operations.Blocks.Frame.{
  create_batch_to_space-Keeps, create_channel_shuffle-Keeps, create_fully_connected-Keeps,
  create_pad_v2-Keeps, create_space_to_batch-Keeps,
}
use nn_hal.Operations.Cast.Frame.{connect_cast-Keeps}
use nn_hal.Operations.Conv2d.Frame.{create_conv_2d-Keeps}
use nn_hal.Operations.Elementwise.Frame.{create_add-Keeps, create_rsqrt-Keeps}
use nn_hal.Operations.GroupConvolutions.Frame.{
  create_depthwise_conv_2d-Keeps, create_grouped_conv_2d-Keeps,
}
use nn_hal.Operations.Layout.Frame.{
  create_concat-Keeps, create_dequantize-Keeps, create_l2_normalization-Keeps,
  create_log_softmax-Keeps, create_pad-Keeps, connect_quantize-Keeps, create_softmax-Keeps,
  create_squeeze-Keeps, create_transpose-Keeps,
}
use nn_hal.Operations.Lstm.Cell.Frame.{connect_lstm-Keeps}
use nn_hal.Operations.Outputs.Frame.{connect_split-Keeps, connect_topk_v2-Keeps}
use nn_hal.Operations.Pooling.Frame.{
  create_average_pool_2d-Keeps, create_l2_pooling_2d-Keeps, create_max_pool_2d-Keeps,
}
use nn_hal.Operations.Recurrent.Bidirectional.Frame.{connect_bidirectional_sequence_rnn-Keeps}
use nn_hal.Operations.Recurrent.Frame.{connect_rnn-Keeps, connect_unidirectional_sequence_rnn-Keeps}
use nn_hal.Operations.Regions.Frame.{
  create_instance_normalization-Keeps, create_roi_align-Keeps, create_roi_pooling-Keeps,
}
use nn_hal.Operations.Resizing.Frame.{
  create_resize_bilinear-Keeps, create_resize_nearest_neighbor-Keeps,
}
use nn_hal.Operations.Shapes.Frame.{create_reshape-Keeps}
use nn_hal.Operations.Slicing.Frame.{create_strided_slice-Keeps}
use nn_hal.Operations.TransposeConv2d.Frame.{create_transpose_conv_2d-Keeps}

-- The operation, where there is one, keeps the rest of the graph as it connects itself.
abbrev pub KeepsOperation : Context → Option OperationsBase → Type 0
KeepsOperation c none = Unit
KeepsOperation c (some o) = Keeps c o.connect_operation_to_graph

pub get_operation-Keeps : (c : Context) (t : OperationType) → KeepsOperation c (get_operation t)
unfolding get_operation
get_operation-Keeps c OperationType.abs = search operation_rules depth 30 fits 10000
get_operation-Keeps c OperationType.add = connect_operation_to_graph-Keeps _ create_add-Keeps
get_operation-Keeps c OperationType.argmax = search operation_rules depth 30 fits 10000
get_operation-Keeps c OperationType.argmin = search operation_rules depth 30 fits 10000
get_operation-Keeps c OperationType.average_pool_2d =
    connect_operation_to_graph-Keeps _ create_average_pool_2d-Keeps
get_operation-Keeps c OperationType.batch_to_space_nd =
    connect_operation_to_graph-Keeps _ create_batch_to_space-Keeps
get_operation-Keeps c OperationType.bidirectional_sequence_rnn =
    connect_bidirectional_sequence_rnn-Keeps
get_operation-Keeps c OperationType.cast = connect_cast-Keeps
get_operation-Keeps c OperationType.channel_shuffle =
    connect_operation_to_graph-Keeps _ create_channel_shuffle-Keeps
get_operation-Keeps c OperationType.concatenation =
    connect_operation_to_graph-Keeps _ create_concat-Keeps
get_operation-Keeps c OperationType.conv_2d =
    connect_operation_to_graph-Keeps _ create_conv_2d-Keeps
get_operation-Keeps c OperationType.depth_to_space = search operation_rules depth 30 fits 10000
get_operation-Keeps c OperationType.depthwise_conv_2d =
    connect_operation_to_graph-Keeps _ create_depthwise_conv_2d-Keeps
get_operation-Keeps c OperationType.dequantize =
    connect_operation_to_graph-Keeps _ create_dequantize-Keeps
get_operation-Keeps c OperationType.div = search operation_rules depth 30 fits 10000
get_operation-Keeps c OperationType.embedding_lookup = search operation_rules depth 30 fits 10000
get_operation-Keeps c OperationType.equal = search operation_rules depth 30 fits 10000
get_operation-Keeps c OperationType.exp = search operation_rules depth 30 fits 10000
get_operation-Keeps c OperationType.expand_dims = search operation_rules depth 30 fits 10000
get_operation-Keeps c OperationType.fully_connected =
    connect_operation_to_graph-Keeps _ create_fully_connected-Keeps
get_operation-Keeps c OperationType.floor = search operation_rules depth 30 fits 10000
get_operation-Keeps c OperationType.gather = search operation_rules depth 30 fits 10000
get_operation-Keeps c OperationType.greater = search operation_rules depth 30 fits 10000
get_operation-Keeps c OperationType.greater_equal = search operation_rules depth 30 fits 10000
get_operation-Keeps c OperationType.grouped_conv_2d =
    connect_operation_to_graph-Keeps _ create_grouped_conv_2d-Keeps
get_operation-Keeps c OperationType.hard_swish = search operation_rules depth 30 fits 10000
get_operation-Keeps c OperationType.instance_normalization =
    connect_operation_to_graph-Keeps _ create_instance_normalization-Keeps
get_operation-Keeps c OperationType.l2_pool_2d =
    connect_operation_to_graph-Keeps _ create_l2_pooling_2d-Keeps
get_operation-Keeps c OperationType.l2_normalization =
    connect_operation_to_graph-Keeps _ create_l2_normalization-Keeps
get_operation-Keeps c OperationType.lstm = connect_lstm-Keeps
get_operation-Keeps c OperationType.less = search operation_rules depth 30 fits 10000
get_operation-Keeps c OperationType.less_equal = search operation_rules depth 30 fits 10000
get_operation-Keeps c OperationType.log_softmax =
    connect_operation_to_graph-Keeps _ create_log_softmax-Keeps
get_operation-Keeps c OperationType.log = search operation_rules depth 30 fits 10000
get_operation-Keeps c OperationType.logical_and = search operation_rules depth 30 fits 10000
get_operation-Keeps c OperationType.logical_not = search operation_rules depth 30 fits 10000
get_operation-Keeps c OperationType.logical_or = search operation_rules depth 30 fits 10000
get_operation-Keeps c OperationType.logistic = search operation_rules depth 30 fits 10000
get_operation-Keeps c OperationType.maximum = search operation_rules depth 30 fits 10000
get_operation-Keeps c OperationType.max_pool_2d =
    connect_operation_to_graph-Keeps _ create_max_pool_2d-Keeps
get_operation-Keeps c OperationType.mean = search operation_rules depth 30 fits 10000
get_operation-Keeps c OperationType.minimum = search operation_rules depth 30 fits 10000
get_operation-Keeps c OperationType.mul = search operation_rules depth 30 fits 10000
get_operation-Keeps c OperationType.neg = search operation_rules depth 30 fits 10000
get_operation-Keeps c OperationType.not_equal = search operation_rules depth 30 fits 10000
get_operation-Keeps c OperationType.pad = connect_operation_to_graph-Keeps _ create_pad-Keeps
get_operation-Keeps c OperationType.pad_v2 = connect_operation_to_graph-Keeps _ create_pad_v2-Keeps
get_operation-Keeps c OperationType.pow = search operation_rules depth 30 fits 10000
get_operation-Keeps c OperationType.prelu = search operation_rules depth 30 fits 10000
get_operation-Keeps c OperationType.quantize = connect_quantize-Keeps
get_operation-Keeps c OperationType.reduce_all = search operation_rules depth 30 fits 10000
get_operation-Keeps c OperationType.reduce_any = search operation_rules depth 30 fits 10000
get_operation-Keeps c OperationType.reduce_max = search operation_rules depth 30 fits 10000
get_operation-Keeps c OperationType.reduce_min = search operation_rules depth 30 fits 10000
get_operation-Keeps c OperationType.reduce_prod = search operation_rules depth 30 fits 10000
get_operation-Keeps c OperationType.reduce_sum = search operation_rules depth 30 fits 10000
get_operation-Keeps c OperationType.relu = search operation_rules depth 30 fits 10000
get_operation-Keeps c OperationType.relu1 = search operation_rules depth 30 fits 10000
get_operation-Keeps c OperationType.relu6 = search operation_rules depth 30 fits 10000
get_operation-Keeps c OperationType.reshape =
    connect_operation_to_graph-Keeps _ create_reshape-Keeps
get_operation-Keeps c OperationType.rnn = connect_rnn-Keeps
get_operation-Keeps c OperationType.roi_align =
    connect_operation_to_graph-Keeps _ create_roi_align-Keeps
get_operation-Keeps c OperationType.roi_pooling =
    connect_operation_to_graph-Keeps _ create_roi_pooling-Keeps
get_operation-Keeps c OperationType.rsqrt = connect_operation_to_graph-Keeps _ create_rsqrt-Keeps
get_operation-Keeps c OperationType.resize_bilinear =
    connect_operation_to_graph-Keeps _ create_resize_bilinear-Keeps
get_operation-Keeps c OperationType.resize_nearest_neighbor =
    connect_operation_to_graph-Keeps _ create_resize_nearest_neighbor-Keeps
get_operation-Keeps c OperationType.select = search operation_rules depth 30 fits 10000
get_operation-Keeps c OperationType.softmax =
    connect_operation_to_graph-Keeps _ create_softmax-Keeps
get_operation-Keeps c OperationType.space_to_batch_nd =
    connect_operation_to_graph-Keeps _ create_space_to_batch-Keeps
get_operation-Keeps c OperationType.space_to_depth = search operation_rules depth 30 fits 10000
get_operation-Keeps c OperationType.sqrt = search operation_rules depth 30 fits 10000
get_operation-Keeps c OperationType.sin = search operation_rules depth 30 fits 10000
get_operation-Keeps c OperationType.split = connect_split-Keeps
get_operation-Keeps c OperationType.strided_slice =
    connect_operation_to_graph-Keeps _ create_strided_slice-Keeps
get_operation-Keeps c OperationType.squeeze =
    connect_operation_to_graph-Keeps _ create_squeeze-Keeps
get_operation-Keeps c OperationType.sub = search operation_rules depth 30 fits 10000
get_operation-Keeps c OperationType.tanh = search operation_rules depth 30 fits 10000
get_operation-Keeps c OperationType.topk_v2 = connect_topk_v2-Keeps
get_operation-Keeps c OperationType.transpose_conv_2d =
    connect_operation_to_graph-Keeps _ create_transpose_conv_2d-Keeps
get_operation-Keeps c OperationType.transpose =
    connect_operation_to_graph-Keeps _ create_transpose-Keeps
get_operation-Keeps c OperationType.unidirectional_sequence_rnn =
    connect_unidirectional_sequence_rnn-Keeps
get_operation-Keeps c (OperationType.other n) = tt

-- An operation of any type that OperationsFactory makes, where it connects to the graph: the outputs of
-- the operands that are not among its own outputs stay as they are, there are as many outputs as
-- before, and the results are those of before and perhaps more.
pub get_operation-Extends :
    (c : Context) (t : OperationType) (o : OperationsBase) (s s' : NgraphNodes)
    → get_operation t ≡ some o
    → o.connect_operation_to_graph c s ≡ ok (tt, s')
    → Extends (IsOutput c) s s'
get_operation-Extends c t o s s' made connects =
    ((subst (KeepsOperation c) made (get_operation-Keeps c t)).at_state s).at_end (tt, s') connects
