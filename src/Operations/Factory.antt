-- ===== src/Operations/Factory.antt =====
-- ngraph_creator/src/OperationsFactory.cpp, and the virtual functions of OperationsBase.hpp that the
-- creator of the network calls.
pub mod Frame
use nn_hal.Prelude.{Bool, true, Option, none, some}
use nn_hal.Types.{OperationType}
use nn_hal.Graph.{Node}
use nn_hal.Build.{Build, pure}
use nn_hal.Operations.Inputs.{connect_operation_to_graph}
use nn_hal.Operations.Elementwise.{
  create_abs, create_add, create_div, create_equal, create_exp, create_floor, create_greater,
  create_greater_equal, create_hard_swish, create_less, create_less_equal, create_log,
  create_logical_and, create_logical_not, create_logical_or, create_logistic, create_maximum,
  create_minimum, create_mul, create_neg, create_not_equal, create_pow, create_prelu,
  create_reduce_all, create_reduce_any, create_reduce_max, create_reduce_min, create_reduce_prod,
  create_reduce_sum, create_relu, create_relu1, create_relu6, create_rsqrt, create_select,
  create_sqrt, create_sin, create_sub, create_tanh, validate_add,
}
use nn_hal.Operations.Layout.{
  create_concat, create_depth_to_space, create_space_to_depth, create_embedding_lookup,
  create_expand_dims, create_gather, create_l2_normalization, create_softmax, create_log_softmax,
  create_mean, create_pad, create_squeeze, create_transpose, create_dequantize, connect_quantize,
  validate_concat, validate_embedding_lookup, validate_expand_dims, validate_l2_normalization,
  validate_mean, validate_pad, validate_prelu, validate_squeeze, validate_transpose,
}
use nn_hal.Operations.Pooling.{
  validate_average_pool_2d, create_average_pool_2d, create_max_pool_2d, create_l2_pooling_2d,
}
use nn_hal.Operations.Blocks.{
  validate_batch_to_space, create_batch_to_space, validate_space_to_batch, create_space_to_batch,
  create_pad_v2, validate_fully_connected, create_fully_connected, validate_channel_shuffle,
  create_channel_shuffle,
}
use nn_hal.Operations.Outputs.{connect_split, connect_topk_v2}
use nn_hal.Operations.GroupConvolutions.{
  validate_depthwise_conv_2d, create_depthwise_conv_2d, validate_grouped_conv_2d,
  create_grouped_conv_2d,
}
use nn_hal.Operations.TransposeConv2d.{validate_transpose_conv_2d, create_transpose_conv_2d}
use nn_hal.Operations.Resizing.{
  validate_resize, create_resize_bilinear, create_resize_nearest_neighbor,
}
use nn_hal.Operations.Regions.{
  validate_instance_normalization, create_instance_normalization, validate_roi_align,
  create_roi_align, validate_roi_pooling, create_roi_pooling,
}
use nn_hal.Operations.Slicing.{validate_strided_slice, create_strided_slice}
use nn_hal.Operations.Shapes.{validate_reshape, create_reshape, create_argmax, create_argmin}
use nn_hal.Operations.Recurrent.{connect_rnn, connect_unidirectional_sequence_rnn}
use nn_hal.Operations.Recurrent.Bidirectional.{connect_bidirectional_sequence_rnn}
use nn_hal.Operations.Lstm.{validate_lstm}
use nn_hal.Operations.Lstm.Cell.{connect_lstm}
use nn_hal.Operations.Cast.{connect_cast}
use nn_hal.Operations.Conv2d.{validate_conv_2d, create_conv_2d}

-- An operation of the model, as the creator of the network sees it.
pub record OperationsBase : Type 0 where
  pub validate_for_plugin : Build Bool
  pub connect_operation_to_graph : Build (Unit {0})

-- validateForPlugin calls validate, connectOperationToGraph calls createNodeForPlugin.
abbrev pub validated : Build Bool → Build Node → OperationsBase
validated validate create_node = record {
  validate_for_plugin = validate;
  connect_operation_to_graph = connect_operation_to_graph create_node;
}

-- OperationsBase::validate
abbrev pub unconditional : Build Node → OperationsBase
unconditional create_node = validated (pure true) create_node

-- an operation that overrides connectOperationToGraph
abbrev pub connected_by : Build (Unit {0}) → OperationsBase
connected_by connect = record {
  validate_for_plugin = pure true;
  connect_operation_to_graph = connect;
}

unfoldable pub get_operation : OperationType → Option OperationsBase
get_operation OperationType.abs = some (unconditional create_abs)
get_operation OperationType.add = some (validated validate_add create_add)
get_operation OperationType.argmax = some (unconditional create_argmax)
get_operation OperationType.argmin = some (unconditional create_argmin)
get_operation OperationType.average_pool_2d =
    some (validated validate_average_pool_2d create_average_pool_2d)
get_operation OperationType.batch_to_space_nd =
    some (validated validate_batch_to_space create_batch_to_space)
get_operation OperationType.bidirectional_sequence_rnn =
    some (connected_by connect_bidirectional_sequence_rnn)
get_operation OperationType.cast = some (connected_by connect_cast)
get_operation OperationType.channel_shuffle =
    some (validated validate_channel_shuffle create_channel_shuffle)
get_operation OperationType.concatenation = some (validated validate_concat create_concat)
get_operation OperationType.conv_2d = some (validated validate_conv_2d create_conv_2d)
get_operation OperationType.depth_to_space = some (unconditional create_depth_to_space)
get_operation OperationType.depthwise_conv_2d =
    some (validated validate_depthwise_conv_2d create_depthwise_conv_2d)
get_operation OperationType.dequantize = some (unconditional create_dequantize)
get_operation OperationType.div = some (unconditional create_div)
get_operation OperationType.embedding_lookup =
    some (validated validate_embedding_lookup create_embedding_lookup)
get_operation OperationType.equal = some (unconditional create_equal)
get_operation OperationType.exp = some (unconditional create_exp)
get_operation OperationType.expand_dims = some (validated validate_expand_dims create_expand_dims)
get_operation OperationType.fully_connected =
    some (validated validate_fully_connected create_fully_connected)
get_operation OperationType.floor = some (unconditional create_floor)
get_operation OperationType.gather = some (unconditional create_gather)
get_operation OperationType.greater = some (unconditional create_greater)
get_operation OperationType.greater_equal = some (unconditional create_greater_equal)
get_operation OperationType.grouped_conv_2d =
    some (validated validate_grouped_conv_2d create_grouped_conv_2d)
get_operation OperationType.hard_swish = some (unconditional create_hard_swish)
get_operation OperationType.instance_normalization =
    some (validated validate_instance_normalization create_instance_normalization)
get_operation OperationType.l2_pool_2d = some (unconditional create_l2_pooling_2d)
get_operation OperationType.l2_normalization =
    some (validated validate_l2_normalization create_l2_normalization)
get_operation OperationType.lstm =
    some (record { validate_for_plugin = validate_lstm; connect_operation_to_graph = connect_lstm })
get_operation OperationType.less = some (unconditional create_less)
get_operation OperationType.less_equal = some (unconditional create_less_equal)
get_operation OperationType.log_softmax = some (unconditional create_log_softmax)
get_operation OperationType.log = some (unconditional create_log)
get_operation OperationType.logical_and = some (unconditional create_logical_and)
get_operation OperationType.logical_not = some (unconditional create_logical_not)
get_operation OperationType.logical_or = some (unconditional create_logical_or)
get_operation OperationType.logistic = some (unconditional create_logistic)
get_operation OperationType.maximum = some (unconditional create_maximum)
get_operation OperationType.max_pool_2d = some (unconditional create_max_pool_2d)
get_operation OperationType.mean = some (validated validate_mean create_mean)
get_operation OperationType.minimum = some (unconditional create_minimum)
get_operation OperationType.mul = some (unconditional create_mul)
get_operation OperationType.neg = some (unconditional create_neg)
get_operation OperationType.not_equal = some (unconditional create_not_equal)
get_operation OperationType.pad = some (validated validate_pad create_pad)
get_operation OperationType.pad_v2 = some (validated validate_pad create_pad_v2)
get_operation OperationType.pow = some (unconditional create_pow)
get_operation OperationType.prelu = some (validated validate_prelu create_prelu)
get_operation OperationType.quantize = some (connected_by connect_quantize)
get_operation OperationType.reduce_all = some (unconditional create_reduce_all)
get_operation OperationType.reduce_any = some (unconditional create_reduce_any)
get_operation OperationType.reduce_max = some (unconditional create_reduce_max)
get_operation OperationType.reduce_min = some (unconditional create_reduce_min)
get_operation OperationType.reduce_prod = some (unconditional create_reduce_prod)
get_operation OperationType.reduce_sum = some (unconditional create_reduce_sum)
get_operation OperationType.relu = some (unconditional create_relu)
get_operation OperationType.relu1 = some (unconditional create_relu1)
get_operation OperationType.relu6 = some (unconditional create_relu6)
get_operation OperationType.reshape = some (validated validate_reshape create_reshape)
get_operation OperationType.rnn = some (connected_by connect_rnn)
get_operation OperationType.roi_align = some (validated validate_roi_align create_roi_align)
get_operation OperationType.roi_pooling = some (validated validate_roi_pooling create_roi_pooling)
get_operation OperationType.rsqrt = some (unconditional create_rsqrt)
get_operation OperationType.resize_bilinear =
    some (validated validate_resize create_resize_bilinear)
get_operation OperationType.resize_nearest_neighbor =
    some (validated validate_resize create_resize_nearest_neighbor)
get_operation OperationType.select = some (unconditional create_select)
get_operation OperationType.softmax = some (unconditional create_softmax)
get_operation OperationType.space_to_batch_nd =
    some (validated validate_space_to_batch create_space_to_batch)
get_operation OperationType.space_to_depth = some (unconditional create_space_to_depth)
get_operation OperationType.sqrt = some (unconditional create_sqrt)
get_operation OperationType.sin = some (unconditional create_sin)
get_operation OperationType.split = some (connected_by connect_split)
get_operation OperationType.strided_slice =
    some (validated validate_strided_slice create_strided_slice)
get_operation OperationType.squeeze = some (validated validate_squeeze create_squeeze)
get_operation OperationType.sub = some (unconditional create_sub)
get_operation OperationType.tanh = some (unconditional create_tanh)
get_operation OperationType.topk_v2 = some (connected_by connect_topk_v2)
get_operation OperationType.transpose_conv_2d =
    some (validated validate_transpose_conv_2d create_transpose_conv_2d)
get_operation OperationType.transpose = some (validated validate_transpose create_transpose)
get_operation OperationType.unidirectional_sequence_rnn =
    some (connected_by connect_unidirectional_sequence_rnn)
get_operation (OperationType.other n) = none
