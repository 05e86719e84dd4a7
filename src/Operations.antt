-- ===== src/Operations.antt =====
-- ngraph_creator/operations: the operations of NNAPI as builders of graph nodes.
pub mod Base
pub mod Inputs
pub mod Padding
pub mod Elementwise
pub mod Layout
pub mod Pooling
pub mod Conv2d
pub mod GroupConvolutions
pub mod TransposeConv2d
pub mod Resizing
pub mod Regions
pub mod Slicing
pub mod Shapes
pub mod Blocks
pub mod Outputs
pub mod Recurrent
pub mod Lstm
pub mod Cast
pub mod Factory
