-- ===== src/Lib.antt =====
-- nn-hal: the Android neural networks HAL that runs a model on OpenVINO.
--
-- The program. A client hands a model to the driver (Driver.cpp), which makes the device's prepared
-- model (cpu/CpuPreparedModel.cpp, gna/GnaPreparedModel.cpp on BasePreparedModel.cpp). The prepared
-- model keeps a run-time copy of the model (ModelManager.cpp), has the network creator
-- (ngraph_creator/src/NgraphNetworkCreator.cpp) translate the operations into an nGraph function, and
-- loads it into the plugin (IENetwork.cpp). The creator makes one OperationsBase for each operation by
-- OperationsFactory.cpp; the operations share the nodes made so far through NgraphNodes.cpp. A request
-- then moves bytes between the memory pools that it names and the blobs of the plugin.
--
-- Which file models what:
--   Types, Prelude         the enumerations of the interface; helpers, the result type of code that
--                          may abort (nnAssert), throw or be undefined, and the arithmetic of float
--                          and double (Floats)
--   Utils/                 utils.cpp: float2half and f16tof32 (Half), sizes of tensors (Sizes), and
--                          RunTimePoolInfo (Pools)
--   ModelInfo/             ModelManager.h and ModelManager.cpp, class NnapiModelInfo: the state (Model),
--                          initializeRunTimeOperandInfo and initRuntimeInfo (Runtime), GetOperandMemory
--                          and the constants (Memory), pools and blobs of a request (Requests)
--   Graph                  nGraph as the program uses it: a node is the call that makes it, and what
--                          nGraph answers for a node is a parameter
--   NgraphNodes            ngraph_creator/src/NgraphNodes.cpp, and sequences of its methods (Calls)
--   Build, Operations/     ngraph_creator/operations: OperationsBase (Base, Inputs), NgraphHelper.hpp
--                          (Padding, and applyActivation in Inputs), the operations (Elementwise,
--                          Layout, Pooling, Conv2d, GroupConvolutions for DepthwiseConv2d and
--                          GroupedConv2d, TransposeConv2d, Blocks, Resizing, Regions for the ROI
--                          operations, Slicing for StridedSlice, Shapes for Reshape and Argmax, Cast,
--                          Outputs for Split and TopkV2, Recurrent for the RNNs, Lstm), and
--                          OperationsFactory.cpp (Factory). Build/Frame and each Frame file below
--                          Operations/ are about what an operation leaves alone
--   NetworkCreator         ngraph_creator/src/NgraphNetworkCreator.cpp
--   PreparedModel/         BasePreparedModel.cpp, IENetwork.cpp, cpu/, gna/: initialisation, the movement
--                          of blobs and inference (Execution), the casts of outputs (Casts), the three
--                          ways to execute (Calls), and the calls of a client that waits for each as a
--                          step relation with the protocol of an inference request (Session)
--   Driver/                Driver.cpp: preparation, supported operations, capabilities for every version
--                          (Capabilities, Capabilities/Versions), constant answers
--   Scenarios/             tests: a small model, and each theorem at a concrete input
--
-- How it is modelled. A C++ object is a record, and a method a function from the record to the result
-- and the new record. What a method may do besides is in its result type: ok, or a fault (abort for
-- nnAssert, an exception, undefined for undefined behaviour such as a null dereference, an index out
-- of range, or an unset local). Machine integers are natural numbers with their wrap-around written
-- out; an int32_t whose overflow would be undefined is an integer that is tested. A float is its
-- bit pattern, and the arithmetic of floats is that of IEEE 754 on the patterns, with the rounding to
-- nearest. The calls of the operating system and of the message callback are recorded in a history
-- and in a list of notifications, so that their order and number can be stated.
--
-- Parameters. nGraph (Graph.Ngraph), the plugin (PreparedModel.Execution.Engine), the operating system
-- (Utils.Pools.Os), the bytes of the mapped memory (ModelInfo.Memory.Memory) and the interface's
-- validation and conversion of models are not code of this repository: they are arguments. Their
-- answers are arbitrary unless a theorem names a hypothesis.
--
-- Loops are recursion on the list or the count that the source's loop runs over. The one fuel is that of
-- exponent_from (Prelude/Floats), which looks for the exponent of a rounded value: it is given more
-- steps than the format has exponents, after which the value is infinity in any case (Floats/Rounds).
--
-- The thread that execute starts is a value that execute_base returns, and async_execute is what it does.
-- with_thread runs it to its end with nothing in between; calls that overlap, which share the one
-- inference request without a lock, have no step relation. Whether an inference ends in the time that
-- Wait(10000) has is an answer of the plugin, which the code does not read.
--
-- Not modelled: the interleaving of overlapping calls; the executor of a burst context, which is a
-- library's; the values of a timing, of which the model keeps whether there is one; the values that a
-- transfer writes, which records the place, the cast and the sizes, the casts being done for whether
-- they are defined; service.cpp; logging and file dumps.
mod Prelude
pub mod Types
pub mod Utils
pub mod ModelInfo
pub mod Graph
pub mod NgraphNodes
pub mod Build
pub mod Operations
pub mod NetworkCreator
pub mod PreparedModel
pub mod Driver
mod Scenarios
