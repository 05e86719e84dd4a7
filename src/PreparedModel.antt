-- ===== src/PreparedModel.antt =====
-- cpu/CpuPreparedModel.cpp, gna/GnaPreparedModel.cpp and IENetwork.cpp: a prepared model, from the
-- model of the client to the network that is loaded. The inference engine is a parameter.
pub mod Execution
pub mod Calls
pub mod Teardown
pub mod Session
pub mod Casts
use nn_hal.Prelude.{
  ℕ, Bool, true, false, List, [], Option, none, some, Result, ok, fault, exception, Fault, ◌>>=◌,
}
use nn_hal.Types.{IntelDeviceType, OperationType}
use nn_hal.Utils.Pools.{Os, History}
use nn_hal.ModelInfo.Model.{Model, NnapiModelInfo, nnapi_model_info}
use nn_hal.ModelInfo.Memory.{Memory}
use nn_hal.ModelInfo.Runtime.{init_runtime_info}
use nn_hal.ModelInfo.Requests.{unmap_runtime_mem_pools}
use nn_hal.Graph.{Ngraph, Graph}
use nn_hal.Operations.Factory.{OperationsBase}
use nn_hal.NetworkCreator.{
  NgraphNetworkCreator, ngraph_network_creator, validate_operations, generate_graph, caught,
}

-- What is not in the repository: the system, nGraph and the inference engine, with the operations
-- that have no model here and the bytes of the pools that are mapped.
pub record Platform : Type 0 where
  pub os : Os
  pub ngraph : Ngraph
  pub memory : Memory
  -- CNNNetwork and its serialize
  pub refuses_network : Graph → Option Fault
  -- LoadNetwork and CreateInferRequest
  pub refuses_load : Graph → Option Fault

pub record PreparedModel : Type 0 where
  pub target_device : IntelDeviceType
  pub model_info : NnapiModelInfo
  pub ngraph_net_creator : Option NgraphNetworkCreator
  pub plugin : Option Graph

unfoldable pub base_prepared_model : IntelDeviceType → Model → PreparedModel
base_prepared_model device model = record {
  target_device = device;
  model_info = nnapi_model_info model;
  ngraph_net_creator = none;
  plugin = none;
}

abbrev pub accepted : Option Fault → Result (Unit {0})
accepted none = ok tt
accepted (some e) = fault e

-- IENetwork::loadNetwork
unfoldable pub load_network : Platform → Option Graph → Result Bool
load_network p none = ok false
load_network p (some graph) = do u ← accepted (p.refuses_load graph); ok true

-- From the network to the loaded plugin: the value of loadNetwork is not looked at.
unfoldable pub load_plugin : Platform → Graph → Result (Option Graph)
load_plugin p graph = do
  u ← accepted (p.refuses_network graph)
  loaded ← load_network p (some graph)
  ok (some graph)

-- the end of `initialize`, by the function that was generated and how its network loads
with_plugin :
    (Graph → Result (Option Graph)) → PreparedModel → Option Graph → Result (PreparedModel × Bool)
with_plugin load s none = ok (s, false)
with_plugin load s (some graph) = do
  loaded ← load graph
  elim loaded [
    | none ↦ ok (s, false)
    | some network ↦ ok (record s { plugin = some network }, true)
  ]

-- the part of `initialize` that builds the graph
build_network :
    (Graph → Result (Option Graph))
    → PreparedModel
    → NgraphNetworkCreator
    → Result (PreparedModel × Bool)
unfolding with_plugin
build_network load s creator = do
  valid ← validate_operations creator
  elim valid [
    | false ↦ ok (record s { ngraph_net_creator = some creator }, false)
    | true ↦ (do
      made ← generate_graph creator
      elim made [
        | none ↦ ok (record s { ngraph_net_creator = some creator }, false)
        | some (graph_nodes, graph) ↦
            with_plugin load
              (record s { ngraph_net_creator = some (record creator { graph = graph_nodes }) })
              (some graph)
      ])
  ]

-- what both classes do, up to how the network is loaded
unfoldable pub initialize_with :
    Platform
    → (Graph → Result (Option Graph))
    → PreparedModel
    → History
    → Result (PreparedModel × Bool × History)
unfolding build_network
initialize_with p load s h = do
  (info, done, h') ← init_runtime_info p.os s.model_info h
  let s' = record s { model_info = info }
  elim done [
    | false ↦ ok (s', false, h')
    | true ↦ (do
      creator ← ngraph_network_creator p.ngraph p.memory info s.target_device
      (s'', loaded) ← build_network load s' creator
      ok (s'', loaded, h'))
  ]

-- CpuPreparedModel::initialize catches the exceptions of the engine.
unfoldable pub cpu_initialize :
    Platform → PreparedModel → History → Result (PreparedModel × Bool × History)
unfolding initialize_with load_plugin
cpu_initialize p s h = initialize_with p (λ graph. caught (load_plugin p graph)) s h

unfoldable pub gna_initialize :
    Platform → PreparedModel → History → Result (PreparedModel × Bool × History)
unfolding initialize_with load_plugin
gna_initialize p s h = initialize_with p (load_plugin p) s h

-- deinitialize of BasePreparedModel, CpuPreparedModel and GnaPreparedModel
unfoldable pub deinitialize : Os → PreparedModel → History → PreparedModel × History
deinitialize os s h =
    let (info, h') = unmap_runtime_mem_pools os s.model_info h in
    (record s { model_info = info }, h')

-- The destructor of the derived class calls deinitialize, and so does that of BasePreparedModel.
unfoldable pub destroy : Os → PreparedModel → History → History
unfolding deinitialize
destroy os s h = let (s', h') = deinitialize os s h in (deinitialize os s' h').1
