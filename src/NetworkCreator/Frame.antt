-- ===== src/NetworkCreator/Frame.antt =====
-- NgraphNetworkCreator.cpp: what initializeModel keeps of the graph as the operations connect.
use nn_hal.Prelude.{
  IsSublist, ℕ, suc, true, List, [], ◌∷◌, Option, none, some, ◌>>=◌, >>=-eq-ok, Result, ok, fault,
  exception, abort, undefined, ◌≡◌, refl, at, get_elem?, All, Ends, ok-Ends, then-Ends, after-Ends,
  or_undefined, ap,
}
use mathlib.Core.Path.{subst}
use nn_hal.Types.{IntelDeviceType}
use nn_hal.ModelInfo.Model.{NnapiModelInfo, Operand, Operation}
use nn_hal.ModelInfo.Memory.{Memory, get_operand, get_operation_output}
use nn_hal.Graph.{Ngraph}
use nn_hal.NgraphNodes.{NgraphNodes}
use nn_hal.Build.{Context}
use nn_hal.Build.Frame.{Extends, Extends-refl, Extends-trans, Extends-weaken, IsOutput}
use nn_hal.Operations.Factory.{OperationsBase, get_operation}
use nn_hal.Operations.Factory.Frame.{KeepsOperation, get_operation-Keeps}
use nn_hal.NetworkCreator.{
  NgraphNetworkCreator, operation_node, operations_of, ngraph_network_creator, has_size,
  create_input_params, context, caught, connected, connect_from, initialize_model,
}
use nn_hal.NetworkCreator.Parameters.{IsParameter, create_input_params-IsParameter}

abbrev Keeping : Option OperationsBase → Type 0
Keeping o = (c : Context) → KeepsOperation c o

node-Ends :
    (outputs : List ℕ) (o : Option OperationsBase)
    → Keeping o
    → Ends Keeping (elim o [ none ↦ ok none | some o ↦ (at outputs 0 >>= λ i. ok (some o)) ])
node-Ends outputs none h = ok-Ends none h
node-Ends outputs (some o) h = after-Ends (at outputs 0) λ i _. ok-Ends (some o) h

operations_of-Ends : (ops : List Operation) → Ends (All Keeping) (operations_of ops)
unfolding operations_of operation_node
operations_of-Ends [] = ok-Ends [] tt
operations_of-Ends (op ∷ ops) =
    then-Ends (operation_node op)
      (node-Ends op.outputs (get_operation op.type) (λ c. get_operation-Keeps c op.type))
      λ o h. then-Ends (operations_of ops) (operations_of-Ends ops) λ os hs. ok-Ends _ (h, hs)

-- The operand is an output of some operation of the model.
abbrev pub IsProduced : NnapiModelInfo → ℕ → Type 0
IsProduced info i = (operation k : ℕ) × (get_operation_output info operation k ≡ ok i)

connected_lem :
    (r : Result (Unit {0} × NgraphNodes)) (s : NgraphNodes)
    → caught (connected r) ≡ ok (some s)
    → r ≡ ok (tt, s)
connected_lem (ok (tt, t)) s h = ap (λ x. ok (tt, x)) cc
connected_lem (fault exception) s h = absurd cc
connected_lem (fault abort) s h = absurd cc
connected_lem (fault undefined) s h = absurd cc

-- What the loop of initializeModel makes of the graph, where it returns true.
abbrev Grows : NgraphNetworkCreator → NgraphNodes → Option NgraphNodes → Type 0
Grows c s none = Unit
Grows c s (some s') = Extends (IsProduced c.info) s s'

connect_one :
    (c : NgraphNetworkCreator) (i : ℕ) (o : OperationsBase) (s s' : NgraphNodes)
    → Keeping (some o)
    → caught (connected (o.connect_operation_to_graph (context c i) s)) ≡ ok (some s')
    → Extends (IsProduced c.info) s s'
connect_one c i o s s' keeping e =
    Extends-weaken (IsOutput (context c i)) (IsProduced c.info) s s' (λ j (k, h). (i, k, h))
      (((keeping (context c i)).at_state s).at_end (tt, s')
        (connected_lem (o.connect_operation_to_graph (context c i) s) s' e))

Grows-trans :
    (c : NgraphNetworkCreator) (s t : NgraphNodes) (r : Option NgraphNodes)
    → Extends (IsProduced c.info) s t
    → Grows c t r
    → Grows c s r
Grows-trans c s t none e h = tt
Grows-trans c s t (some u) e h = Extends-trans (IsProduced c.info) s t u e h

connect_rest :
    (c : NgraphNetworkCreator) (i : ℕ) (o : OperationsBase) (os : List (Option OperationsBase))
    (s : NgraphNodes) (made : Option NgraphNodes)
    → Keeping (some o)
    → ((t : NgraphNodes) → Ends (Grows c t) (connect_from c (suc i) os t))
    → caught (connected (o.connect_operation_to_graph (context c i) s)) ≡ ok made
    → Ends (Grows c s) (elim made [ none ↦ ok none | some t ↦ connect_from c (suc i) os t ])
connect_rest c i o os s none keeping more e = ok-Ends none tt
connect_rest c i o os s (some t) keeping more e = record {
  at_end = λ r er. Grows-trans c s t r (connect_one c i o s t keeping e) ((more t).at_end r er);
}

connect_from-Grows :
    (c : NgraphNetworkCreator) (i : ℕ) (os : List (Option OperationsBase)) (s : NgraphNodes)
    → All Keeping os
    → Ends (Grows c s) (connect_from c i os s)
unfolding connect_from
connect_from-Grows c i [] s h = ok-Ends _ (Extends-refl (IsProduced c.info) s)
connect_from-Grows c i (none ∷ os) s h = ok-Ends none tt
connect_from-Grows c i (some o ∷ os) s (one, more) =
    after-Ends (caught (connected (o.connect_operation_to_graph (context c i) s)))
      λ made e. connect_rest c i o os s made one (λ t. connect_from-Grows c (suc i) os t more) e

-- The creator of a model: its operations keep the graph, and its model is the given one.
creator-Ends :
    (g : Ngraph) (memory : Memory) (info : NnapiModelInfo) (plugin : IntelDeviceType)
    → Ends
        (λ c. (c.info ≡ info) × All Keeping c.operation_nodes)
        (ngraph_network_creator g memory info plugin)
unfolding ngraph_network_creator
creator-Ends g memory info plugin =
    then-Ends (operations_of info.model.operations) (operations_of-Ends info.model.operations)
      λ os h. ok-Ends _ (refl, h)

-- The state between createInputParams and the loop, where initializeModel returns true.
initialized :
    (c : NgraphNetworkCreator) (s' : NgraphNodes)
    → All Keeping c.operation_nodes
    → initialize_model c ≡ ok (some s')
    → (s : NgraphNodes) × (create_input_params c.info c.graph ≡ ok (some s))
      × Extends (IsProduced c.info) s s'
unfolding initialize_model
initialized c s' h e =
    let (made, em, er) = >>=-eq-ok (create_input_params c.info c.graph) (after c) e in
    known made em er
  where
    after : NgraphNetworkCreator → Option NgraphNodes → Result (Option NgraphNodes)
    after c none = ok none
    after c (some s) = connect_from c 0 c.operation_nodes s

    known :
        (made : Option NgraphNodes)
        → create_input_params c.info c.graph ≡ ok made
        → after c made ≡ ok (some s')
        → (s : NgraphNodes) × (create_input_params c.info c.graph ≡ ok (some s))
          × Extends (IsProduced c.info) s s'
    known none em er = absurd cc
    known (some s) em er =
        (s, em, (connect_from-Grows c 0 c.operation_nodes s h).at_end (some s') er)

-- Where initializeModel returns true, for an input whose operand has a first dimension that is not zero
-- and that is no operation's output: createInputParams made a parameter of the operand's dimensions and
-- element type, as the operand's output and among the graph's parameters; after all operations have
-- been connected, the operand's output is still that parameter, and the graph's parameters are those
-- that createInputParams made, in their order, but for some that operations may have removed.
pub initialize_model-IsParameter :
    (g : Ngraph) (memory : Memory) (info : NnapiModelInfo) (plugin : IntelDeviceType)
    (c : NgraphNetworkCreator) (n i : ℕ) (s' : NgraphNodes) (op : Operand)
    → ngraph_network_creator g memory info plugin ≡ ok c
    → get_elem? info.model.input_indexes n ≡ some i
    → get_operand info i ≡ ok op
    → has_size op.dimensions ≡ true
    → ¬ IsProduced info i
    → initialize_model c ≡ ok (some s')
    → (s : NgraphNodes) × (create_input_params info c.graph ≡ ok (some s))
      × IsParameter s i op
      × (at s'.output_at_operand_index i ≡ at s.output_at_operand_index i)
      × IsSublist s'.input_params s.input_params
initialize_model-IsParameter g memory info plugin c n i s' op made hi hop hs free e =
    let (same, keeping) = (creator-Ends g memory info plugin).at_end c made in
    let (s, es, grown) = initialized c s' keeping e in
    let created = subst (λ x. create_input_params x c.graph ≡ ok (some s)) same es in
    let other = grown.others i (λ produced. free (subst (λ x. IsProduced x i) same produced)) in
    (
      s,
      created,
      create_input_params-IsParameter info n i c.graph s op hi hop hs created,
      ap or_undefined other,
      grown.parameters,
    )
