-- ===== src/PreparedModel/Session/Answers.antt =====
-- BasePreparedModel.cpp: an inference over arguments that are in range.
use nn_hal.Prelude.{
  ℕ, zero, suc, refl, Ends, ok-Ends, after-Ends, and-Returns, ◌<◌, ◌≤◌, Bool, true, false, List, [],
  ◌∷◌, String, ◌≡◌, arith, ok, at, some, get_elem?, Result, nn_assert, length, ltb, All, Returns,
  ok-Returns, then-Returns, if-Returns, at-Returns, All-at, All-map, Ends-Returns,
}
use nn_hal.Utils.Pools.{Os, RunTimePoolInfo, Pointer, address, null, map_failed, is_address}
use nn_hal.ModelInfo.Model.{
  Model, Operand, NnapiModelInfo, Request, RequestArgument, RunTimeOperandInfo, offset_by,
}
use nn_hal.ModelInfo.Memory.{get_operand_type, get_operand}
use nn_hal.ModelInfo.Requests.{
  blob_in, blob_of, get_blob_from_memory_pool_in, get_blob_from_memory_pool_out, copy_dims,
  update_outputshapes,
}
use nn_hal.PreparedModel.Casts.{cast_values}
use nn_hal.PreparedModel.Execution.{Transfer, Engine, Blob, taken, conversion}
use nn_hal.Graph.{Ngraph}
use nn_hal.NgraphNodes.{NgraphNodes, get_node_name}
use nn_hal.NgraphNodes.Names.{IsNamed, get_node_name-IsNamed}
use nn_hal.PreparedModel.Session.Pools.{IsReady}
use nn_hal.PreparedModel.Session.Frame.{
  fixed, SameFrame, get_blob_in-SameFrame, get_blob_out-SameFrame, update_outputshapes-SameFrame,
}

abbrev Answers {ℓ} : {A : Type ℓ} → Result A → Type ℓ
Answers r = Returns (λ a. Unit {0}) r

copy_dims-Returns : (ds ns : List ℕ) → length ds ≤ length ns → Answers (copy_dims ds ns)
unfolding copy_dims
copy_dims-Returns [] ns h = ok-Returns _ tt
copy_dims-Returns (d ∷ ds) [] h = absurd (omega arith)
copy_dims-Returns (d ∷ ds) (n ∷ ns) h =
    then-Returns (copy_dims ds ns) (copy_dims-Returns ds ns (omega arith)) λ rest _. ok-Returns _ tt

pub update_outputshapes-Returns :
    (s : NnapiModelInfo) (i : ℕ) (dims : List ℕ) (sufficient : Bool)
    → i < length s.output_shapes
    → Returns (λ x. SameFrame s x.0) (update_outputshapes s i dims sufficient)
unfolding update_outputshapes
update_outputshapes-Returns s i dims sufficient h =
    Ends-Returns
      (then-Returns (at s.output_shapes i) (at-Returns s.output_shapes i h) λ shape _.
        if-Returns (ltb (length dims) (length shape.dimensions)) _ _ (λ _. ok-Returns _ tt)
          (λ enough.
            then-Returns (copy_dims shape.dimensions dims)
              (copy_dims-Returns shape.dimensions dims (ground (arith, enough)))
              λ ds _. ok-Returns _ tt))
      (update_outputshapes-SameFrame s i dims sufficient)

offset_by-Returns : (p : Pointer) (o : ℕ) → is_address p ≡ true → Answers (offset_by p o)
offset_by-Returns (address a) o e = ok-Returns _ tt
offset_by-Returns null o e = absurd cc
offset_by-Returns map_failed o e = absurd cc

-- The arguments of a request are within the model, the run-time operands, the output shapes and
-- `pools` pools; the blob of each input, by the name that its operand is called, has the room for it, and
-- the casts of the floats in the blob of each output are defined.
pub record Fits (engine : Engine) (call : ℕ → String) (request : Request) (x : Model × ℕ × ℕ)
    (pools : ℕ) : Type 0 where
  pub inputs_fit : length request.inputs ≤ length x.0.input_indexes
  pub outputs_fit : length request.outputs ≤ length x.0.output_indexes
  pub shapes_fit : length x.0.output_indexes ≤ x.2
  pub input_operands : All (λ i. (i < length x.0.operands) × (i < x.1)) x.0.input_indexes
  pub output_operands : All (λ i. (i < length x.0.operands) × (i < x.1)) x.0.output_indexes
  pub input_pools : All (λ a. a.location.pool_index < pools) request.inputs
  pub output_pools : All (λ a. a.location.pool_index < pools) request.outputs
  pub rooms :
      (i j : ℕ) (arg : RequestArgument) (operand : Operand) (ts : List Transfer) (b : Blob)
      → get_elem? request.inputs i ≡ some arg
      → get_elem? x.0.input_indexes i ≡ some j
      → get_elem? x.0.operands j ≡ some operand
      → engine.blob ts (call j) ≡ ok b
      → taken operand.type arg.location.length ≤ b.byte_size
  pub casts :
      (i j : ℕ) (operand : Operand) (ts : List Transfer) (b : Blob)
      → get_elem? x.0.output_indexes i ≡ some j
      → get_elem? x.0.operands j ≡ some operand
      → engine.blob ts (call j) ≡ ok b
      → Answers (cast_values (conversion operand.type) b.floats)

blob_in-Returns :
    (s : NnapiModelInfo) (i : ℕ) (operand : RunTimeOperandInfo) (arg : RequestArgument)
    (r : RunTimePoolInfo)
    → is_address r.buffer ≡ true
    → Answers (blob_in s i operand arg r)
unfolding blob_in
blob_in-Returns s i operand arg r e =
    then-Returns (offset_by r.buffer arg.location.offset)
      (offset_by-Returns r.buffer arg.location.offset e) λ a _. ok-Returns _ tt

nn_assert-Returns : (b : Bool) → b ≡ true → Answers (nn_assert b)
nn_assert-Returns true e = ok-Returns _ tt
nn_assert-Returns false e = absurd cc

blob_of-Returns :
    (os : Os) (s : NnapiModelInfo) (i : ℕ) (arg : RequestArgument)
    → i < length s.operands
    → arg.location.pool_index < length s.request_pool_infos
    → All (IsReady os) s.request_pool_infos
    → Answers (blob_of s i arg)
unfolding blob_of
blob_of-Returns os s i arg hi hp ready =
    let p = arg.location.pool_index in
    then-Returns (at s.operands i) (at-Returns s.operands i hi) λ operand _.
      then-Returns (nn_assert (ltb p (length s.request_pool_infos)))
        (nn_assert-Returns (ltb p (length s.request_pool_infos)) (ground arith))
        λ u _.
          then-Returns (at s.request_pool_infos p) (All-at s.request_pool_infos p ready hp)
            λ r e. blob_in-Returns s i operand arg r e.0

pub at-found {ℓ} :
    {A : Type ℓ} (xs : List A) (i : ℕ) → Ends (λ a. get_elem? xs i ≡ some a) (at xs i)
at-found [] i = record { at_end = λ a wrong. absurd cc }
at-found (x ∷ xs) zero = ok-Ends x refl
at-found (x ∷ xs) (suc i) = at-found xs i

-- The type of an operand that there is.
pub get_operand_type-Returns :
    (s : NnapiModelInfo) (i : ℕ)
    → i < length s.model.operands
    → Returns
        (λ type.
          (operand : Operand) × (get_elem? s.model.operands i ≡ some operand)
          × (type ≡ operand.type))
        (get_operand_type s i)
unfolding get_operand_type get_operand
get_operand_type-Returns s i h =
    then-Returns (at s.model.operands i)
      (Ends-Returns (at-Returns s.model.operands i h) (at-found s.model.operands i))
      λ operand found. ok-Returns _ (operand, found, refl)

module _ (os : Os) (g : Ngraph) (engine : Engine) (call : ℕ → String) (request : Request) where
  -- A request that fits, over pools that are ready and nodes whose inputs and outputs have names.
  abbrev pub IsServable : Model × ℕ × ℕ × List RunTimePoolInfo → NgraphNodes → Type 0
  IsServable f graph =
      Fits engine call request (f.0, f.1, f.2) (length f.3)
      × All (IsReady os) f.3
      × All (IsNamed g call graph) f.0.input_indexes
      × All (IsNamed g call graph) f.0.output_indexes

  IsServable-get_node_name :
      (f : Model × ℕ × ℕ × List RunTimePoolInfo) (graph graph' : NgraphNodes) (j : ℕ)
      (name : String)
      → get_node_name g graph j ≡ ok (name, graph')
      → IsServable f graph
      → IsServable f graph'
  IsServable-get_node_name f graph graph' j name e (fits, ready, ins, outs) =
      let keeps : (i : ℕ) → IsNamed g call graph i → IsNamed g call graph' i =
        λ i named. get_node_name-IsNamed g call graph graph' i j name e named in
      (fits, ready, All-map f.0.input_indexes keeps ins, All-map f.0.output_indexes keeps outs)

  pub get_node_name-IsServable :
      (f : Model × ℕ × ℕ × List RunTimePoolInfo) (graph : NgraphNodes) (j : ℕ)
      → IsNamed g call graph j
      → IsServable f graph
      → Returns (λ r. (r.0 ≡ call j) × IsServable f r.1) (get_node_name g graph j)
  get_node_name-IsServable f graph j named servable = record {
    result = named.result;
    returns = named.returns;
    holds = (
      named.holds,
      IsServable-get_node_name f graph named.result.1 j named.result.0 named.returns servable,
    );
  }

  -- the length that an input's argument gives
  abbrev pub IsLong : ℕ → ℕ → Type 0
  IsLong i len =
      (arg : RequestArgument) × (get_elem? request.inputs i ≡ some arg)
      × (len ≡ arg.location.length)

  length_lem :
      (s : NnapiModelInfo) (i : ℕ)
      → Ends (λ x. IsLong i x.2) (get_blob_from_memory_pool_in s request i)
  unfolding get_blob_from_memory_pool_in blob_of blob_in
  length_lem s i = after-Ends (at s.model.input_indexes i) λ j _.
      after-Ends (at request.inputs i) λ arg found. after-Ends (at s.operands j) λ operand _.
        after-Ends (nn_assert (ltb arg.location.pool_index (length s.request_pool_infos))) λ u _.
          after-Ends (at s.request_pool_infos arg.location.pool_index) λ r _.
            after-Ends (offset_by r.buffer arg.location.offset)
              λ a _. ok-Ends _ (arg, (at-found request.inputs i).at_end arg found, refl)

  pub get_blob_in-Returns :
      (s : NnapiModelInfo) (i : ℕ)
      → Fits engine call request (fixed s) (length s.request_pool_infos)
      → All (IsReady os) s.request_pool_infos
      → i < length request.inputs
      → Returns (λ x. SameFrame s x.0 × IsLong i x.2) (get_blob_from_memory_pool_in s request i)
  unfolding get_blob_from_memory_pool_in
  get_blob_in-Returns s i fits ready h =
      and-Returns
        (Ends-Returns
          (then-Returns (at s.model.input_indexes i)
            (All-at s.model.input_indexes i fits.input_operands (omega (arith, fits.inputs_fit)))
            λ j hj.
              then-Returns (at request.inputs i) (All-at request.inputs i fits.input_pools h)
                λ arg hp. blob_of-Returns os s j arg hj.1 hp ready)
          (get_blob_in-SameFrame s request i))
        (length_lem s i)

  pub get_blob_out-Returns :
      (s : NnapiModelInfo) (i : ℕ)
      → Fits engine call request (fixed s) (length s.request_pool_infos)
      → All (IsReady os) s.request_pool_infos
      → i < length request.outputs
      → Returns (λ x. SameFrame s x.0) (get_blob_from_memory_pool_out s request i)
  unfolding get_blob_from_memory_pool_out
  get_blob_out-Returns s i fits ready h =
      Ends-Returns
        (then-Returns (at s.model.output_indexes i)
          (All-at s.model.output_indexes i fits.output_operands (omega (arith, fits.outputs_fit)))
          λ j hj.
            then-Returns (at request.outputs i) (All-at request.outputs i fits.output_pools h)
              λ arg hp. blob_of-Returns os s j arg hj.1 hp ready)
        (get_blob_out-SameFrame s request i)
