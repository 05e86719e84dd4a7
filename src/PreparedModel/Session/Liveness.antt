-- ===== src/PreparedModel/Session/Liveness.antt =====
-- BasePreparedModel.cpp: the answers to requests whose arguments are in range.
use text.Mathlib.Text.{◌==◌ as str_eq}
use mathlib.Core.Path.{subst}
use nn_hal.Prelude.{
  Ends, and-Returns, get_elem?, leb, ◌≤◌, ok, ℕ, suc, ◌+◌, ◌<◌, Bool, List, [], ◌∷◌, Option, none,
  some, String, ◌≡◌, ◌⊎◌, inl, inr, sym, ap, arith, exception, Fault, at, length, Returns,
  ok-Returns, then-Returns, if-Returns, elim-Returns, All-at_both, ◌==◌, ◌%◌, ◌^◌,
}
use nn_hal.Utils.Pools.{Os}
use nn_hal.ModelInfo.Model.{Model, Operand, Request, RequestArgument}
use nn_hal.ModelInfo.Memory.{get_operand_type}
use nn_hal.ModelInfo.Requests.{
  get_blob_from_memory_pool_in, get_blob_from_memory_pool_out, update_outputshapes,
}
use nn_hal.Graph.{Ngraph}
use nn_hal.NgraphNodes.{get_node_name}
use nn_hal.PreparedModel.Execution.{
  Transfer, Blob, Engine, Run, actual_length, shape_dims, load_blob, taken, conversion,
  store_values, load_input, load_inputs, store_blob, store_named, store_output, store_outputs,
  run_inference, infer_request,
}
use nn_hal.PreparedModel.Casts.{cast_values}
use nn_hal.PreparedModel.Calls.{Outcome}
use nn_hal.PreparedModel.Session.Frame.{frame}
use nn_hal.PreparedModel.Session.Answers.{
  IsServable, IsLong, at-found, get_node_name-IsServable, get_blob_in-Returns, get_blob_out-Returns,
  update_outputshapes-Returns, get_operand_type-Returns,
}

abbrev NotifiesOnce : List Outcome → Type 0
NotifiesOnce notified = (o : Outcome) × (notified ≡ o ∷ [])

module _ (os : Os) (g : Ngraph) (engine : Engine) (call : ℕ → String) (request : Request)
    -- The plugin has every blob, and throws nothing but exceptions.
    (blobs : (ts : List Transfer) (name : String) → Returns (λ b. Unit {0}) (engine.blob ts name))
    (throws : (ts : List Transfer)
      → (engine.infer_fault ts ≡ none) ⊎ (engine.infer_fault ts ≡ some exception)) where
  abbrev Servable : Run → Type 0
  Servable s = IsServable os g engine call request (frame s.info) s.graph

  blob-found :
      (ts : List Transfer) (name : String)
      → Ends (λ b. engine.blob ts name ≡ ok b) (engine.blob ts name)
  blob-found ts name = record { at_end = λ b e. e }

  load_blob-Returns :
      (s : Run) (name : String) (in_index i a len : ℕ)
      → in_index < length s.info.model.operands
      → get_elem? s.info.model.input_indexes i ≡ some in_index
      → IsLong os g engine call request i len
      → name ≡ call in_index
      → Servable s
      → Returns Servable (load_blob g engine s name in_index a len)
  unfolding load_blob
  load_blob-Returns s name in_index i a len h indexed (arg, given, long) called servable =
      if-Returns (str_eq name "") _ _ (λ _. ok-Returns s servable)
        (λ _.
          then-Returns (engine.blob s.transfers name)
            (and-Returns (blobs s.transfers name) (blob-found s.transfers name))
            λ dest (u, has).
              then-Returns (get_operand_type s.info in_index)
                (get_operand_type-Returns s.info in_index h)
                λ type (operand, found, same).
                  let room : taken type len ≤ dest.byte_size =
                    rw (same, long)
                      (servable.0.rooms i in_index arg operand s.transfers dest given indexed found
                        (subst (λ x. engine.blob s.transfers x ≡ ok dest) called has)) in
                  if-Returns (leb (taken type len) dest.byte_size) _ _ (λ _. ok-Returns _ servable)
                    (λ short. absurd (ground (arith, room))))

  load_input-Returns :
      (s : Run) (i : ℕ)
      → i < length request.inputs
      → Servable s
      → Returns Servable (load_input g engine s request i)
  unfolding load_input
  load_input-Returns s i h (fits, ready, ins, outs) =
      let indexes = s.info.model.input_indexes in
      then-Returns (at indexes i)
        (and-Returns
          (All-at_both indexes i fits.input_operands ins (omega (arith, fits.inputs_fit)))
          (at-found indexes i))
        λ in_index ((bounds, named), indexed).
          then-Returns (get_blob_from_memory_pool_in s.info request i)
            (get_blob_in-Returns os g engine call request s.info i fits ready h)
            λ (info, a, len) (same, long).
              then-Returns (get_node_name g s.graph in_index)
                (get_node_name-IsServable os g engine call request (frame s.info) s.graph in_index
                  named (fits, ready, ins, outs))
                λ (name, graph) (called, servable).
                  let model = sym (ap (λ f. f.0) same) in
                  load_blob-Returns (record s { info = info; graph = graph }) name in_index i a len
                    (subst (λ (m : Model). in_index < length m.operands) model bounds.0)
                    (subst (λ (m : Model). get_elem? m.input_indexes i ≡ some in_index) model
                      indexed)
                    long called
                    (subst (λ f. IsServable os g engine call request f graph) (sym same) servable)

  load_inputs-Returns :
      (s : Run) (i : ℕ) (args : List RequestArgument)
      → i + length args ≡ length request.inputs
      → Servable s
      → Returns Servable (load_inputs g engine s request i args)
  unfolding load_inputs
  load_inputs-Returns s i [] e servable = ok-Returns s servable
  load_inputs-Returns s i (arg ∷ args) e servable =
      then-Returns (load_input g engine s request i)
        (load_input-Returns s i (omega (arith, e)) servable)
        λ s' servable'. load_inputs-Returns s' (suc i) args (omega (arith, e)) servable'

  store_values-Returns :
      (s : Run) (name : String) (i out_index a : ℕ) (operand : Operand) (src : Blob)
      (ts : List Transfer)
      → get_elem? s.info.model.output_indexes i ≡ some out_index
      → get_elem? s.info.model.operands out_index ≡ some operand
      → engine.blob ts (call out_index) ≡ ok src
      → Servable s
      → Returns Servable (store_values g engine s name a operand.type src)
  unfolding store_values
  store_values-Returns s name i out_index a operand src ts indexed found has servable =
      then-Returns (cast_values (conversion operand.type) src.floats)
        (servable.0.casts i out_index operand ts src indexed found has)
        λ values _. ok-Returns _ servable

  store_blob-Returns :
      (with_test : Bool) (s : Run) (name : String) (i out_index : ℕ) (operand : Operand)
      (src : Blob) (ts : List Transfer) (a len : ℕ)
      → i < length request.outputs
      → get_elem? s.info.model.output_indexes i ≡ some out_index
      → get_elem? s.info.model.operands out_index ≡ some operand
      → engine.blob ts (call out_index) ≡ ok src
      → Servable s
      → Returns (λ x. Servable x.0) (store_blob g engine with_test s name i operand.type src a len)
  unfolding store_blob
  store_blob-Returns with_test s name i out_index operand src ts a len h indexed found has
        (fits, ready, ins, outs) =
      let actual = actual_length operand.type (src.byte_size % 2 ^ 32) in
      let dims = shape_dims with_test src.dims actual in
      then-Returns (update_outputshapes s.info i dims (actual == len))
        (update_outputshapes-Returns s.info i dims (actual == len)
          (omega (arith, fits.outputs_fit, fits.shapes_fit)))
        λ (info, updated) same.
          let model = sym (ap (λ f. f.0) same) in
          let servable =
            subst (λ f. IsServable os g engine call request f s.graph) (sym same)
              (fits, ready, ins, outs) in
          if-Returns (actual == len) _ _
            (λ _.
              then-Returns
                (store_values g engine (record s { info = info }) name a operand.type src)
                (store_values-Returns (record s { info = info }) name i out_index a operand src ts
                  (subst (λ (m : Model). get_elem? m.output_indexes i ≡ some out_index) model
                    indexed)
                  (subst (λ (m : Model). get_elem? m.operands out_index ≡ some operand) model found)
                  has servable)
                λ s1 servable1. ok-Returns _ servable1)
            (λ _. ok-Returns _ servable)

  store_named-Returns :
      (with_test : Bool) (s : Run) (name : String) (i out_index : ℕ)
      → i < length request.outputs
      → out_index < length s.info.model.operands
      → get_elem? s.info.model.output_indexes i ≡ some out_index
      → name ≡ call out_index
      → Servable s
      → Returns (λ x. Servable x.0) (store_named g engine with_test s request name i out_index)
  unfolding store_named
  store_named-Returns with_test s name i out_index h bound indexed called servable =
      if-Returns (str_eq name "") _ _ (λ _. ok-Returns _ servable)
        (λ _.
          then-Returns (engine.blob s.transfers name)
            (and-Returns (blobs s.transfers name) (blob-found s.transfers name))
            λ src (u, has).
              then-Returns (get_operand_type s.info out_index)
                (get_operand_type-Returns s.info out_index bound)
                λ type (operand, found, typed).
                  then-Returns (get_blob_from_memory_pool_out s.info request i)
                    (get_blob_out-Returns os g engine call request s.info i servable.0 servable.1 h)
                    λ (info, a, len) same.
                      let model = sym (ap (λ f. f.0) same) in
                      rw typed (
                        store_blob-Returns with_test (record s { info = info }) name i out_index
                          operand src s.transfers a len h
                          (subst (λ (m : Model). get_elem? m.output_indexes i ≡ some out_index)
                            model indexed)
                          (subst (λ (m : Model). get_elem? m.operands out_index ≡ some operand)
                            model found)
                          (subst (λ x. engine.blob s.transfers x ≡ ok src) called has)
                          (subst (λ f. IsServable os g engine call request f s.graph) (sym same)
                            servable)))

  store_output-Returns :
      (with_test : Bool) (s : Run) (i : ℕ)
      → i < length request.outputs
      → Servable s
      → Returns (λ x. Servable x.0) (store_output g engine with_test s request i)
  unfolding store_output
  store_output-Returns with_test s i h (fits, ready, ins, outs) =
      let indexes = s.info.model.output_indexes in
      then-Returns (at indexes i)
        (and-Returns
          (All-at_both indexes i fits.output_operands outs (omega (arith, fits.outputs_fit)))
          (at-found indexes i))
        λ out_index ((bounds, named), indexed).
          then-Returns (get_node_name g s.graph out_index)
            (get_node_name-IsServable os g engine call request (frame s.info) s.graph out_index
              named (fits, ready, ins, outs))
            λ (name, graph) (called, servable).
              store_named-Returns with_test (record s { graph = graph }) name i out_index h bounds.0
                indexed called servable

  store_outputs-Returns :
      (with_test : Bool) (s : Run) (i : ℕ) (args : List RequestArgument)
      → i + length args ≡ length request.outputs
      → Servable s
      → Returns (λ x. Servable x.0) (store_outputs g engine with_test s request i args)
  unfolding store_outputs
  store_outputs-Returns with_test s i [] e servable = ok-Returns _ servable
  store_outputs-Returns with_test s i (arg ∷ args) e servable =
      then-Returns (store_output g engine with_test s request i)
        (store_output-Returns with_test s i (omega (arith, e)) servable)
        λ (s', stored) servable'.
          elim-Returns stored _ _
            (λ _. store_outputs-Returns with_test s' (suc i) args (omega (arith, e)) servable')
            (λ _. ok-Returns _ servable')

  run_inference-Returns :
      (s : Run) (refused : Option Fault)
      → (refused ≡ none) ⊎ (refused ≡ some exception)
      → Servable s
      → Returns (λ x. Servable x.0) (run_inference g engine s refused)
  unfolding run_inference
  run_inference-Returns s refused (inl e) servable = rw e (ok-Returns _ servable)
  run_inference-Returns s refused (inr e) servable = rw e (ok-Returns _ servable)

  pub infer_request-Returns :
      (with_test : Bool) (s : Run)
      → Servable s
      → Returns (λ x. Servable x.0) (infer_request g engine with_test s request)
  unfolding infer_request
  infer_request-Returns with_test s servable =
      then-Returns (load_inputs g engine s request 0 request.inputs)
        (load_inputs-Returns s 0 request.inputs (omega arith) servable)
        λ s1 h1.
          then-Returns (run_inference g engine s1 (engine.infer_fault s1.transfers))
            (run_inference-Returns s1 (engine.infer_fault s1.transfers) (throws s1.transfers) h1)
            λ (s2, done) h2.
              elim-Returns done _ _
                (λ _.
                  then-Returns (store_outputs g engine with_test s2 request 0 request.outputs)
                    (store_outputs-Returns with_test s2 0 request.outputs (omega arith) h2)
                    λ (s3, stored) h3. ok-Returns _ h3)
                (λ _. ok-Returns _ h2)
