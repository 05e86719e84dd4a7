-- ===== src/PreparedModel/Session/Inference.antt =====
-- BasePreparedModel.cpp: an inference, the frame and the order of the inference request.
use text.Mathlib.Text.{◌==◌ as str_eq}
use nn_hal.Prelude.{
  ℕ, suc, Bool, true, List, [], ◌∷◌, Option, none, some, String, ◌≡◌, refl, ◌∙◌, exception, Fault,
  at, Ends, ok-Ends, if-Ends, elim-Ends, then-Ends, after-Ends, ap, leb, ◌==◌, ◌%◌, ◌^◌,
}
use nn_hal.Types.{OperandType}
use nn_hal.Utils.Pools.{RunTimePoolInfo}
use nn_hal.ModelInfo.Model.{Model, Request, RequestArgument}
use nn_hal.ModelInfo.Memory.{get_operand_type}
use nn_hal.ModelInfo.Requests.{
  get_blob_from_memory_pool_in, get_blob_from_memory_pool_out, update_outputshapes,
}
use nn_hal.Graph.{Ngraph}
use nn_hal.NgraphNodes.{get_node_name}
use nn_hal.PreparedModel.Execution.{
  Transfer, Blob, Engine, Run, actual_length, shape_dims, load_blob, taken, infer, conversion,
  store_values, load_input, load_inputs, store_blob, store_named, store_output, store_outputs,
  run_inference, infer_request,
}
use nn_hal.PreparedModel.Casts.{cast_values}
use nn_hal.PreparedModel.Session.{Phase, loading, inferred, phase, after_load, after_infer}
use nn_hal.PreparedModel.Session.Frame.{
  frame, get_blob_in-SameFrame, get_blob_out-SameFrame, update_outputshapes-SameFrame,
}

abbrev pub IsAccepted : List Transfer → Type 0
IsAccepted ts = (p : Phase) × (phase ts ≡ some p)

module _ (g : Ngraph) (engine : Engine) (f : Model × ℕ × ℕ × List RunTimePoolInfo)
    -- Every inference ends in the time that Wait has.
    (in_time : (ts : List Transfer) → engine.ends_in_time ts ≡ true) where
  -- The frame is `f`, and the inference request was used in its order.
  abbrev pub IsServing : Run → Type 0
  IsServing s = (frame s.info ≡ f) × IsAccepted s.transfers

  -- The last change of the inference request was an inference.
  abbrev pub IsInferred : Run → Type 0
  IsInferred s = (frame s.info ≡ f) × (phase s.transfers ≡ some inferred)

  IsInferred-IsServing : (s : Run) → IsInferred s → IsServing s
  IsInferred-IsServing s (e, i) = (e, (inferred, i))

  load_blob-IsServing :
      (s : Run) (name : String) (in_index a len : ℕ)
      → IsServing s
      → Ends IsServing (load_blob g engine s name in_index a len)
  unfolding load_blob phase
  load_blob-IsServing s name in_index a len (e, (p, hp)) =
      if-Ends (str_eq name "") _ _ (λ _. ok-Ends s (e, (p, hp)))
        (λ _. after-Ends (engine.blob s.transfers name) λ dest _.
          after-Ends (get_operand_type s.info in_index) λ type _.
            if-Ends (leb (taken type len) dest.byte_size) _ _
              (λ _. ok-Ends _ (e, (loading, ap after_load hp)))
              (λ _. record { at_end = λ r wrong. absurd cc }))

  load_input-IsServing :
      (s : Run) (request : Request) (i : ℕ)
      → IsServing s
      → Ends IsServing (load_input g engine s request i)
  unfolding load_input
  load_input-IsServing s request i (e, order) =
      after-Ends (at s.info.model.input_indexes i) λ in_index _.
        then-Ends (get_blob_from_memory_pool_in s.info request i)
          (get_blob_in-SameFrame s.info request i)
          λ (info, a, len) same. after-Ends (get_node_name g s.graph in_index) λ (name, graph) _.
            load_blob-IsServing (record s { info = info; graph = graph }) name in_index a len
              (same ∙ e, order)

  load_inputs-IsServing :
      (s : Run) (request : Request) (i : ℕ) (args : List RequestArgument)
      → IsServing s
      → Ends IsServing (load_inputs g engine s request i args)
  unfolding load_inputs
  load_inputs-IsServing s request i [] serving = ok-Ends s serving
  load_inputs-IsServing s request i (arg ∷ args) serving =
      then-Ends (load_input g engine s request i) (load_input-IsServing s request i serving)
        λ s' serving'. load_inputs-IsServing s' request (suc i) args serving'

  store_values-IsInferred :
      (s : Run) (name : String) (a : ℕ) (type : OperandType) (src : Blob)
      → IsInferred s
      → Ends IsInferred (store_values g engine s name a type src)
  unfolding store_values phase
  store_values-IsInferred s name a type src (e, order) =
      after-Ends (cast_values (conversion type) src.floats) λ values _. ok-Ends _ (e, rw order refl)

  store_blob-IsInferred :
      (with_test : Bool) (s : Run) (name : String) (i : ℕ) (type : OperandType) (src : Blob)
      (a len : ℕ)
      → IsInferred s
      → Ends (λ x. IsInferred x.0) (store_blob g engine with_test s name i type src a len)
  unfolding store_blob phase
  store_blob-IsInferred with_test s name i type src a len (e, order) =
      let actual = actual_length type (src.byte_size % 2 ^ 32) in
      let dims = shape_dims with_test src.dims actual in
      then-Ends (update_outputshapes s.info i dims (actual == len))
        (update_outputshapes-SameFrame s.info i dims (actual == len))
        λ (info, updated) same.
          if-Ends (actual == len) _ _
            (λ _.
              then-Ends (store_values g engine (record s { info = info }) name a type src)
                (store_values-IsInferred (record s { info = info }) name a type src
                  (same ∙ e, order))
                λ s1 h1. ok-Ends _ h1)
            (λ _. ok-Ends _ (same ∙ e, order))

  store_named-IsInferred :
      (with_test : Bool) (s : Run) (request : Request) (name : String) (i out_index : ℕ)
      → IsInferred s
      → Ends (λ x. IsInferred x.0) (store_named g engine with_test s request name i out_index)
  unfolding store_named
  store_named-IsInferred with_test s request name i out_index (e, order) =
      if-Ends (str_eq name "") _ _ (λ _. ok-Ends _ (e, order))
        (λ _. after-Ends (engine.blob s.transfers name) λ src _.
          after-Ends (get_operand_type s.info out_index) λ type _.
            then-Ends (get_blob_from_memory_pool_out s.info request i)
              (get_blob_out-SameFrame s.info request i)
              λ (info, a, len) same.
                store_blob-IsInferred with_test (record s { info = info }) name i type src a len
                  (same ∙ e, order))

  store_output-IsInferred :
      (with_test : Bool) (s : Run) (request : Request) (i : ℕ)
      → IsInferred s
      → Ends (λ x. IsInferred x.0) (store_output g engine with_test s request i)
  unfolding store_output
  store_output-IsInferred with_test s request i inferred_s =
      after-Ends (at s.info.model.output_indexes i) λ out_index _.
        after-Ends (get_node_name g s.graph out_index) λ (name, graph) _.
          store_named-IsInferred with_test (record s { graph = graph }) request name i out_index
            inferred_s

  store_outputs-IsInferred :
      (with_test : Bool) (s : Run) (request : Request) (i : ℕ) (args : List RequestArgument)
      → IsInferred s
      → Ends (λ x. IsInferred x.0) (store_outputs g engine with_test s request i args)
  unfolding store_outputs
  store_outputs-IsInferred with_test s request i [] h = ok-Ends _ h
  store_outputs-IsInferred with_test s request i (arg ∷ args) h =
      then-Ends (store_output g engine with_test s request i)
        (store_output-IsInferred with_test s request i h)
        λ (s', stored) h'.
          elim-Ends stored _ _ (λ _. store_outputs-IsInferred with_test s' request (suc i) args h')
            (λ _. ok-Ends _ h')

  run_inference-IsServing :
      (s : Run) (refused : Option Fault)
      → IsServing s
      → Ends (λ x. IsServing x.0 × (x.1 ≡ true → IsInferred x.0)) (run_inference g engine s refused)
  unfolding run_inference phase
  run_inference-IsServing s none (e, (p, hp)) =
      let order : phase (infer (engine.ends_in_time s.transfers) ∷ s.transfers) ≡ some inferred =
        rw (in_time s.transfers) (ap after_infer hp) in
      ok-Ends _ ((e, (inferred, order)), λ _. (e, order))
  run_inference-IsServing s (some exception) serving = ok-Ends _ (serving, λ wrong. absurd cc)
  run_inference-IsServing s (some why) serving = record { at_end = λ x e. absurd cc }

  -- An inference, whatever its status, keeps the frame, and uses the inference request in its order.
  pub infer_request-IsServing :
      (with_test : Bool) (s : Run) (request : Request)
      → IsServing s
      → Ends (λ x. IsServing x.0) (infer_request g engine with_test s request)
  unfolding infer_request
  infer_request-IsServing with_test s request serving =
      then-Ends (load_inputs g engine s request 0 request.inputs)
        (load_inputs-IsServing s request 0 request.inputs serving)
        λ s1 h1.
          then-Ends (run_inference g engine s1 (engine.infer_fault s1.transfers))
            (run_inference-IsServing s1 (engine.infer_fault s1.transfers) h1)
            λ (s2, done) (h2, ready).
              elim-Ends done _ _
                (λ is_done.
                  then-Ends (store_outputs g engine with_test s2 request 0 request.outputs)
                    (store_outputs-IsInferred with_test s2 request 0 request.outputs
                      (ready is_done))
                    λ (s3, stored) h3. ok-Ends _ (IsInferred-IsServing s3 h3))
                (λ _. ok-Ends _ h2)
