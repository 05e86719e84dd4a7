-- ===== src/PreparedModel/Execution/Stores.antt =====
-- BasePreparedModel.cpp: where a request moves values.
use nn_hal.Prelude.{
  Ends, ok-Ends, if-Ends, after-Ends, then-Ends, ℕ, suc, ◌*◌, ◌%◌, ◌^◌, ◌<◌, Bool, true, false,
  List, [], ◌∷◌, Option, none, some, ◌≡◌, arith, ◌>>=◌, >>=-eq-ok, ok, exception, Result, String,
  if◌then◌else◌, Bool-cases, inl, inr, ◌∙◌, sym, ◌==◌, at, Fault,
}
use mathlib.Core.Path.{subst}
use text.Mathlib.Text.{◌==◌ as str_eq}
use nn_hal.Types.{OperandType, ErrorStatus, output_insufficient_size, general_failure}
use nn_hal.Utils.Pools.{RunTimePoolInfo}
use nn_hal.ModelInfo.Model.{Request, RequestArgument}
use nn_hal.ModelInfo.Memory.{get_operand_type}
use nn_hal.ModelInfo.Requests.{get_blob_from_memory_pool_out, update_outputshapes}
use nn_hal.PreparedModel.Casts.{cast_values}
use nn_hal.Graph.{Ngraph}
use nn_hal.NgraphNodes.{get_node_name}
use nn_hal.PreparedModel.Execution.{
  Transfer, infer, Blob, Engine, Run, actual_length, conversion, written, size, store_values,
  shape_dims, load_inputs, store_blob, store_named, store_output, store_outputs, run_inference,
  infer_request,
}
use nn_hal.PreparedModel.Execution.Areas.{
  IsArea, IsWithin, IsContained, get_blob_out_lem, update_outputshapes-pools, written-actual_length,
}
use nn_hal.PreparedModel.Execution.Loops.{load_inputs_lem}

module _ (g : Ngraph) (engine : Engine) (pools : List RunTimePoolInfo) (request : Request)
    -- The blobs are of floats, and shorter than 4 GB.
    (floats : (ts : List Transfer) (name : String) (b : Blob)
      → engine.blob ts name ≡ ok b
      → (b.byte_size ≡ 4 * size b) × (b.byte_size < 2 ^ 32)) where
  abbrev Contained : Run → Type 0
  Contained s = IsContained pools request s

  store_blob_lem :
      (with_test : Bool) (s s' : Run) (name : String) (i : ℕ) (type : OperandType) (src : Blob)
      (a len : ℕ) (stored : Bool)
      → (src.byte_size ≡ 4 * size src) × (src.byte_size < 2 ^ 32)
      → IsArea pools request.outputs a len
      → Contained s
      → store_blob g engine with_test s name i type src a len ≡ ok (s', stored)
      → Contained s'
  unfolding store_blob store_values IsContained IsWithin
  store_blob_lem with_test s s' name i type src a len stored fl area c h =
      contained.at_end (s', stored) h
    where
      exact : written (conversion type) src ≡ actual_length type (src.byte_size % 2 ^ 32)
      exact = written-actual_length type src fl.0 fl.1

      values_contained :
          (t : Run)
          → IsArea pools request.outputs a (written (conversion type) src)
          → Contained t
          → Ends Contained (store_values g engine t name a type src)
      values_contained t full ct =
          after-Ends (cast_values (conversion type) src.floats)
            λ values _. ok-Ends _ (ct.0, (full, ct.1))

      contained : Ends (λ x. Contained x.0) (store_blob g engine with_test s name i type src a len)
      contained =
          let actual = actual_length type (src.byte_size % 2 ^ 32) in
          let dims = shape_dims with_test src.dims actual in
          after-Ends (update_outputshapes s.info i dims (actual == len)) λ (info, updated) hu.
            let kept = update_outputshapes-pools s.info info i dims (actual == len) updated hu in
            if-Ends (actual == len) _ _
              (λ e.
                let same : written (conversion type) src ≡ len = ground (arith, exact) in
                then-Ends (store_values g engine (record s { info = info }) name a type src)
                  (values_contained (record s { info = info })
                    (subst (λ x. IsArea pools request.outputs a x) (sym same) area)
                    (kept ∙ c.0, c.1))
                  λ s1 c1. ok-Ends _ c1)
              (λ _. ok-Ends _ (kept ∙ c.0, c.1))

  store_named_lem :
      (with_test : Bool) (s s' : Run) (name : String) (i oi : ℕ) (stored : Bool)
      → Contained s
      → store_named g engine with_test s request name i oi ≡ ok (s', stored)
      → Contained s'
  unfolding store_named IsContained
  store_named_lem with_test s s' name i oi stored c h = elim (Bool-cases (str_eq name "")) [
    | inl e ↦ (let es : s ≡ s' = ground arith in subst Contained es c)
    | inr e ↦
        (let h0 : (engine.blob s.transfers name >>= λ src. get_operand_type s.info oi >>= λ type.
        get_blob_from_memory_pool_out s.info request i >>= λ (info, a, len).
        store_blob g engine with_test (record s { info = info }) name i type src a len)
              ≡ ok (s', stored) =
            ground arith in
          let (src, hs, h1) =
            >>=-eq-ok (engine.blob s.transfers name)
              (λ src. get_operand_type s.info oi >>= λ type.
                get_blob_from_memory_pool_out s.info request i >>= λ (info, a, len).
                store_blob g engine with_test (record s { info = info }) name i type src a len)
              h0 in
          let (type, ht, h2) =
            >>=-eq-ok (get_operand_type s.info oi)
              (λ type. get_blob_from_memory_pool_out s.info request i >>= λ (info, a, len).
                store_blob g engine with_test (record s { info = info }) name i type src a len)
              h1 in
          let ((info, a, len), hb, h3) =
            >>=-eq-ok (get_blob_from_memory_pool_out s.info request i)
              (λ (info, a, len).
                store_blob g engine with_test (record s { info = info }) name i type src a len)
              h2 in
          let (area, kept) = get_blob_out_lem s.info info request i a len hb in
          store_blob_lem with_test (record s { info = info }) s' name i type src a len stored
            (floats s.transfers name src hs) (subst (λ x. IsArea x request.outputs a len) c.0 area)
            (kept ∙ c.0, c.1) h3)
  ]

  store_output_lem :
      (with_test : Bool) (s s' : Run) (i : ℕ) (stored : Bool)
      → Contained s
      → store_output g engine with_test s request i ≡ ok (s', stored)
      → Contained s'
  unfolding store_output IsContained
  store_output_lem with_test s s' i stored c h =
      let (oi, ho, h1) =
        >>=-eq-ok (at s.info.model.output_indexes i)
          (λ oi. get_node_name g s.graph oi >>= λ (name, graph).
            store_named g engine with_test (record s { graph = graph }) request name i oi)
          h in
      let ((name, graph), hn, h2) =
        >>=-eq-ok (get_node_name g s.graph oi)
          (λ (name, graph).
            store_named g engine with_test (record s { graph = graph }) request name i oi)
          h1 in
      store_named_lem with_test (record s { graph = graph }) s' name i oi stored c h2

  store_outputs_lem :
      (with_test : Bool) (s s' : Run) (i : ℕ) (args : List RequestArgument) (stored : Bool)
      → Contained s
      → store_outputs g engine with_test s request i args ≡ ok (s', stored)
      → Contained s'
  unfolding store_outputs
  store_outputs_lem with_test s s' i [] stored c h =
      (let es : s ≡ s' = ground arith in subst Contained es c)
  store_outputs_lem with_test s s' i (arg ∷ args) stored c h =
      let ((s1, more), h1, h2) =
        >>=-eq-ok (store_output g engine with_test s request i)
          (λ (s1, more). elim more [
            | true ↦ store_outputs g engine with_test s1 request (suc i) args
            | false ↦ ok (s1, false)
          ])
          h in
      let c1 = store_output_lem with_test s s1 i more c h1 in
      elim (Bool-cases more) [
        | inl e ↦
            (let h3 : store_outputs g engine with_test s1 request (suc i) args ≡ ok (s', stored) =
                ground arith in
              store_outputs_lem with_test s1 s' (suc i) args stored c1 h3)
        | inr e ↦ (let es : s1 ≡ s' = ground arith in subst Contained es c1)
      ]

  run_inference_lem :
      (s s' : Run) (f : Option Fault) (b : Bool)
      → Contained s
      → run_inference g engine s f ≡ ok (s', b)
      → Contained s'
  unfolding run_inference IsContained IsWithin
  run_inference_lem s s' none b c h =
      let es : record s { transfers = infer (engine.ends_in_time s.transfers) ∷ s.transfers } ≡ s' =
        ground arith in
      subst Contained es (c.0, (tt, c.1))
  run_inference_lem s s' (some exception) b c h =
      (let es : s ≡ s' = ground arith in subst Contained es c)
  run_inference_lem s s' (some f) b c h = ground arith

  -- The blobs being of floats and shorter than 4 GB: whatever the status, each input is read from the
  -- bytes that an argument of the request names in a mapped pool, and each output is written to exactly
  -- the bytes that an argument names, if this holds for what was moved before.
  pub infer_request-IsContained :
      (with_test : Bool) (s s' : Run) (status : ErrorStatus)
      → IsContained pools request s
      → infer_request g engine with_test s request ≡ ok (s', status)
      → IsContained pools request s'
  unfolding infer_request
  infer_request-IsContained with_test s s' status c h =
      let (s1, h1, r1) = >>=-eq-ok (load_inputs g engine s request 0 request.inputs) rest h in
      let ((s2, inferred), h2, r2) =
        >>=-eq-ok (run_inference g engine s1 (engine.infer_fault s1.transfers)) after r1 in
      let c1 = load_inputs_lem g engine pools request s s1 0 request.inputs c h1 in
      let c2 = run_inference_lem s1 s2 (engine.infer_fault s1.transfers) inferred c1 h2 in
      elim (Bool-cases inferred) [
        | inl e ↦
            (let h3 : (store_outputs g engine with_test s2 request 0 request.outputs >>= finished)
                  ≡ ok (s', status) =
                ground arith in
              let ((s3, stored), h4, r4) =
                >>=-eq-ok (store_outputs g engine with_test s2 request 0 request.outputs) finished
                  h3 in
              let es : s3 ≡ s' = ground arith in
              subst Contained es (store_outputs_lem with_test s2 s3 0 request.outputs stored c2 h4))
        | inr e ↦ (let es : s2 ≡ s' = ground arith in subst Contained es c2)
      ]
    where
      finished : Run × Bool → Result (Run × ErrorStatus)
      finished (s3, stored) = ok (s3, if stored then ErrorStatus.none else output_insufficient_size)

      after : Run × Bool → Result (Run × ErrorStatus)
      after (s2, true) = store_outputs g engine with_test s2 request 0 request.outputs >>= finished
      after (s2, false) = ok (s2, general_failure)

      rest : Run → Result (Run × ErrorStatus)
      rest s1 = run_inference g engine s1 (engine.infer_fault s1.transfers) >>= after
