-- ===== src/PreparedModel/Execution/Loops.antt =====
-- BasePreparedModel.cpp: the loop over the inputs and the request's memory.
use nn_hal.Prelude.{
  Ends, ok-Ends, if-Ends, after-Ends, leb, ℕ, suc, List, [], ◌∷◌, ◌≡◌, arith, ◌>>=◌, >>=-eq-ok, ok,
  String, ◌∙◌, at,
}
use mathlib.Core.Path.{subst}
use text.Mathlib.Text.{◌==◌ as str_eq}
use nn_hal.Utils.Pools.{RunTimePoolInfo}
use nn_hal.ModelInfo.Model.{Request, RequestArgument}
use nn_hal.ModelInfo.Memory.{get_operand_type}
use nn_hal.ModelInfo.Requests.{get_blob_from_memory_pool_in}
use nn_hal.Graph.{Ngraph}
use nn_hal.NgraphNodes.{get_node_name}
use nn_hal.PreparedModel.Execution.{Engine, Run, taken, load_blob, load_input, load_inputs}
use nn_hal.PreparedModel.Execution.Areas.{IsArea, IsWithin, IsContained, get_blob_in_lem}

module _ (g : Ngraph) (engine : Engine) (pools : List RunTimePoolInfo) (request : Request) where
  abbrev Contained : Run → Type 0
  Contained s = IsContained pools request s

  load_blob_lem :
      (s s' : Run) (name : String) (in_index a len : ℕ)
      → IsArea pools request.inputs a len
      → Contained s
      → load_blob g engine s name in_index a len ≡ ok s'
      → Contained s'
  unfolding load_blob IsContained IsWithin
  load_blob_lem s s' name in_index a len area c h = contained.at_end s' h
    where
      contained : Ends Contained (load_blob g engine s name in_index a len)
      contained =
          if-Ends (str_eq name "") _ _ (λ _. ok-Ends s c)
            (λ _. after-Ends (engine.blob s.transfers name) λ dest _.
              after-Ends (get_operand_type s.info in_index) λ type _.
                if-Ends (leb (taken type len) dest.byte_size) _ _
                  (λ _. ok-Ends _ (c.0, (area, c.1)))
                  (λ _. record { at_end = λ r wrong. absurd cc }))

  load_input_lem :
      (s s' : Run) (i : ℕ) → Contained s → load_input g engine s request i ≡ ok s' → Contained s'
  unfolding load_input IsContained
  load_input_lem s s' i c h =
      let (oi, ho, h1) =
        >>=-eq-ok (at s.info.model.input_indexes i)
          (λ oi. get_blob_from_memory_pool_in s.info request i >>= λ (info, a, len).
            get_node_name g s.graph oi >>= λ (name, graph).
            load_blob g engine (record s { info = info; graph = graph }) name oi a len)
          h in
      let ((info, a, len), hb, h2) =
        >>=-eq-ok (get_blob_from_memory_pool_in s.info request i)
          (λ (info, a, len). get_node_name g s.graph oi >>= λ (name, graph).
            load_blob g engine (record s { info = info; graph = graph }) name oi a len)
          h1 in
      let ((name, graph), hn, h3) =
        >>=-eq-ok (get_node_name g s.graph oi)
          (λ (name, graph).
            load_blob g engine (record s { info = info; graph = graph }) name oi a len)
          h2 in
      let (area, kept) = get_blob_in_lem s.info info request i a len hb in
      load_blob_lem (record s { info = info; graph = graph }) s' name oi a len
        (subst (λ x. IsArea x request.inputs a len) c.0 area) (kept ∙ c.0, c.1) h3

  pub load_inputs_lem :
      (s s' : Run) (i : ℕ) (args : List RequestArgument)
      → Contained s
      → load_inputs g engine s request i args ≡ ok s'
      → Contained s'
  unfolding load_inputs
  load_inputs_lem s s' i [] c h = (let es : s ≡ s' = ground arith in subst Contained es c)
  load_inputs_lem s s' i (arg ∷ args) c h =
      let (s1, h1, h2) =
        >>=-eq-ok (load_input g engine s request i)
          (λ s1. load_inputs g engine s1 request (suc i) args) h in
      load_inputs_lem s1 s' (suc i) args (load_input_lem s s1 i c h1) h2
