-- ===== src/NgraphNodes/Parameters.antt =====
-- removeInputParameter: what it leaves of the parameters.
use text.Mathlib.Text.{◌==◌ as str_eq}
use text.Mathlib.TextEquality.{eq_iff}
use nn_hal.Prelude.{
  IsSublist, none_left, dropped, kept, ℕ, Bool, true, false, String, List, [], ◌∷◌, ◌≡◌, ◌≢◌, refl,
  arith, some, All, if◌then◌else◌, ◌==◌, Bool-cases, inl, inr,
}
use nn_hal.Graph.{Node, Ngraph}
use nn_hal.NgraphNodes.{NgraphNodes, erase_params, erases, remove_input_parameter, set_invalid_node}

module _ (g : Ngraph) where
  -- The parameters with another name, in their order.
  abbrev pub without_name : String → List Node → List Node
  without_name name [] = []
  without_name name (p ∷ ps) =
      let rest = without_name name ps in if str_eq name (g.name_of p) then rest else p ∷ rest

  abbrev pub has_name : String → List Node → Bool
  has_name name [] = false
  has_name name (p ∷ ps) =
      let rest = has_name name ps in if str_eq name (g.name_of p) then true else rest

  -- No two of the parameters have one name.
  abbrev pub DistinctNames : List Node → Type 0
  DistinctNames [] = Unit
  DistinctNames (p ∷ ps) = All (λ q. g.name_of q ≢ g.name_of p) ps × DistinctNames ps

  erase_params-without_name :
      (name : String) (ps : List Node)
      → DistinctNames ps
      → erase_params g name ps ≡ without_name name ps
  unfolding erase_params
  erase_params-without_name name [] d = refl
  erase_params-without_name name (p ∷ []) d = ground arith
  erase_params-without_name name (p ∷ q ∷ ps) d = ground (
    arith,
    eq_iff name (g.name_of p),
    eq_iff name (g.name_of q),
    erase_params-without_name name ps d.1.1,
    erase_params-without_name name (q ∷ ps) d.1,
  )

  erases-has_name : (name : String) (ps : List Node) → erases g name ps ≡ has_name name ps
  unfolding erases
  erases-has_name name [] = refl
  erases-has_name name (p ∷ ps) = ground (arith, erases-has_name name ps)

  -- Where nGraph gives the parameters distinct names, removeInputParameter removes the parameter of
  -- the given name and no other, keeps their order, and gives the operand the empty name exactly if
  -- it removed one; the other names, the outputs and the results stay.
  pub remove_input_parameter_lem :
      (s : NgraphNodes) (name : String) (index : ℕ)
      → DistinctNames s.input_params
      → let t = remove_input_parameter g s name index in
        (t.input_params ≡ without_name name s.input_params)
        × ((j : ℕ)
            → t.node_names j ≡ (
                if index == j
                then (if has_name name s.input_params then some "" else s.node_names j)
                else s.node_names j))
        × (t.output_at_operand_index ≡ s.output_at_operand_index)
        × (t.result_nodes ≡ s.result_nodes)
  unfolding remove_input_parameter
  remove_input_parameter_lem s name index d = (
    ground (arith, erase_params-without_name name s.input_params d),
    λ j. ground (arith, erases-has_name name s.input_params),
    ground arith,
    ground arith,
  )

  erase_params-IsSublist : (name : String) (ps : List Node) → IsSublist (erase_params g name ps) ps
  unfolding erase_params
  erase_params-IsSublist name [] = none_left
  erase_params-IsSublist name (p ∷ []) = elim (Bool-cases (str_eq name (g.name_of p))) [
    | inl e ↦ rw e (dropped none_left)
    | inr e ↦ rw e (kept none_left)
  ]
  erase_params-IsSublist name (p ∷ q ∷ ps) = elim (Bool-cases (str_eq name (g.name_of p))) [
    | inl e ↦ rw e (dropped (kept (erase_params-IsSublist name ps)))
    | inr e ↦ rw e (kept (erase_params-IsSublist name (q ∷ ps)))
  ]

  pub remove_input_parameter-outputs :
      (s : NgraphNodes) (name : String) (index : ℕ)
      → ((remove_input_parameter g s name index).output_at_operand_index
          ≡ s.output_at_operand_index)
        × ((remove_input_parameter g s name index).result_nodes ≡ s.result_nodes)
        × IsSublist (remove_input_parameter g s name index).input_params s.input_params
  unfolding remove_input_parameter set_invalid_node
  remove_input_parameter-outputs s name index =
      let erased = erase_params-IsSublist name s.input_params in
      elim (Bool-cases (erases g name s.input_params)) [
        | inl e ↦ rw e (refl, refl, erased)
        | inr e ↦ rw e (refl, refl, erased)
      ]
