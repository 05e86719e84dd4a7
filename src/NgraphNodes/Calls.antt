-- ===== src/NgraphNodes/Calls.antt =====
-- ngraph_creator/src/NgraphNodes.cpp: what becomes of a node's name as the graph is built and used.
use mathlib.Core.Path.{subst}
use nn_hal.Prelude.{ℕ, String, some, ◌≡◌, refl, sym, ◌⊎◌, inl, inr, arith, ok, Bool-cases, ◌==◌}
use nn_hal.Graph.{Ngraph, Node}
use nn_hal.NgraphNodes.{
  NgraphNodes, get_node_name, add_input_param, set_output_at_operand_index, set_result_node,
  set_invalid_node, remove_input_parameter, erases, erase_params,
}
use nn_hal.NgraphNodes.Names.{get_node_name-Ends, get_node_name-named}

module _ (g : Ngraph) where
  -- one call of a method that changes the object
  pub data Call (s s' : NgraphNodes) : Type 0 where
    adds_param : (p : Node) → s' ≡ add_input_param s p → Call s s'
    sets_output : (i : ℕ) (n : Node) → set_output_at_operand_index s i n ≡ ok s' → Call s s'
    sets_result : (i : ℕ) (n : Node) → s' ≡ set_result_node s i n → Call s s'
    asks_name : (i : ℕ) (name : String) → get_node_name g s i ≡ ok (name, s') → Call s s'
    invalidates : (i : ℕ) → s' ≡ set_invalid_node s i → Call s s'
    removes : (name : String) (i : ℕ) → s' ≡ remove_input_parameter g s name i → Call s s'

  pub data Calls (s : NgraphNodes) : NgraphNodes → Type 0 where
    none : Calls s s
    then_call : {t u : NgraphNodes} → Calls s t → Call t u → Calls s u

  -- The operand has the name, or the empty one.
  abbrev Called : ℕ → String → NgraphNodes → Type 0
  Called i name s = (s.node_names i ≡ some name) ⊎ (s.node_names i ≡ some "")

  invalid-Called :
      (i j : ℕ) (name : String) (s : NgraphNodes)
      → Called i name s
      → Called i name (set_invalid_node s j)
  unfolding set_invalid_node
  invalid-Called i j name s h = elim (Bool-cases (j == i)) [
    | inl e ↦ inr (rw e refl)
    | inr e ↦ elim h [ inl kept ↦ inl (rw e kept) | inr empty ↦ inr (rw e empty) ]
  ]

  removed-Called :
      (i j : ℕ) (name other : String) (s : NgraphNodes)
      → Called i name s
      → Called i name (remove_input_parameter g s other j)
  unfolding remove_input_parameter
  removed-Called i j name other s h = elim (Bool-cases (erases g other s.input_params)) [
    | inl e ↦ rw e (
        invalid-Called i j name (record s { input_params = erase_params g other s.input_params }) h)
    | inr e ↦ rw e h
  ]

  -- A name that is asked for is put in place only where there was none.
  known_lem :
      (s s' : NgraphNodes) (i : ℕ) (name asked : String)
      → get_node_name g s i ≡ ok (asked, s')
      → s.node_names i ≡ some name
      → (asked ≡ name) × (s' ≡ s)
  unfolding get_node_name
  known_lem s s' i name asked e h = ground arith

  asked_lem :
      (s s' : NgraphNodes) (i j : ℕ) (name asked : String)
      → get_node_name g s j ≡ ok (asked, s')
      → s.node_names i ≡ some name
      → s'.node_names i ≡ some name
  asked_lem s s' i j name asked e h = elim (Bool-cases (j == i)) [
    | inl same ↦
        (let ji : j ≡ i = ground arith in
          let (named, kept) =
            known_lem s s' j name asked e (subst (λ k. s.node_names k ≡ some name) (sym ji) h) in
          rw kept h)
    | inr other ↦ elim ((get_node_name-Ends g s j).at_end (asked, s') e) [
      | inl kept ↦ rw kept h
      | inr put ↦ rw (put, other) h
    ]
  ]

  output_lem :
      (s s' : NgraphNodes) (i : ℕ) (n : Node)
      → set_output_at_operand_index s i n ≡ ok s'
      → s'.node_names ≡ s.node_names
  unfolding set_output_at_operand_index
  output_lem s s' i n e = ground arith

  Call-Called :
      {s s' : NgraphNodes} (i : ℕ) (name : String) → Call s s' → Called i name s → Called i name s'
  unfolding add_input_param set_result_node
  Call-Called i name (adds_param p e) h = rw e h
  Call-Called i name (sets_output j n e) h = rw (output_lem _ _ j n e) h
  Call-Called i name (sets_result j n e) h = rw e h
  Call-Called {s = s} {s' = s'} i name (asks_name j asked e) (inl kept) =
      inl (asked_lem s s' i j name asked e kept)
  Call-Called {s = s} {s' = s'} i name (asks_name j asked e) (inr empty) =
      inr (asked_lem s s' i j "" asked e empty)
  Call-Called {s = s} i name (invalidates j e) h = rw e (invalid-Called i j name s h)
  Call-Called {s = s} i name (removes other j e) h = rw e (removed-Called i j name other s h)

  Calls-Called :
      {s t : NgraphNodes} (i : ℕ) (name : String) → Calls s t → Called i name s → Called i name t
  Calls-Called i name none h = h
  Calls-Called i name (then_call calls call) h =
      Call-Called i name call (Calls-Called i name calls h)

  given_lem :
      (t : NgraphNodes) (i : ℕ) (name : String)
      → t.node_names i ≡ some name
      → get_node_name g t i ≡ ok (name, t)
  unfolding get_node_name
  given_lem t i name e = ground arith

  -- After getNodeName returned a name for an operand, and after any calls of the other methods, in any
  -- order and with any arguments, removeInputParameter and setInvalidNode of the same operand included:
  -- getNodeName of the operand returns that name or the empty one, and changes nothing.
  pub get_node_name_again :
      (s s' t : NgraphNodes) (i : ℕ) (name : String)
      → get_node_name g s i ≡ ok (name, s')
      → Calls s' t
      → (get_node_name g t i ≡ ok (name, t)) ⊎ (get_node_name g t i ≡ ok ("", t))
  get_node_name_again s s' t i name e calls =
      elim (Calls-Called i name calls (inl ((get_node_name-named g s i).at_end (name, s') e))) [
        | inl kept ↦ inl (given_lem t i name kept)
        | inr empty ↦ inr (given_lem t i "" empty)
      ]
