-- ===== src/NetworkCreator/Parameters.antt =====
-- NgraphNetworkCreator.cpp: what createInputParams leaves in the graph.
use nn_hal.Prelude.{
  IsSublist, none_left, dropped, kept, sym, ap, ◌∙◌, ◌++◌, ℕ, suc, zero, ◌<◌, Bool, true, false,
  List, [], ◌∷◌, Option, none, some, ok, ◌≡◌, refl, arith, at, get_elem?, set, length,
  get_elem?-set_self, >>=-eq-ok, ◌⊎◌, inl, inr,
}
use mathlib.Core.Path.{subst}
use nn_hal.ModelInfo.Model.{NnapiModelInfo, Operand}
use nn_hal.ModelInfo.Memory.{get_operand}
use nn_hal.Graph.{Node, parameter, ElementType, Ngraph}
use nn_hal.NgraphNodes.{
  NgraphNodes, set_output_at_operand_index, add_input_param, set_invalid_node, get_node_name,
}
use nn_hal.NetworkCreator.{
  param_element, has_size, create_input_param, input_param, put_param, create_params,
  create_input_params,
}

-- What an input's operand has in the graph: a parameter of its type and dimensions as its output, which
-- is also among the parameters of the graph.
unfoldable pub IsParameter : NgraphNodes → ℕ → Operand → Type 0
IsParameter s i op =
    (k : ℕ) × (t : ElementType) × (param_element op.type ≡ some t)
    × (at s.output_at_operand_index i ≡ ok (parameter k t op.dimensions))
    × IsSublist (parameter k t op.dimensions ∷ []) s.input_params

one-last : (ps : List Node) (p : Node) → IsSublist (p ∷ []) (ps ++ p ∷ [])
one-last [] p = kept none_left
one-last (q ∷ ps) p = dropped (one-last ps p)

none-of : (ps : List Node) → IsSublist [] ps
none-of [] = none_left
none-of (p ∷ ps) = dropped (none-of ps)

still-one : {qs ps : List Node} (p : Node) → IsSublist qs ps → IsSublist qs (ps ++ p ∷ [])
still-one p none_left = none-of (p ∷ [])
still-one p (dropped h) = dropped (still-one p h)
still-one p (kept h) = kept (still-one p h)

at-set_cases :
    (xs : List Node) (i j : ℕ) (n : Node)
    → (i < length xs)
    → ((i ≡ j) × (at (set xs i n) j ≡ ok n)) ⊎ (at (set xs i n) j ≡ at xs j)
at-set_cases [] i j n h = ground arith
at-set_cases (x ∷ xs) zero zero n h = inl (refl, refl)
at-set_cases (x ∷ xs) zero (suc j) n h = inr refl
at-set_cases (x ∷ xs) (suc i) zero n h = inr refl
at-set_cases (x ∷ xs) (suc i) (suc j) n h = ground (arith, at-set_cases xs i j n)

-- A node that was put in: the index was in range.
put_lem :
    (s s' : NgraphNodes) (i j : ℕ) (n : Node)
    → set_output_at_operand_index s i n ≡ ok s'
    → (((i ≡ j) × (at s'.output_at_operand_index j ≡ ok n))
        ⊎ (at s'.output_at_operand_index j ≡ at s.output_at_operand_index j))
      × (s'.node_names ≡ s.node_names)
      × (s'.input_params ≡ s.input_params)
      × (i < length s.output_at_operand_index)
unfolding set_output_at_operand_index
put_lem s s' i j n h = ground (arith, at-set_cases s.output_at_operand_index i j n)

put_param_self :
    (k i : ℕ) (s s' : NgraphNodes) (op : Operand) (o : Option ElementType)
    → param_element op.type ≡ o
    → put_param k i op o s ≡ ok (some s')
    → IsParameter s' i op
unfolding put_param set_output_at_operand_index add_input_param IsParameter
put_param_self k i s s' op none ho h = absurd (ground arith)
put_param_self k i s s' op (some t) ho h =
    let n = parameter k t op.dimensions in
    let hs = get_elem?-set_self s.output_at_operand_index i n in
    let listed : s'.input_params ≡ s.input_params ++ n ∷ [] = ground arith in
    (k, t, ho, ground (arith, hs), rw listed (one-last s.input_params n))

put_param_other :
    (k i j : ℕ) (s s' : NgraphNodes) (op op' : Operand) (o : Option ElementType)
    → (i ≡ j → op ≡ op')
    → param_element op.type ≡ o
    → put_param k i op o s ≡ ok (some s')
    → IsParameter s j op'
    → IsParameter s' j op'
unfolding put_param set_output_at_operand_index add_input_param IsParameter
put_param_other k i j s s' op op' none same ho h hp = absurd (ground arith)
put_param_other k i j s s' op op' (some t) same ho h (k', t', ho', hp, listed) =
    let n = parameter k t op.dimensions in
    let (s'', hs, hs') =
      >>=-eq-ok (set_output_at_operand_index (add_input_param s n) i n) (λ x. ok (some x)) h in
    let e : s'' ≡ s' = ground arith in
    let (cases, names, params, bound) = put_lem (add_input_param s n) s'' i j n hs in
    let all : s'.input_params ≡ s.input_params ++ n ∷ [] =
      ap (λ x. x.input_params) (sym e) ∙ params in
    elim cases [
      | inl (ij, hn) ↦
          (let so = same ij in
            let ht : param_element op'.type ≡ some t = cc in
            let there : at s'.output_at_operand_index j ≡ ok (parameter k t op'.dimensions) = cc in
            let last : IsSublist (parameter k t op'.dimensions ∷ []) s'.input_params = rw all (
              subst
                (λ (o : Operand).
                  IsSublist (parameter k t o.dimensions ∷ []) (s.input_params ++ n ∷ []))
                so (one-last s.input_params n)) in
            (k, t, ht, there, last))
      | inr keeps ↦ (k', t', ho', cc, rw all (still-one n listed))
    ]

-- The operand of an index that is met again is the same.
input_param_keeps :
    (k i j : ℕ) (s s' : NgraphNodes) (op op' : Operand) (b : Bool)
    → (i ≡ j → op ≡ op')
    → input_param k i op b s ≡ ok (some s')
    → IsParameter s j op'
    → IsParameter s' j op'
unfolding input_param set_invalid_node IsParameter
input_param_keeps k i j s s' op op' true same h hp =
    put_param_other k i j s s' op op' (param_element op.type) same refl h hp
input_param_keeps k i j s s' op op' false same h (k', t', ho', hp, listed) =
    let e : set_invalid_node s i ≡ s' = ground arith in
    (
      k',
      t',
      ho',
      ground arith,
      subst (λ x. IsSublist (parameter k' t' op'.dimensions ∷ []) x.input_params) e listed,
    )

put_param_names :
    (k i : ℕ) (s s' : NgraphNodes) (op : Operand) (o : Option ElementType)
    → put_param k i op o s ≡ ok (some s')
    → s'.node_names ≡ s.node_names
unfolding put_param set_output_at_operand_index add_input_param
put_param_names k i s s' op none h = ground arith
put_param_names k i s s' op (some t) h = ground arith

input_param_marks :
    (k i j : ℕ) (s s' : NgraphNodes) (op : Operand) (b : Bool)
    → input_param k i op b s ≡ ok (some s')
    → s.node_names j ≡ some ""
    → s'.node_names j ≡ some ""
unfolding input_param set_invalid_node
input_param_marks k i j s s' op true h hm =
    let e = put_param_names k i s s' op (param_element op.type) h in cc
input_param_marks k i j s s' op false h hm = ground arith

-- One round of the loop.
params_step :
    (info : NnapiModelInfo) (k i : ℕ) (is : List ℕ) (s s' : NgraphNodes)
    → create_params info k (i ∷ is) s ≡ ok (some s')
    → (op : Operand) × (s1 : NgraphNodes) × (get_operand info i ≡ ok op)
      × (input_param k i op (has_size op.dimensions) s ≡ ok (some s1))
      × (create_params info (suc k) is s1 ≡ ok (some s'))
unfolding create_params create_input_param
params_step info k i is s s' h = ground arith

params_keep :
    (info : NnapiModelInfo) (k j : ℕ) (is : List ℕ) (s s' : NgraphNodes) (op : Operand)
    → get_operand info j ≡ ok op
    → create_params info k is s ≡ ok (some s')
    → IsParameter s j op
    → IsParameter s' j op
unfolding create_params
params_keep info k j [] s s' op hop h hp =
    let e : s ≡ s' = ground arith in subst (λ x. IsParameter x j op) e hp
params_keep info k j (i ∷ is) s s' op hop h hp =
    let (op', s1, hop', h1, h2) = params_step info k i is s s' h in
    let same : i ≡ j → op' ≡ op = λ e. ground arith in
    params_keep info (suc k) j is s1 s' op hop h2
      (input_param_keeps k i j s s1 op' op (has_size op'.dimensions) same h1 hp)

params_mark :
    (info : NnapiModelInfo) (k j : ℕ) (is : List ℕ) (s s' : NgraphNodes)
    → create_params info k is s ≡ ok (some s')
    → s.node_names j ≡ some ""
    → s'.node_names j ≡ some ""
unfolding create_params
params_mark info k j [] s s' h hm =
    let e : s ≡ s' = ground arith in subst (λ x. x.node_names j ≡ some "") e hm
params_mark info k j (i ∷ is) s s' h hm =
    let (op', s1, hop', h1, h2) = params_step info k i is s s' h in
    params_mark info (suc k) j is s1 s' h2
      (input_param_marks k i j s s1 op' (has_size op'.dimensions) h1 hm)

params_made :
    (info : NnapiModelInfo) (k n i : ℕ) (is : List ℕ) (s s' : NgraphNodes) (op : Operand)
    → get_elem? is n ≡ some i
    → get_operand info i ≡ ok op
    → has_size op.dimensions ≡ true
    → create_params info k is s ≡ ok (some s')
    → IsParameter s' i op
unfolding input_param
params_made info k n i [] s s' op hn hop hs h = ground arith
params_made info k zero i (j ∷ is) s s' op hn hop hs h =
    let (op', s1, hop', h1, h2) = params_step info k j is s s' h in
    let ij : j ≡ i = ground arith in
    let same : op' ≡ op = ground arith in
    let made : put_param k i op (param_element op.type) s ≡ ok (some s1) = ground arith in
    params_keep info (suc k) i is s1 s' op hop h2
      (put_param_self k i s s1 op (param_element op.type) refl made)
params_made info k (suc n) i (j ∷ is) s s' op hn hop hs h =
    let (op', s1, hop', h1, h2) = params_step info k j is s s' h in
    params_made info (suc k) n i is s1 s' op hn hop hs h2

params_named :
    (info : NnapiModelInfo) (k n i : ℕ) (is : List ℕ) (s s' : NgraphNodes) (op : Operand)
    → get_elem? is n ≡ some i
    → get_operand info i ≡ ok op
    → has_size op.dimensions ≡ false
    → create_params info k is s ≡ ok (some s')
    → s'.node_names i ≡ some ""
unfolding input_param set_invalid_node
params_named info k n i [] s s' op hn hop hs h = ground arith
params_named info k zero i (j ∷ is) s s' op hn hop hs h =
    let (op', s1, hop', h1, h2) = params_step info k j is s s' h in
    let ij : j ≡ i = ground arith in
    let same : op' ≡ op = ground arith in
    let marked : s1.node_names i ≡ some "" = ground arith in
    params_mark info (suc k) i is s1 s' h2 marked
params_named info k (suc n) i (j ∷ is) s s' op hn hop hs h =
    let (op', s1, hop', h1, h2) = params_step info k j is s s' h in
    params_named info (suc k) n i is s1 s' op hn hop hs h2

-- After createInputParams returns true, an input whose operand has a first dimension that is not
-- zero has a parameter of the operand's dimensions, and of the element type of the operand's type, as
-- its output and among the parameters of the graph.
pub create_input_params-IsParameter :
    (info : NnapiModelInfo) (n i : ℕ) (s s' : NgraphNodes) (op : Operand)
    → get_elem? info.model.input_indexes n ≡ some i
    → get_operand info i ≡ ok op
    → has_size op.dimensions ≡ true
    → create_input_params info s ≡ ok (some s')
    → IsParameter s' i op
unfolding create_input_params
create_input_params-IsParameter info n i s s' op hn hop hs h =
    params_made info 0 n i info.model.input_indexes s s' op hn hop hs h

-- After createInputParams returns true, an input whose operand has no dimensions or a first
-- dimension of zero has the empty node name, which getNodeName gives for it.
pub create_input_params-get_node_name :
    (info : NnapiModelInfo) (g : Ngraph) (n i : ℕ) (s s' : NgraphNodes) (op : Operand)
    → get_elem? info.model.input_indexes n ≡ some i
    → get_operand info i ≡ ok op
    → has_size op.dimensions ≡ false
    → create_input_params info s ≡ ok (some s')
    → get_node_name g s' i ≡ ok ("", s')
unfolding create_input_params get_node_name
create_input_params-get_node_name info g n i s s' op hn hop hs h =
    let named = params_named info 0 n i info.model.input_indexes s s' op hn hop hs h in
    ground (arith, named)
