-- ===== src/Build/Frame.antt =====
-- What a step of an operation leaves alone in the graph under construction.
use nn_hal.Prelude.{
  ℕ, zero, suc, if-Ends, Bool, true, false, List, [], ◌∷◌, ◌++◌, ◌≡◌, refl, sym, ◌∙◌, ap, Result,
  ok, fault, Fault, length, get_elem?, get_elem?-set_other, Ends, ok-Ends, append_assoc,
  if◌then◌else◌, length-set, ltb,
}
use nn_hal.Prelude.{IsSublist, IsSublist-refl, IsSublist-trans}
use mathlib.Core.Path.{subst}
use nn_hal.ModelInfo.Memory as M
use nn_hal.Graph.{Node}
use nn_hal.NgraphNodes.{NgraphNodes, set_output_at_operand_index, get_operation_output as output_of}
use nn_hal.NgraphNodes as N
use nn_hal.Build.{
  Context, Build, pure, ◌>>=◌, then_with, with_state, state_done, asks, fails, operation_output,
  get_operation_output, set_output, add_result_node,
}

-- The operand is an output of the context's operation.
abbrev pub IsOutput : Context → ℕ → Type 0
IsOutput c i = (k : ℕ) × (M.get_operation_output c.info c.operation k ≡ ok i)

-- From one state of the graph to a later one: there are as many outputs; those of the operands
-- outside `P` are the same; the results are added to, and the
-- parameters lose some or none, the others in their order.
pub record Extends (P : ℕ → Type 0) (s s' : NgraphNodes) : Type 0 where
  pub same_length : length s'.output_at_operand_index ≡ length s.output_at_operand_index
  pub others :
      (i : ℕ)
      → ¬ P i
      → get_elem? s'.output_at_operand_index i ≡ get_elem? s.output_at_operand_index i
  pub results : (more : List Node) × (s'.result_nodes ≡ s.result_nodes ++ more)
  pub parameters : IsSublist s'.input_params s.input_params

append-nil {ℓ} : {A : Type ℓ} (xs : List A) → xs ++ [] ≡ xs
append-nil [] = refl
append-nil (x ∷ xs) = ap (λ t. x ∷ t) (append-nil xs)

pub Extends-refl : (P : ℕ → Type 0) (s : NgraphNodes) → Extends P s s
Extends-refl P s = record {
  same_length = refl;
  others = λ i h. refl;
  results = ([], sym (append-nil s.result_nodes));
  parameters = IsSublist-refl s.input_params;
}

-- The names are no part of this.
pub Extends-same :
    (P : ℕ → Type 0) (s t : NgraphNodes)
    → (t.output_at_operand_index ≡ s.output_at_operand_index)
      × (t.result_nodes ≡ s.result_nodes)
      × IsSublist t.input_params s.input_params
    → Extends P s t
Extends-same P s t (outs, results, params) = record {
  same_length = ap length outs;
  others = λ i h. rw outs refl;
  results = ([], results ∙ sym (append-nil s.result_nodes));
  parameters = params;
}

pub Extends-trans :
    (P : ℕ → Type 0) (s t u : NgraphNodes) → Extends P s t → Extends P t u → Extends P s u
Extends-trans P s t u p q =
    let (xs, ex) = p.results in
    let (ys, ey) = q.results in
    record {
      same_length = q.same_length ∙ p.same_length;
      others = λ i h. q.others i h ∙ p.others i h;
      results = (xs ++ ys, ey ∙ ap (λ t. t ++ ys) ex ∙ append_assoc s.result_nodes xs ys);
      parameters = IsSublist-trans q.parameters p.parameters;
    }

pub Extends-weaken :
    (P Q : ℕ → Type 0) (s t : NgraphNodes) → ((i : ℕ) → P i → Q i) → Extends P s t → Extends Q s t
Extends-weaken P Q s t f e = record {
  same_length = e.same_length;
  others = λ i h. e.others i (λ p. h (f i p));
  results = e.results;
  parameters = e.parameters;
}

-- Every state that the step returns extends the one it was given.
pub record Keeps {ℓ} {A : Type ℓ} (c : Context) (m : Build A) : Type ℓ where
  pub at_state : (s : NgraphNodes) → Ends (λ r. Extends (IsOutput c) s r.1) (m c s)

with_state-Ends {ℓ} :
    {A : Type ℓ} (P : ℕ → Type 0) (s : NgraphNodes) (r : Result A)
    → Ends (λ x. Extends P s x.1) (with_state s r)
with_state-Ends P s (ok a) = ok-Ends _ (Extends-refl P s)
with_state-Ends P s (fault e) = record { at_end = λ r e. absurd cc }

module _ {ℓ} {A : Type ℓ} {c : Context} where
  pub Keeps-pure : (a : A) → Keeps c (pure a)
  Keeps-pure a = record { at_state = λ s. ok-Ends _ (Extends-refl (IsOutput c) s) }

  pub Keeps-asks : (f : Context → Result A) → Keeps c (asks f)
  Keeps-asks f = record { at_state = λ s. with_state-Ends (IsOutput c) s (f c) }

  pub Keeps-fails : (e : Fault) → Keeps c (fails {A = A} e)
  Keeps-fails e = record { at_state = λ s. record { at_end = λ r e. absurd cc } }

  pub Keeps-if : (b : Bool) (m n : Build A) → Keeps c m → Keeps c n → Keeps c (if b then m else n)
  Keeps-if true m n hm hn = hm
  Keeps-if false m n hm hn = hn

  pub Keeps-elim_nat :
      (n : ℕ) (m : Build A) (f : ℕ → Build A)
      → Keeps c m
      → ((k : ℕ) → Keeps c (f k))
      → Keeps c (elim n [ zero ↦ m | suc k ↦ f k ])
  Keeps-elim_nat zero m f hm hf = hm
  Keeps-elim_nat (suc k) m f hm hf = hf k

  pub Keeps-elim_dec {κ} :
      {P : Type κ} (d : Dec P) (m n : Build A)
      → Keeps c m
      → Keeps c n
      → Keeps c (elim d [ yes p ↦ m | no p ↦ n ])
  Keeps-elim_dec (yes p) m n hm hn = hm
  Keeps-elim_dec (no p) m n hm hn = hn

pub Keeps-get_operation_output : {c : Context} (i : ℕ) → Keeps c (get_operation_output i)
Keeps-get_operation_output {c = c} i = record {
  at_state = λ s. with_state-Ends (IsOutput c) s (output_of s i);
}

module _ {ℓ κ} {A : Type ℓ} {B : Type κ} {c : Context} where
  then_with-Ends :
      (f : A → Build B) (s : NgraphNodes) (r : Result (A × NgraphNodes))
      → Ends (λ x. Extends (IsOutput c) s x.1) r
      → ((a : A) → Keeps c (f a))
      → Ends (λ x. Extends (IsOutput c) s x.1) (then_with f c r)
  then_with-Ends f s (ok (a, t)) h k = record {
    at_end = λ x e.
        Extends-trans (IsOutput c) s t x.1 (h.at_end (a, t) refl) (((k a).at_state t).at_end x e);
  }
  then_with-Ends f s (fault e) h k = record { at_end = λ r e. absurd cc }

  pub Keeps-bind :
      (m : Build A) (f : A → Build B) → Keeps c m → ((a : A) → Keeps c (f a)) → Keeps c (m >>= f)
  Keeps-bind m f h k = record { at_state = λ s. then_with-Ends f s (m c s) (h.at_state s) k }

module _ {κ} {B : Type κ} {c : Context} where
  -- what follows may use that the index is that of an output
  pub Keeps-bind_output :
      (k : ℕ) (f : ℕ → Build B)
      → ((i : ℕ) → IsOutput c i → Keeps c (f i))
      → Keeps c (operation_output k >>= f)
  Keeps-bind_output k f h = record {
    at_state = λ s. known (M.get_operation_output c.info c.operation k) refl s;
  }
    where
      known :
          (r : Result ℕ)
          → M.get_operation_output c.info c.operation k ≡ r
          → (s : NgraphNodes)
          → Ends (λ x. Extends (IsOutput c) s x.1) (then_with f c (with_state s r))
      known (ok i) e s = (h i (k, e)).at_state s
      known (fault why) e s = record { at_end = λ r wrong. absurd cc }

state_done-Ends :
    (P : ℕ → Type 0) (s : NgraphNodes) (r : Result NgraphNodes)
    → Ends (Extends P s) r
    → Ends (λ x. Extends P s x.1) (state_done r)
state_done-Ends P s (ok t) h = ok-Ends _ (h.at_end t refl)
state_done-Ends P s (fault e) h = record { at_end = λ r wrong. absurd cc }

pub Keeps-set_output : {c : Context} (i : ℕ) (n : Node) → IsOutput c i → Keeps c (set_output i n)
unfolding set_output_at_operand_index
Keeps-set_output {c = c} i n is_output = record {
  at_state = λ s. state_done-Ends (IsOutput c) s _ (
      if-Ends (ltb i (length s.output_at_operand_index)) _ _
        (λ _. ok-Ends _ (record {
          same_length = length-set s.output_at_operand_index i n;
          others = λ j h.
              get_elem?-set_other s.output_at_operand_index i j n
                (λ e. h (subst (IsOutput c) e is_output));
          results = ([], sym (append-nil s.result_nodes));
          parameters = IsSublist-refl s.input_params;
        }))
        (λ _. record { at_end = λ r wrong. absurd cc }));
}

pub Keeps-add_result_node : {c : Context} (i : ℕ) (n : Node) → Keeps c (add_result_node i n)
unfolding N.set_result_node
Keeps-add_result_node i n = record {
  at_state = λ s. ok-Ends _ (record {
    same_length = refl;
    others = λ j h. refl;
    results = (n ∷ [], refl);
    parameters = IsSublist-refl s.input_params;
  });
}

pub ruleset keeps_rules = (
  Keeps-pure, Keeps-asks, Keeps-fails, Keeps-if, Keeps-elim_nat, Keeps-elim_dec,
  Keeps-get_operation_output, Keeps-bind, Keeps-bind_output, Keeps-set_output,
  Keeps-add_result_node,
)
