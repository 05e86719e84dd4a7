-- ===== src/Operations/Recurrent/Bidirectional/Steps.antt =====
-- ngraph_creator/operations/src/BidirectionalSequenceRNN.cpp: the outputs of the two loops over the
-- time steps.
use nn_hal.Prelude.{
  ℕ, zero, suc, ◌+◌, Bool, List, [], ◌∷◌, ◌≡◌, refl, ap, arith, Result, ok, fault, length,
  replicate, leb, ◌^◌, if◌then◌else◌, true, false,
}
use mathlib.Core.Path.{subst}
use nn_hal.Graph.{Node, no_node, output, Op}
use nn_hal.NgraphNodes.{NgraphNodes}
use nn_hal.Build.{Context, Build, pure, ◌>>=◌, then_with, make}
use nn_hal.Operations.Recurrent.{Weights}
use nn_hal.Operations.Recurrent.Bidirectional.{
  Linking, Forward, no_axes, linked_cell, forward_aux, forward_from, backward_input, backward_aux,
  backward_from, backward_steps,
}

-- The first and the last node of the list, or `n` if there is none.
abbrev pub first_or : Node → List Node → Node
first_or n [] = n
first_or n (x ∷ xs) = x

abbrev pub last_or : Node → List Node → Node
last_or n [] = n
last_or n (x ∷ xs) = last_or x xs

-- What the step makes, where it makes something, has the property.
record Yields {ℓ κ} {A : Type ℓ} (P : A → Type κ) (m : Build A) : Type (ℓ ⊔ κ) where
  at_made : (c : Context) (s s' : NgraphNodes) (a : A) → m c s ≡ ok (a, s') → P a

then_with-eq-ok {ℓ κ} :
    {A : Type ℓ} {B : Type κ} (f : A → Build B) (c : Context) (r : Result (A × NgraphNodes))
    {y : B × NgraphNodes}
    → then_with f c r ≡ ok y
    → (x : A × NgraphNodes) × (r ≡ ok x) × (f x.0 c x.1 ≡ ok y)
then_with-eq-ok f c (ok x) e = (x, refl, e)
then_with-eq-ok f c (fault why) e = absurd cc

module _ {ℓ κ μ} {A : Type ℓ} {B : Type κ} {P : B → Type μ} where
  -- whatever the first step makes
  after-Yields : (m : Build A) {f : A → Build B} → ((a : A) → Yields P (f a)) → Yields P (m >>= f)
  after-Yields m {f = f} h = record {
    at_made = λ c s s' b e.
        let ((a, t), em, ef) = then_with-eq-ok f c (m c s) e in (h a).at_made c t s' b ef;
  }

  then-Yields {ν} :
      {Q : A → Type ν} (m : Build A) {f : A → Build B}
      → Yields Q m
      → ((a : A) → Q a → Yields P (f a))
      → Yields P (m >>= f)
  then-Yields m {f = f} q h = record {
    at_made = λ c s s' b e.
        let ((a, t), em, ef) = then_with-eq-ok f c (m c s) e in
        (h a (q.at_made c s t a em)).at_made c t s' b ef;
  }

pure-Yields {ℓ κ} : {A : Type ℓ} {P : A → Type κ} (a : A) → P a → Yields P (pure a)
pure-Yields {P = P} a h = record {
  at_made = λ c s s' b e. (let same : a ≡ b = cc in subst P same h);
}

module _ (w : Weights) (linking : Linking) (activation : ℕ) (aux_split : Node) where
  forward_from-Yields :
      (split : Node) (i count : ℕ) (state last : Node)
      → Yields
          (λ r.
            (length r.outputs ≡ count)
            × (length r.inputs ≡ count)
            × (last_or last r.outputs ≡ r.last))
          (forward_from w linking activation split aux_split i count state last)
  unfolding forward_from
  forward_from-Yields split i zero state last = pure-Yields _ (refl, refl, refl)
  forward_from-Yields split i (suc count) state last = after-Yields no_axes λ dims.
      after-Yields (make Op.squeeze (output split i ∷ dims ∷ [])) λ input.
        after-Yields (linked_cell w activation dims input state (forward_aux linking aux_split i))
          λ (out, aux).
            then-Yields (forward_from w linking activation split aux_split (suc i) count out out)
              (forward_from-Yields split (suc i) count out out)
              λ rest (outs, ins, at_last).
                pure-Yields _ (ap (λ n. suc n) outs, ap (λ n. suc n) ins, at_last)

  backward_from-Yields :
      (fw : Forward) (count : ℕ) (state last : Node) (outputs : List Node)
      → first_or no_node outputs ≡ last
      → Yields
          (λ r. (length r.0 ≡ count + length outputs) × (first_or no_node r.0 ≡ r.1))
          (backward_from w linking activation aux_split fw count state last outputs)
  unfolding backward_from
  backward_from-Yields fw zero state last outputs h = pure-Yields _ (omega arith, h)
  backward_from-Yields fw (suc i) state last outputs h = after-Yields no_axes λ dims.
      after-Yields (backward_input linking aux_split fw i) λ step_input.
        after-Yields (make Op.squeeze (step_input ∷ dims ∷ [])) λ input.
          after-Yields (backward_aux linking fw i) λ aux.
            after-Yields (linked_cell w activation dims input state aux)
              λ (out, aux'). counted (backward_from-Yields fw i out out (out ∷ outputs) refl)
    where
      counted :
          {m : Build (List Node × Node)}
          → Yields (λ r. (length r.0 ≡ i + suc (length outputs)) × (first_or no_node r.0 ≡ r.1)) m
          → Yields (λ r. (length r.0 ≡ suc i + length outputs) × (first_or no_node r.0 ≡ r.1)) m
      counted y = record {
        at_made = λ c s s' r e.
            let (long, at_first) = y.at_made c s s' r e in (omega (arith, long), at_first);
      }

length-replicate {ℓ} : {A : Type ℓ} (n : ℕ) (x : A) → length (replicate n x) ≡ n
length-replicate zero x = refl
length-replicate (suc n) x = ap (λ k. suc k) (length-replicate n x)

first-replicate : (n : ℕ) → first_or no_node (replicate n no_node) ≡ no_node
first-replicate zero = refl
first-replicate (suc n) = refl

if-Yields {ℓ κ} :
    {A : Type ℓ} {P : A → Type κ} (b : Bool) (m n : Build A)
    → Yields P m
    → Yields P n
    → Yields P (if b then m else n)
if-Yields true m n hm hn = hm
if-Yields false m n hm hn = hn

backward_steps-Yields :
    (w : Weights) (linking : Linking) (activation : ℕ) (aux_split : Node) (fw : Forward)
    (max_time : ℕ) (state : Node)
    → Yields
        (λ r. (length r.0 ≡ max_time) × (first_or no_node r.0 ≡ r.1))
        (backward_steps w linking activation aux_split fw max_time state)
backward_steps-Yields w linking activation aux_split fw max_time state =
    if-Yields (leb max_time (2 ^ 31)) _ _
      (record {
        at_made = λ c s s' r e.
            let (long, at_first) =
              (backward_from-Yields w linking activation aux_split fw max_time state no_node []
                  refl).at_made
                c s s' r e in
            (omega (arith, long), at_first);
      })
      (pure-Yields _ (length-replicate max_time no_node, first-replicate max_time))

-- Where the loops over the time steps end: each direction has an output for every step, the forward loop
-- keeps the input of every step, and the state after the last step of a loop is the last output for
-- the forward loop and the first for the backward one, or null where there are no steps.
pub backward_steps-forward_from :
    (fw_w bw_w : Weights) (linking : Linking) (activation max_time : ℕ)
    (split aux_split fw_state bw_state bw_last : Node) (fw : Forward) (bw_outputs : List Node)
    (c : Context) (s s' t t' : NgraphNodes)
    → forward_from fw_w linking activation split aux_split 0 max_time fw_state no_node c s
      ≡ ok (fw, s')
    → backward_steps bw_w linking activation aux_split fw max_time bw_state c t
      ≡ ok ((bw_outputs, bw_last), t')
    → (length fw.outputs ≡ max_time)
      × (length fw.inputs ≡ max_time)
      × (length bw_outputs ≡ max_time)
      × (last_or no_node fw.outputs ≡ fw.last)
      × (first_or no_node bw_outputs ≡ bw_last)
backward_steps-forward_from fw_w bw_w linking activation max_time split aux_split fw_state bw_state
      bw_last fw bw_outputs c s s' t t' ef eb =
    let (outs, ins, at_last) =
      (forward_from-Yields fw_w linking activation aux_split split 0 max_time fw_state
          no_node).at_made
        c s s' fw ef in
    let (long, at_first) =
      (backward_steps-Yields bw_w linking activation aux_split fw max_time bw_state).at_made c t t'
        (bw_outputs, bw_last) eb in
    (outs, ins, long, at_last, at_first)
