-- ===== src/ModelInfo/Requests/Shapes.antt =====
-- ModelManager.cpp: what updateOutputshapes leaves of the shapes.
use nn_hal.Prelude.{
  ℕ, ◌≤◌, ◌<◌, ◌%◌, ◌^◌, ◌==◌, map, All, ◌≡◌, inl, inr, refl, arith, Bool, List, [], ◌∷◌, some, ok,
  get_elem?, take, length, ltb, if◌then◌else◌, Bool-cases, not,
}
use nn_hal.Prelude.{set as set_elem}
use nn_hal.ModelInfo.Model.{NnapiModelInfo, OutputShape}
use nn_hal.ModelInfo.Requests.{copy_dims, update_outputshapes}

-- the assignment of a size_t to an uint32_t
abbrev pub narrowed : List ℕ → List ℕ
narrowed dims = map (λ d. d % 2 ^ 32) dims

-- The loop keeps a dimension that is equal, so it takes as many of the new ones as there were.
copy_dims_lem :
    (ds ns : List ℕ)
    → length ds ≤ length ns
    → All (λ d. d < 2 ^ 32) ds
    → copy_dims ds ns ≡ ok (narrowed (take (length ds) ns))
unfolding copy_dims
copy_dims_lem [] ns h small = refl
copy_dims_lem (d ∷ ds) [] h small = absurd (omega arith)
copy_dims_lem (d ∷ ds) (n ∷ ns) h (lt, more) =
    let ih = copy_dims_lem ds ns (omega arith) more in
    let kept : (if d == n then d else n % 2 ^ 32) ≡ n % 2 ^ 32 = ground arith in rw (ih, kept) refl

-- updateOutputshapes of an output that there is, its shape's dimensions being values of a uint32_t: with
-- fewer dimensions than the shape has, the result is false and the shape keeps its dimensions; else it
-- is true and the shape has as many of the new dimensions as it had, modulo 2 ^ 32. Either way the
-- shape is marked as told, and nothing else changes.
pub update_outputshapes_lem :
    (s : NnapiModelInfo) (i : ℕ) (dims : List ℕ) (enough : Bool) (shape : OutputShape)
    → get_elem? s.output_shapes i ≡ some shape
    → All (λ d. d < 2 ^ 32) shape.dimensions
    → update_outputshapes s i dims enough
      ≡ ok (
        record s {
          output_shapes = set_elem s.output_shapes i (record {
            dimensions =
                if ltb (length dims) (length shape.dimensions)
                then shape.dimensions
                else narrowed (take (length shape.dimensions) dims);
            is_sufficient = enough;
          });
        },
        not (ltb (length dims) (length shape.dimensions)),
      )
unfolding update_outputshapes
update_outputshapes_lem s i dims enough shape h small =
    elim (Bool-cases (ltb (length dims) (length shape.dimensions))) [
      | inl e ↦ ground arith
      | inr e ↦
          (let copied = copy_dims_lem shape.dimensions dims (ground arith) small in
            ground (arith, copied))
    ]
