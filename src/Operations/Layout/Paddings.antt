-- ===== src/Operations/Layout/Paddings.antt =====
-- Pad.cpp and PadV2.cpp: the paddings of a tensor, interleaved by the client.
use nn_hal.Prelude.{ℕ, ◌≡◌, refl, arith, List, [], ◌∷◌, length}
use nn_hal.Operations.Layout.{deinterleave}

-- The paddings as the client gives them: before and after each dimension in turn.
unfoldable pub interleave : List ℕ → List ℕ → List ℕ
interleave (a ∷ begins) (b ∷ ends) = a ∷ b ∷ interleave begins ends
interleave begins ends = []

-- Of as many paddings before as after, each list is found again.
pub deinterleave-interleave :
    (begins ends : List ℕ)
    → length begins ≡ length ends
    → deinterleave (interleave begins ends) ≡ (begins, ends)
unfolding deinterleave interleave
deinterleave-interleave [] [] h = refl
deinterleave-interleave (a ∷ begins) (b ∷ ends) h =
    let ih = deinterleave-interleave begins ends (ground arith) in ground (arith, ih)
deinterleave-interleave [] (b ∷ ends) h = ground arith
deinterleave-interleave (a ∷ begins) [] h = ground arith
