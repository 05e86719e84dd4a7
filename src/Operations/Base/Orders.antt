-- ===== src/Operations/Base/Orders.antt =====
-- OperationsBase.cpp: the orders of transpose against permuteDims of utils.cpp.
use nn_hal.Prelude.{
  ℕ, List, [], ◌∷◌, Option, none, some, ◌≡◌, refl, arith, length, ok, ◌>>=◌, Result,
}
use mathlib.Core.Path.{subst}
use nn_hal.Utils.Sizes.{permute_dims}
use nn_hal.Operations.Base.{ConversionType, transpose_order}

-- The conversion back: the one named for the two layouts the other way round, or the same one where
-- that is an exchange of two axes. IHWO_OIHW and OHWI_OIHW have none.
unfoldable pub inverse : ConversionType → Option ConversionType
inverse ConversionType.nhwc_nchw = some ConversionType.nchw_nhwc
inverse ConversionType.nchw_nhwc = some ConversionType.nhwc_nchw
inverse ConversionType.ihwo_oihw = none
inverse ConversionType.ohwi_oihw = none
inverse ConversionType.nhwc_cwhn = some ConversionType.cwhn_nhwc
inverse ConversionType.cwhn_nhwc = some ConversionType.nhwc_cwhn
inverse ConversionType.nhc_nch = some ConversionType.nch_nhc
inverse ConversionType.nch_nhc = some ConversionType.nhc_nch
inverse ConversionType.cnh_nhc = some ConversionType.nhc_cnh
inverse ConversionType.nhc_cnh = some ConversionType.cnh_nhc
inverse ConversionType.nch_hnc = some ConversionType.hnc_nch
inverse ConversionType.hnc_nch = some ConversionType.nch_hnc
inverse t = some t

abbrev pub swap_last : List ℕ → List ℕ
swap_last (a ∷ b ∷ c ∷ []) = a ∷ c ∷ b ∷ []
swap_last dims = dims

-- What comes of the dimensions there and back.
abbrev pub there_and_back : ConversionType → List ℕ → List ℕ
there_and_back ConversionType.nhc_nch dims = swap_last dims
there_and_back ConversionType.nch_nhc dims = swap_last dims
there_and_back t dims = dims

-- the permutation by one order and then by another
unfoldable pub permuted_twice : List ℕ → List ℕ → List ℕ → Result (List ℕ)
permuted_twice order back dims = permute_dims dims order >>= λ permuted. permute_dims permuted back

-- What holds of two orders for the dimensions.
unfoldable pub Gives : List ℕ → List ℕ → (List ℕ → List ℕ) → List ℕ → Type 0
unfolding permuted_twice
Gives order back f dims = permuted_twice order back dims ≡ ok (f dims)

four :
    (P : List ℕ → Type 0)
    → ((a b c d : ℕ) → P (a ∷ b ∷ c ∷ d ∷ []))
    → (dims : List ℕ) → length dims ≡ 4
    → P dims
four P f (a ∷ b ∷ c ∷ d ∷ []) h = f a b c d
four P f _ h = ground arith

three :
    (P : List ℕ → Type 0)
    → ((a b c : ℕ) → P (a ∷ b ∷ c ∷ []))
    → (dims : List ℕ) → length dims ≡ 3
    → P dims
three P f (a ∷ b ∷ c ∷ []) h = f a b c
three P f _ h = ground arith

two :
    (P : List ℕ → Type 0)
    → ((a b : ℕ) → P (a ∷ b ∷ []))
    → (dims : List ℕ) → length dims ≡ 2
    → P dims
two P f (a ∷ b ∷ []) h = f a b
two P f _ h = ground arith

zero_lem : (P : List ℕ → Type 0) → P [] → (dims : List ℕ) → length dims ≡ 0 → P dims
zero_lem P h [] e = h
zero_lem P h (d ∷ ds) e = ground arith

-- the two permutations, for each conversion and the conversion back
abbrev Returned : ConversionType → Option ConversionType → List ℕ → Type 0
Returned t none dims = Unit
Returned t (some back) dims =
    permuted_twice (transpose_order t) (transpose_order back) dims ≡ ok (there_and_back t dims)

returned :
    (t : ConversionType) (dims : List ℕ)
    → length dims ≡ length (transpose_order t)
    → Returned t (inverse t) dims
unfolding inverse transpose_order permuted_twice Gives permute_dims
returned ConversionType.nhwc_nchw dims h =
    four
      (λ x.
        Gives (0 ∷ 3 ∷ 1 ∷ 2 ∷ []) (0 ∷ 2 ∷ 3 ∷ 1 ∷ []) (there_and_back ConversionType.nhwc_nchw) x)
      (λ a b c d. refl) dims h
returned ConversionType.nchw_nhwc dims h =
    four
      (λ x.
        Gives (0 ∷ 2 ∷ 3 ∷ 1 ∷ []) (0 ∷ 3 ∷ 1 ∷ 2 ∷ []) (there_and_back ConversionType.nchw_nhwc) x)
      (λ a b c d. refl) dims h
returned ConversionType.nhwc_cwhn dims h =
    four
      (λ x.
        Gives (3 ∷ 2 ∷ 1 ∷ 0 ∷ []) (3 ∷ 2 ∷ 1 ∷ 0 ∷ []) (there_and_back ConversionType.nhwc_cwhn) x)
      (λ a b c d. refl) dims h
returned ConversionType.cwhn_nhwc dims h =
    four
      (λ x.
        Gives (3 ∷ 2 ∷ 1 ∷ 0 ∷ []) (3 ∷ 2 ∷ 1 ∷ 0 ∷ []) (there_and_back ConversionType.cwhn_nhwc) x)
      (λ a b c d. refl) dims h
returned ConversionType.nhc_nch dims h =
    three (λ x. Gives (0 ∷ 2 ∷ 1 ∷ []) (0 ∷ 1 ∷ 2 ∷ []) (there_and_back ConversionType.nhc_nch) x)
      (λ a b c. refl) dims h
returned ConversionType.nch_nhc dims h =
    three (λ x. Gives (0 ∷ 1 ∷ 2 ∷ []) (0 ∷ 2 ∷ 1 ∷ []) (there_and_back ConversionType.nch_nhc) x)
      (λ a b c. refl) dims h
returned ConversionType.cnh_nhc dims h =
    three (λ x. Gives (1 ∷ 2 ∷ 0 ∷ []) (2 ∷ 0 ∷ 1 ∷ []) (there_and_back ConversionType.cnh_nhc) x)
      (λ a b c. refl) dims h
returned ConversionType.nhc_cnh dims h =
    three (λ x. Gives (2 ∷ 0 ∷ 1 ∷ []) (1 ∷ 2 ∷ 0 ∷ []) (there_and_back ConversionType.nhc_cnh) x)
      (λ a b c. refl) dims h
returned ConversionType.bts_tbs dims h =
    three (λ x. Gives (1 ∷ 0 ∷ 2 ∷ []) (1 ∷ 0 ∷ 2 ∷ []) (there_and_back ConversionType.bts_tbs) x)
      (λ a b c. refl) dims h
returned ConversionType.nhcw_nhwc dims h =
    four
      (λ x.
        Gives (0 ∷ 1 ∷ 3 ∷ 2 ∷ []) (0 ∷ 1 ∷ 3 ∷ 2 ∷ []) (there_and_back ConversionType.nhcw_nhwc) x)
      (λ a b c d. refl) dims h
returned ConversionType.nc_cn dims h =
    two (λ x. Gives (1 ∷ 0 ∷ []) (1 ∷ 0 ∷ []) (there_and_back ConversionType.nc_cn) x) (λ a b. refl)
      dims h
returned ConversionType.nch_hnc dims h = zero_lem (λ x. Gives [] [] (λ d. d) x) refl dims h
returned ConversionType.hnc_nch dims h = zero_lem (λ x. Gives [] [] (λ d. d) x) refl dims h
returned ConversionType.ihwo_oihw dims h = tt
returned ConversionType.ohwi_oihw dims h = tt

-- For every conversion that has a conversion back, and any dimensions of the order's rank: the two
-- permutations, one after the other, give the dimensions back, except that NHC_NCH and NCH_NHC, in
-- either sequence, exchange the last two dimensions.
pub transpose_order-inverse :
    (t back : ConversionType) (dims : List ℕ)
    → inverse t ≡ some back
    → length dims ≡ length (transpose_order t)
    → permuted_twice (transpose_order t) (transpose_order back) dims ≡ ok (there_and_back t dims)
transpose_order-inverse t back dims e h = subst (λ x. Returned t x dims) e (returned t dims h)
