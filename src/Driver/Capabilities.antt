-- ===== src/Driver/Capabilities.antt =====
-- Driver.cpp: getCapabilities and what it lists for each operand type. The operand types of the HIDL
-- interface and their numbers are parameters; a performance is given in hundredths.
pub mod Order
pub mod Versions
use nn_hal.Prelude.{
  ℕ, ◌≤◌, ◌≡◌, Bool, true, false, List, [], ◌∷◌, map, Option, none, some, ltb, leb, if◌then◌else◌,
  All, arith, refl, Bool-cases, inl, inr,
}
use nn_hal.Types.{OperandType, IntelDeviceType, ErrorStatus, device_unavailable}

pub record PerformanceInfo : Type 0 where
  pub exec_time : ℕ
  pub power_usage : ℕ

pub record OperandPerformance : Type 0 where
  pub type : OperandType
  pub info : PerformanceInfo

pub record Capabilities : Type 0 where
  pub relaxed_scalar : PerformanceInfo
  pub relaxed_tensor : PerformanceInfo
  pub operand_performance : List OperandPerformance
  pub if_performance : PerformanceInfo
  pub while_performance : PerformanceInfo

abbrev pub is_subgraph : OperandType → Bool
is_subgraph OperandType.subgraph = true
is_subgraph type = false

-- `number` is the value of the enumerator, by which std::sort orders
module _ (number : OperandType → ℕ) where
  unfoldable pub insert : OperandPerformance → List OperandPerformance → List OperandPerformance
  insert p [] = p ∷ []
  insert p (q ∷ qs) =
      let rest = insert p qs in if ltb (number q.type) (number p.type) then q ∷ rest else p ∷ q ∷ qs

  unfoldable pub sort : List OperandPerformance → List OperandPerformance
  unfolding insert
  sort [] = []
  sort (p ∷ ps) = insert p (sort ps)

  unfoldable pub performances : PerformanceInfo → List OperandType → List OperandPerformance
  performances perf [] = []
  performances perf (t ∷ ts) =
      let rest = performances perf ts in
      if is_subgraph t then rest else record { type = t; info = perf } ∷ rest

  unfoldable pub non_extension_operand_performance :
      List OperandType → PerformanceInfo → List OperandPerformance
  unfolding sort performances
  non_extension_operand_performance range perf = sort (performances perf range)

abbrev pub performance : ℕ → ℕ → PerformanceInfo
performance t p = record { exec_time = t; power_usage = p }

-- the performance of the device, and that of its operands
unfoldable pub device_performance : IntelDeviceType → Option (PerformanceInfo × PerformanceInfo)
device_performance IntelDeviceType.cpu = some (performance 90 90, performance 90 90)
device_performance IntelDeviceType.gpu = some (performance 95 85, performance 95 95)
device_performance IntelDeviceType.gna = some (performance 80 80, performance 80 80)
device_performance IntelDeviceType.vpu = some (performance 110 110, performance 110 110)
device_performance IntelDeviceType.other = none

-- getCapabilities_1_3; `none` are the capabilities that are not set
unfoldable pub get_capabilities_1_3 :
    (OperandType → ℕ) → List OperandType → IntelDeviceType → ErrorStatus × Option Capabilities
unfolding device_performance non_extension_operand_performance
get_capabilities_1_3 number range device = elim (device_performance device) [
  | none ↦ (device_unavailable, none)
  | some (perf, operands) ↦ (
    ErrorStatus.none,
    some (record {
      relaxed_scalar = perf;
      relaxed_tensor = perf;
      operand_performance = non_extension_operand_performance number range operands;
      if_performance = perf;
      while_performance = perf;
    }),
  )
]
