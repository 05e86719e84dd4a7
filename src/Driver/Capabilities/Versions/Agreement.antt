-- ===== src/Driver/Capabilities/Versions/Agreement.antt =====
-- Driver.cpp: the capabilities of version 1.2 against those of 1.3.
use nn_hal.Prelude.{
  ℕ, List, [], ◌∷◌, Option, none, some, ◌≡◌, refl, ap, if◌then◌else◌, Bool-cases, inl, inr,
}
use nn_hal.Types.{OperandType, IntelDeviceType, ErrorStatus}
use nn_hal.Driver.Capabilities.{
  PerformanceInfo, Capabilities, is_subgraph, sort, performances, device_performance, performance,
  non_extension_operand_performance, get_capabilities_1_3,
}
use nn_hal.Driver.Capabilities.Versions.{
  Capabilities12, performances_1_2, device_performance_1_2, non_extension_operand_performance_1_2,
  get_capabilities_1_2,
}

-- The operand types of V1_2 are those of V1_3 without SUBGRAPH.
abbrev pub without_subgraph : List OperandType → List OperandType
without_subgraph [] = []
without_subgraph (t ∷ ts) = if is_subgraph t then without_subgraph ts else t ∷ without_subgraph ts

-- The capabilities without the performance of if and while.
abbrev pub older : Option Capabilities → Option Capabilities12
older none = none
older (some c) = some (record {
  relaxed_scalar = c.relaxed_scalar;
  relaxed_tensor = c.relaxed_tensor;
  operand_performance = c.operand_performance;
})

performances_lem :
    (number : OperandType → ℕ) (perf : PerformanceInfo) (range : List OperandType)
    → performances_1_2 perf (without_subgraph range) ≡ performances number perf range
unfolding performances_1_2 performances
performances_lem number perf [] = refl
performances_lem number perf (t ∷ ts) = elim (Bool-cases (is_subgraph t)) [
  | inl e ↦ rw e (performances_lem number perf ts)
  | inr e ↦
      rw e (ap (λ ps. record { type = t; info = perf } ∷ ps) (performances_lem number perf ts))
]

-- the answers for a device that has the performance
answers_lem :
    (number : OperandType → ℕ) (range : List OperandType) (perf operands : PerformanceInfo)
    → ◌≡◌ {A = ErrorStatus × Option Capabilities12}
        (
          ErrorStatus.none,
          some (record {
            relaxed_scalar = perf;
            relaxed_tensor = perf;
            operand_performance = sort number (performances_1_2 operands (without_subgraph range));
          }),
        )
        (
          ErrorStatus.none,
          some (record {
            relaxed_scalar = perf;
            relaxed_tensor = perf;
            operand_performance = sort number (performances number operands range);
          }),
        )
answers_lem number range perf operands = rw (performances_lem number operands range) refl

-- For every device, getCapabilities_1_2 over the operand types without SUBGRAPH answers what
-- getCapabilities_1_3 does, the performance of if and while aside: the status, the performance of
-- relaxed floats, and the list for the operand types.
pub get_capabilities_1_2-get_capabilities_1_3 :
    (number : OperandType → ℕ) (range : List OperandType) (device : IntelDeviceType)
    → get_capabilities_1_2 number (without_subgraph range) device ≡ (
      (get_capabilities_1_3 number range device).0,
      older (get_capabilities_1_3 number range device).1,
    )
unfolding get_capabilities_1_2 get_capabilities_1_3 device_performance device_performance_1_2
    non_extension_operand_performance non_extension_operand_performance_1_2
get_capabilities_1_2-get_capabilities_1_3 number range IntelDeviceType.cpu =
    answers_lem number range (performance 90 90) (performance 90 90)
get_capabilities_1_2-get_capabilities_1_3 number range IntelDeviceType.gpu =
    answers_lem number range (performance 95 85) (performance 95 95)
get_capabilities_1_2-get_capabilities_1_3 number range IntelDeviceType.gna =
    answers_lem number range (performance 80 80) (performance 80 80)
get_capabilities_1_2-get_capabilities_1_3 number range IntelDeviceType.vpu =
    answers_lem number range (performance 110 110) (performance 110 110)
get_capabilities_1_2-get_capabilities_1_3 number range IntelDeviceType.other = refl
