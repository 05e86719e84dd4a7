-- ===== src/Driver/Capabilities/Versions.antt =====
-- Driver.cpp: the capabilities for the older versions of the interface, and the constant answers.
pub mod Agreement
use nn_hal.Prelude.{ℕ, String, List, [], ◌∷◌, Option, none, some}
use nn_hal.Types.{OperandType, IntelDeviceType, ErrorStatus, device_unavailable}
use nn_hal.Driver.Capabilities.{
  PerformanceInfo, OperandPerformance, Capabilities, performance, sort, get_capabilities_1_3,
}

-- V1_2::Capabilities has no performance of if and while.
pub record Capabilities12 : Type 0 where
  pub relaxed_scalar : PerformanceInfo
  pub relaxed_tensor : PerformanceInfo
  pub operand_performance : List OperandPerformance

-- std::transform over the operand types of V1_2
unfoldable pub performances_1_2 : PerformanceInfo → List OperandType → List OperandPerformance
performances_1_2 perf [] = []
performances_1_2 perf (t ∷ ts) = record { type = t; info = perf } ∷ performances_1_2 perf ts

unfoldable pub non_extension_operand_performance_1_2 :
    (OperandType → ℕ) → List OperandType → PerformanceInfo → List OperandPerformance
unfolding performances_1_2
non_extension_operand_performance_1_2 number range perf = sort number (performances_1_2 perf range)

-- The table of getCapabilities_1_2.
unfoldable pub device_performance_1_2 : IntelDeviceType → Option (PerformanceInfo × PerformanceInfo)
device_performance_1_2 IntelDeviceType.cpu = some (performance 90 90, performance 90 90)
device_performance_1_2 IntelDeviceType.gpu = some (performance 95 85, performance 95 95)
device_performance_1_2 IntelDeviceType.gna = some (performance 80 80, performance 80 80)
device_performance_1_2 IntelDeviceType.vpu = some (performance 110 110, performance 110 110)
device_performance_1_2 IntelDeviceType.other = none

unfoldable pub get_capabilities_1_2 :
    (OperandType → ℕ) → List OperandType → IntelDeviceType → ErrorStatus × Option Capabilities12
unfolding device_performance_1_2 non_extension_operand_performance_1_2
get_capabilities_1_2 number range device = elim (device_performance_1_2 device) [
  | none ↦ (device_unavailable, none)
  | some (perf, operands) ↦ (
    ErrorStatus.none,
    some (record {
      relaxed_scalar = perf;
      relaxed_tensor = perf;
      operand_performance = non_extension_operand_performance_1_2 number range operands;
    }),
  )
]

-- getCapabilities and getCapabilities_1_1: what the conversion of the interface makes of the answer
-- for 1.3
unfoldable pub get_capabilities_1_0 :
    {C : Type 0}
    → (ErrorStatus → ErrorStatus)
    → (Option Capabilities → C)
    → (OperandType → ℕ)
    → List OperandType
    → IntelDeviceType
    → ErrorStatus × C
get_capabilities_1_0 convert_status convert number range device =
    let (status, capabilities) = get_capabilities_1_3 number range device in
    (convert_status status, convert capabilities)

-- getNumberOfCacheFilesNeeded: for the model and for data
pub get_number_of_cache_files_needed : ErrorStatus × ℕ × ℕ
get_number_of_cache_files_needed = (ErrorStatus.none, 0, 0)

pub data DeviceStatus : Type 0 where
  available busy offline unknown : DeviceStatus

pub get_status : DeviceStatus
get_status = available

pub get_version_string : ErrorStatus × String
get_version_string = (ErrorStatus.none, "intel_nn_hal")

-- V1_2::DeviceType
pub data DeviceType : Type 0 where
  other cpu gpu accelerator : DeviceType

pub get_type : ErrorStatus × DeviceType
get_type = (ErrorStatus.none, DeviceType.cpu)

-- no extensions
pub get_supported_extensions : ErrorStatus × List String
get_supported_extensions = (ErrorStatus.none, [])
