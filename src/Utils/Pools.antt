-- ===== src/Utils/Pools.antt =====
-- utils.cpp: RunTimePoolInfo, a memory pool and the mapping behind it. The system's calls are the
-- parameter `Os`; each is given the calls made so far, since two equal calls may differ.
pub mod Mapping
use text.Mathlib.Text.{◌==◌ as str_eq}
use nn_hal.Prelude.{
  ℕ, ◌/◌, ◌%◌, ◌^◌, Bool, true, false, ◌&&◌, Option, none, some, List, [], ◌∷◌, String, ◌==◌, ◌>>=◌,
  ok, fault, undefined, Result, at, or_undefined, if◌then◌else◌,
}
use nn_hal.Utils.Sizes.{get_size_from_ints}

-- A `uint8_t*`: null, MAP_FAILED, or an address.
pub data Pointer : Type 0 where
  null map_failed : Pointer
  address : ℕ → Pointer

-- hidl_memory: its name, its size and the words of its handle
pub record HidlMemory : Type 0 where
  pub name : String
  pub size : ℕ
  pub handle : List ℕ

pub data OsCall : Type 0 where
  map_memory : HidlMemory → OsCall
  mmap : Pointer → ℕ → OsCall
  munmap : Pointer → ℕ → OsCall
  msync : Pointer → ℕ → OsCall
  lock_buffer commit : HidlMemory → OsCall

abbrev pub History : Type 0
History = List OsCall

pub record Os : Type 0 where
  -- defined(__ANDROID__)
  pub android : Bool
  -- mapMemory; `none` is a null IMemory, else the value of getPointer()
  pub mapped : History → HidlMemory → Option Pointer
  -- mmap of size, prot, fd and offset
  pub mmapped : History → ℕ → ℕ → ℕ → ℕ → Pointer
  -- AHardwareBuffer_createFromHandle and AHardwareBuffer_lock; `none` if either fails
  pub locked : History → HidlMemory → Option Pointer
  -- munmap and msync return 0
  pub munmap_zero : History → Pointer → ℕ → Bool
  pub msync_zero : History → Pointer → ℕ → Bool

-- `memory` holds the memory that `mapMemory` was given, where an IMemory is held.
pub record RunTimePoolInfo : Type 0 where
  pub memory : Option HidlMemory
  pub hidl_memory : HidlMemory
  pub buffer : Pointer

abbrev pub ashmem : String
ashmem = "ashmem"

abbrev pub mmap_fd : String
mmap_fd = "mmap_fd"

abbrev pub hardware_buffer_blob : String
hardware_buffer_blob = "hardware_buffer_blob"

abbrev pub is_address : Pointer → Bool
is_address (address a) = true
is_address p = false

module _ (os : Os) where
  -- memory = mapMemory(hidlMemory), and the tests of `memory` and of its pointer
  unfoldable pub set_ashmem : RunTimePoolInfo → HidlMemory → Option Pointer → RunTimePoolInfo × Bool
  set_ashmem pool m none = (record pool { memory = none }, false)
  set_ashmem pool m (some null) = (record pool { memory = some m; buffer = null }, false)
  set_ashmem pool m (some p) = (record pool { memory = some m; buffer = p }, true)

  -- buffer == MAP_FAILED
  unfoldable pub set_mmap : RunTimePoolInfo → Pointer → RunTimePoolInfo × Bool
  set_mmap pool map_failed = (record pool { buffer = map_failed }, false)
  set_mmap pool p = (record pool { buffer = p }, true)

  unfoldable pub set_hardware_buffer : RunTimePoolInfo → Option Pointer → RunTimePoolInfo × Bool
  set_hardware_buffer pool none = (pool, false)
  set_hardware_buffer pool (some p) = (record pool { buffer = p }, true)

  -- the branch of `mmap_fd`: the handle's words are fd, prot and the two halves of the offset
  unfoldable pub map_file :
      RunTimePoolInfo → HidlMemory → History → Result (RunTimePoolInfo × Bool × History)
  unfolding set_mmap
  map_file pool m h = do
    fd ← at m.handle 0
    prot ← at m.handle 1
    lower ← at m.handle 2
    higher ← at m.handle 3
    let p = os.mmapped h m.size prot fd (get_size_from_ints lower higher)
    let (pool', done) = set_mmap pool p
    ok (pool', done, mmap p m.size ∷ h)

  unfoldable pub set :
      RunTimePoolInfo → HidlMemory → History → Result (RunTimePoolInfo × Bool × History)
  unfolding set_ashmem map_file set_hardware_buffer
  set old m h =
      let pool = record old { hidl_memory = m; buffer = null } in
      if str_eq m.name ashmem
      then (let (pool', done) = set_ashmem pool m (os.mapped h m) in
          ok (pool', done, map_memory m ∷ h))
      else if str_eq m.name mmap_fd
      then map_file pool m h
      else if os.android && str_eq m.name hardware_buffer_blob
      then (let (pool', done) = set_hardware_buffer pool (os.locked h m) in
          ok (pool', done, lock_buffer m ∷ h))
      else ok (pool, false, h)

  -- `if (buffer)` takes MAP_FAILED too
  unfoldable pub unmap_buffer :
      RunTimePoolInfo → Pointer → History → RunTimePoolInfo × Bool × History
  unmap_buffer pool null h = (pool, true, h)
  unmap_buffer pool p h =
      if str_eq pool.hidl_memory.name mmap_fd
      then (if os.munmap_zero h p pool.hidl_memory.size
          then (record pool { buffer = null }, true, munmap p pool.hidl_memory.size ∷ h)
          else (pool, false, munmap p pool.hidl_memory.size ∷ h))
      else (pool, true, h)

  unfoldable pub unmap_mem : RunTimePoolInfo → History → RunTimePoolInfo × Bool × History
  unfolding unmap_buffer
  unmap_mem pool h = unmap_buffer pool pool.buffer h

  -- PROT_WRITE is 2; `memory->commit()` through a null `memory` is undefined
  unfoldable pub update : RunTimePoolInfo → History → Result (Bool × History)
  update pool h =
      if str_eq pool.hidl_memory.name ashmem
      then (do m ← or_undefined pool.memory; ok (true, commit m ∷ h))
      else if str_eq pool.hidl_memory.name mmap_fd
      then (do
        prot ← at pool.hidl_memory.handle 1
        ok (
            if prot / 2 % 2 == 1
            then (
              os.msync_zero h pool.buffer pool.hidl_memory.size,
              msync pool.buffer pool.hidl_memory.size ∷ h,
            )
            else (true, h)))
      else ok (true, h)
