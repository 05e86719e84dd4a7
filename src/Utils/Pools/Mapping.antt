-- ===== src/Utils/Pools/Mapping.antt =====
-- utils.cpp: what RunTimePoolInfo::set says of the mapping it makes.
use text.Mathlib.Text.{◌==◌ as str_eq}
use nn_hal.Prelude.{
  ℕ, ◌≡◌, ◌≢◌, inl, inr, refl, arith, Bool, true, ◌∷◌, Option, none, some, Result, ok, ◌>>=◌,
  >>=-eq-ok, Bool-cases, at,
}
use nn_hal.Utils.Sizes.{get_size_from_ints}
use nn_hal.Utils.Pools.{
  Pointer, null, map_failed, address, Os, History, RunTimePoolInfo, HidlMemory, is_address, set,
  set_ashmem, set_mmap, set_hardware_buffer, map_file, ashmem, mmap_fd, mmap,
}

-- What the system promises of its calls: mapMemory and AHardwareBuffer_lock never give MAP_FAILED, the
-- latter gives no null pointer where it succeeds, and mmap gives none at all.
module _ (os : Os)
    (mapped-pointer : (h : History) (m : HidlMemory) → os.mapped h m ≢ some map_failed)
    (mmapped-pointer : (h : History) (size prot fd offset : ℕ)
      → os.mmapped h size prot fd offset ≢ null)
    (locked-pointer : (h : History) (m : HidlMemory) (p : Pointer)
      → os.locked h m ≡ some p
      → is_address p ≡ true) where
  ashmem_lem :
      (pool : RunTimePoolInfo) (m : HidlMemory) (o : Option Pointer)
      → pool.buffer ≡ null
      → o ≢ some map_failed
      → is_address (set_ashmem os pool m o).0.buffer ≡ (set_ashmem os pool m o).1
  unfolding set_ashmem
  ashmem_lem pool m none hb h = ground arith
  ashmem_lem pool m (some null) hb h = refl
  ashmem_lem pool m (some map_failed) hb h = ground arith
  ashmem_lem pool m (some (address a)) hb h = refl

  mmap_lem :
      (pool : RunTimePoolInfo) (p : Pointer)
      → p ≢ null
      → is_address (set_mmap os pool p).0.buffer ≡ (set_mmap os pool p).1
  unfolding set_mmap
  mmap_lem pool null h = ground arith
  mmap_lem pool map_failed h = refl
  mmap_lem pool (address a) h = refl

  hardware_buffer_lem :
      (pool : RunTimePoolInfo) (o : Option Pointer)
      → pool.buffer ≡ null
      → ((p : Pointer) → o ≡ some p → is_address p ≡ true)
      → is_address (set_hardware_buffer os pool o).0.buffer ≡ (set_hardware_buffer os pool o).1
  unfolding set_hardware_buffer
  hardware_buffer_lem pool none hb h = ground arith
  hardware_buffer_lem pool (some p) hb h = h p refl

  map_file_lem :
      (old : RunTimePoolInfo) (m : HidlMemory) (h h' : History) (pool : RunTimePoolInfo)
      (done : Bool)
      → map_file os old m h ≡ ok (pool, done, h')
      → is_address pool.buffer ≡ done
  unfolding map_file
  map_file_lem old m h h' pool done e =
      let (fd, hf, e1) =
        >>=-eq-ok (at m.handle 0)
          (λ fd. at m.handle 1 >>= λ prot. at m.handle 2 >>= λ lower. at m.handle 3 >>= λ higher.
            mapped_at old m h (os.mmapped h m.size prot fd (get_size_from_ints lower higher)))
          e in
      let (prot, hp, e2) =
        >>=-eq-ok (at m.handle 1)
          (λ prot. at m.handle 2 >>= λ lower. at m.handle 3 >>= λ higher.
            mapped_at old m h (os.mmapped h m.size prot fd (get_size_from_ints lower higher)))
          e1 in
      let (lower, hl, e3) =
        >>=-eq-ok (at m.handle 2)
          (λ lower. at m.handle 3 >>= λ higher.
            mapped_at old m h (os.mmapped h m.size prot fd (get_size_from_ints lower higher)))
          e2 in
      let (higher, hh, e4) =
        >>=-eq-ok (at m.handle 3)
          (λ higher.
            mapped_at old m h (os.mmapped h m.size prot fd (get_size_from_ints lower higher)))
          e3 in
      let q = os.mmapped h m.size prot fd (get_size_from_ints lower higher) in
      let mapped =
        mmap_lem old q (mmapped-pointer h m.size prot fd (get_size_from_ints lower higher)) in
      ground (arith, mapped, e4)
    where
      mapped_at :
          RunTimePoolInfo
          → HidlMemory
          → History
          → Pointer
          → Result (RunTimePoolInfo × Bool × History)
      mapped_at pool m h p = ok ((set_mmap os pool p).0, (set_mmap os pool p).1, mmap p m.size ∷ h)

  -- Where set returns, it returns true exactly where the buffer is an address.
  pub set-is_address :
      (old : RunTimePoolInfo) (m : HidlMemory) (h h' : History) (pool : RunTimePoolInfo)
      (done : Bool)
      → set os old m h ≡ ok (pool, done, h')
      → is_address pool.buffer ≡ done
  unfolding set set_ashmem set_mmap set_hardware_buffer
  set-is_address old m h h' pool done e =
      let fresh : RunTimePoolInfo = record old { hidl_memory = m; buffer = null } in
      let ash = ashmem_lem fresh m (os.mapped h m) refl (mapped-pointer h m) in
      let hard = hardware_buffer_lem fresh (os.locked h m) refl (locked-pointer h m) in
      let file = map_file_lem fresh m h h' pool done in
      elim (Bool-cases (str_eq m.name ashmem)) [
        | inl e1 ↦ ground (arith, ash)
        | inr e1 ↦ elim (Bool-cases (str_eq m.name mmap_fd)) [
          | inl e2 ↦ ground (arith, file)
          | inr e2 ↦ ground (arith, hard)
        ]
      ]
