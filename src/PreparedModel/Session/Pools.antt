-- ===== src/PreparedModel/Session/Pools.antt =====
-- utils.cpp and ModelManager.cpp: how the mapping and the update of the pools of a request end.
use text.Mathlib.Text.{◌==◌ as str_eq}
use nn_hal.Prelude.{
  ℕ, zero, suc, Bool, true, false, ◌&&◌, List, [], ◌∷◌, Option, none, some, ◌≡◌, ◌≢◌, refl, arith,
  ap, sym, length, All, Returns, ok-Returns, then-Returns, elim-Returns, if-Returns, at, at-Returns,
  if◌then◌else◌, ◌≤◌, ◌∙◌,
}
use mathlib.Core.Path.{subst}
use nn_hal.Types.{ErrorStatus, general_failure}
use nn_hal.Utils.Pools.{
  Pointer, map_failed, null, Os, History, HidlMemory, RunTimePoolInfo, ashmem, mmap_fd, is_address,
  set, map_file, set_ashmem, set_mmap, set_hardware_buffer, update, hardware_buffer_blob,
}
use nn_hal.PreparedModel.Session.Frame.{fixed}
use nn_hal.Utils.Pools.Mapping.{set-is_address}
use nn_hal.ModelInfo.Model.{NnapiModelInfo}
use nn_hal.ModelInfo.Runtime.{map_pools, resize, fresh_pool}
use nn_hal.ModelInfo.Requests.{set_run_time_pool_infos, update_request_pool_infos}

-- The handle of a file that is to be mapped has the descriptor, the protection and the offset.
abbrev pub IsMappable : HidlMemory → Type 0
IsMappable m = str_eq m.name mmap_fd ≡ true → 4 ≤ length m.handle

module _ (os : Os) where
  -- `update` of the pool returns, whatever was called before.
  abbrev pub IsUpdatable : RunTimePoolInfo → Type 0
  IsUpdatable pool = (h : History) → Returns (λ r. Unit {0}) (update os pool h)

  abbrev pub IsReady : RunTimePoolInfo → Type 0
  IsReady pool = (is_address pool.buffer ≡ true) × IsUpdatable pool

  update-IsUpdatable :
      (pool : RunTimePoolInfo)
      → IsMappable pool.hidl_memory
      → (str_eq pool.hidl_memory.name ashmem ≡ true → (m : HidlMemory) × (pool.memory ≡ some m))
      → IsUpdatable pool
  unfolding update
  update-IsUpdatable pool mappable held h =
      if-Returns (str_eq pool.hidl_memory.name ashmem) _ _
        (λ e. let (m, em) = held e in rw em (ok-Returns _ tt))
        (λ _.
          if-Returns (str_eq pool.hidl_memory.name mmap_fd) _ _
            (λ e.
              let long = mappable e in
              then-Returns (at pool.hidl_memory.handle 1)
                (at-Returns pool.hidl_memory.handle 1 (omega (arith, long)))
                λ prot _. ok-Returns _ tt)
            (λ _. ok-Returns _ tt))

  -- What `set` leaves in the pool, where it succeeds.
  abbrev pub IsMapped : HidlMemory → RunTimePoolInfo × Bool → Type 0
  IsMapped m (pool, done) =
      done ≡ true
      → (pool.hidl_memory ≡ m)
        × (str_eq m.name ashmem ≡ true → (held : HidlMemory) × (pool.memory ≡ some held))

  set_ashmem-IsMapped :
      (pool : RunTimePoolInfo) (m : HidlMemory) (o : Option Pointer)
      → pool.hidl_memory ≡ m
      → IsMapped m (set_ashmem os pool m o)
  unfolding set_ashmem
  set_ashmem-IsMapped pool m none e done = absurd cc
  set_ashmem-IsMapped pool m (some null) e done = absurd cc
  set_ashmem-IsMapped pool m (some p) e done = (e, λ _. (m, refl))

  set_mmap-IsMapped :
      (pool : RunTimePoolInfo) (m : HidlMemory) (p : Pointer)
      → str_eq m.name ashmem ≡ false
      → pool.hidl_memory ≡ m
      → IsMapped m (set_mmap os pool p)
  unfolding set_mmap
  set_mmap-IsMapped pool m map_failed not_ashmem e done = absurd cc
  set_mmap-IsMapped pool m p not_ashmem e done = (e, λ wrong. absurd cc)

  set_hardware_buffer-IsMapped :
      (pool : RunTimePoolInfo) (m : HidlMemory) (o : Option Pointer)
      → str_eq m.name ashmem ≡ false
      → pool.hidl_memory ≡ m
      → IsMapped m (set_hardware_buffer os pool o)
  unfolding set_hardware_buffer
  set_hardware_buffer-IsMapped pool m none not_ashmem e done = absurd cc
  set_hardware_buffer-IsMapped pool m (some p) not_ashmem e done = (e, λ wrong. absurd cc)

  set-Returns :
      (old : RunTimePoolInfo) (m : HidlMemory) (h : History)
      → IsMappable m
      → Returns (λ x. IsMapped m (x.0, x.1)) (set os old m h)
  unfolding set map_file
  set-Returns old m h mappable =
      let fresh : RunTimePoolInfo = record old { hidl_memory = m; buffer = null } in
      if-Returns (str_eq m.name ashmem) _ _
        (λ e. ok-Returns _ (set_ashmem-IsMapped fresh m (os.mapped h m) refl))
        (λ not_ashmem.
          if-Returns (str_eq m.name mmap_fd) _ _
            (λ e.
              let long = mappable e in
              then-Returns (at m.handle 0) (at-Returns m.handle 0 (omega (arith, long))) λ fd _.
                then-Returns (at m.handle 1) (at-Returns m.handle 1 (omega (arith, long))) λ prot _.
                  then-Returns (at m.handle 2) (at-Returns m.handle 2 (omega (arith, long)))
                    λ lower _.
                      then-Returns (at m.handle 3) (at-Returns m.handle 3 (omega (arith, long)))
                        λ higher _. ok-Returns _ (set_mmap-IsMapped fresh m _ not_ashmem refl))
            (λ _.
              if-Returns (os.android && str_eq m.name hardware_buffer_blob) _ _
                (λ _.
                  ok-Returns _
                    (set_hardware_buffer-IsMapped fresh m (os.locked h m) not_ashmem refl))
                (λ _. ok-Returns _ (λ wrong. absurd cc))))

length-resize {ℓ} : {A : Type ℓ} (a : A) (n : ℕ) (xs : List A) → length (resize a n xs) ≡ n
length-resize a zero xs = refl
length-resize a (suc n) [] = ap suc (length-resize a n [])
length-resize a (suc n) (x ∷ xs) = ap suc (length-resize a n xs)

-- What the system promises of its pointers, as in the theorem on `set`.
module _ (os : Os)
    (mapped-pointer : (h : History) (m : HidlMemory) → os.mapped h m ≢ some map_failed)
    (mmapped-pointer : (h : History) (size prot fd offset : ℕ)
      → os.mmapped h size prot fd offset ≢ null)
    (locked-pointer : (h : History) (m : HidlMemory) (p : Pointer)
      → os.locked h m ≡ some p
      → is_address p ≡ true) where
  set-IsReady :
      (old : RunTimePoolInfo) (m : HidlMemory) (h : History)
      → IsMappable m
      → Returns (λ x. x.1 ≡ true → IsReady os x.0) (set os old m h)
  set-IsReady old m h mappable =
      let answer = set-Returns os old m h mappable in
      let (pool, done, l) = answer.result in
      record {
        result = (pool, done, l);
        returns = answer.returns;
        holds = λ is_done.
            let (same, held) = answer.holds is_done in
            let address =
              set-is_address os mapped-pointer mmapped-pointer locked-pointer old m h l pool done
                answer.returns in
            (
              address ∙ is_done,
              update-IsUpdatable os pool (subst IsMappable (sym same) mappable) (rw same held),
            );
      }

  map_pools-AreReady :
      (olds : List RunTimePoolInfo) (ms : List HidlMemory) (h : History)
      → All IsMappable ms
      → length olds ≡ length ms
      → Returns
          (λ x. x.1 ≡ true → All (IsReady os) x.0 × (length x.0 ≡ length ms))
          (map_pools os olds ms h)
  unfolding map_pools
  map_pools-AreReady [] [] h mappable same = ok-Returns _ (λ _. (tt, refl))
  map_pools-AreReady [] (m ∷ ms) h mappable same = absurd (omega arith)
  map_pools-AreReady (old ∷ olds) [] h mappable same = absurd (omega arith)
  map_pools-AreReady (old ∷ olds) (m ∷ ms) h (one, more) same =
      then-Returns (set os old m h) (set-IsReady old m h one) λ (pool, done, l) ready.
        elim-Returns done _ _
          (λ is_done.
            then-Returns (map_pools os olds ms l)
              (map_pools-AreReady olds ms l more (omega (arith, same)))
              λ (pools, all_done, l') rest.
                ok-Returns _ (λ e. let (all, len) = rest e in ((ready is_done, all), ap suc len)))
          (λ _. ok-Returns _ (λ wrong. absurd cc))

  is_done :
      (done : Bool)
      → (if done then ErrorStatus.none else general_failure) ≡ ErrorStatus.none
      → done ≡ true
  is_done true e = refl
  is_done false e = absurd cc

  -- The pools of a request are mapped; where all are, they are ready, and as many as the request's.
  pub set_run_time_pool_infos-Returns :
      (s : NnapiModelInfo) (pools : List HidlMemory) (h : History)
      → All IsMappable pools
      → Returns
          (λ x.
            (fixed x.0 ≡ fixed s)
            × (x.1 ≡ ErrorStatus.none
                → All (IsReady os) x.0.request_pool_infos
                  × (length x.0.request_pool_infos ≡ length pools)))
          (set_run_time_pool_infos os s pools h)
  unfolding set_run_time_pool_infos
  set_run_time_pool_infos-Returns s pools h mappable =
      let olds = resize fresh_pool (length pools) s.request_pool_infos in
      then-Returns (map_pools os olds pools h)
        (map_pools-AreReady olds pools h mappable
          (length-resize fresh_pool (length pools) s.request_pool_infos))
        λ (infos, done, l) ready. ok-Returns _ (refl, λ e. ready (is_done done e))

pub update_request_pool_infos-Returns :
    (os : Os) (pools : List RunTimePoolInfo) (h : History)
    → All (IsReady os) pools
    → Returns (λ r. r.0 ≡ true) (update_request_pool_infos os pools h)
unfolding update_request_pool_infos
update_request_pool_infos-Returns os [] h ready = ok-Returns _ refl
update_request_pool_infos-Returns os (r ∷ rs) h (one, more) =
    then-Returns (update os r h) (one.1 h)
      λ (done, l) _. update_request_pool_infos-Returns os rs l more
