-- ===== src/PreparedModel/Teardown.antt =====
-- BasePreparedModel.cpp and the classes below it: the calls that a destructor makes.
use text.Mathlib.Text.{◌==◌ as str_eq}
use nn_hal.Prelude.{
  ◌≡◌, refl, arith, List, [], ◌∷◌, ◌++◌, if◌then◌else◌, ap, sym, ◌∙◌, append_assoc,
}
use nn_hal.Utils.Pools.{
  Pointer, null, map_failed, address, Os, OsCall, munmap, History, RunTimePoolInfo, mmap_fd,
  unmap_mem, unmap_buffer,
}
use nn_hal.ModelInfo.Requests.{unmap_copies, unmap_runtime_mem_pools}
use nn_hal.PreparedModel.{PreparedModel, deinitialize, destroy}

-- The call that unmaps one pool, where there is one.
unfoldable pub unmap_call : RunTimePoolInfo → Pointer → List OsCall
unmap_call pool null = []
unmap_call pool p =
    if str_eq pool.hidl_memory.name mmap_fd then munmap p pool.hidl_memory.size ∷ [] else []

-- The calls for all pools, the last first.
unfoldable pub unmap_calls : List RunTimePoolInfo → List OsCall
unfolding unmap_call
unmap_calls [] = []
unmap_calls (r ∷ rs) = unmap_calls rs ++ unmap_call r r.buffer

unmap_buffer_lem :
    (os : Os) (pool : RunTimePoolInfo) (p : Pointer) (h : History)
    → (unmap_buffer os pool p h).2 ≡ unmap_call pool p ++ h
unfolding unmap_buffer unmap_call
unmap_buffer_lem os pool null h = refl
unmap_buffer_lem os pool map_failed h = ground arith
unmap_buffer_lem os pool (address a) h = ground arith

unmap_copies_lem :
    (os : Os) (rs : List RunTimePoolInfo) (h : History) → unmap_copies os rs h ≡ unmap_calls rs ++ h
unfolding unmap_copies unmap_calls unmap_mem
unmap_copies_lem os [] h = refl
unmap_copies_lem os (r ∷ rs) h =
    let one = unmap_buffer_lem os r r.buffer h in
    let ih = unmap_copies_lem os rs (unmap_buffer os r r.buffer h).2 in
    (ih
      ∙ ap (λ t. unmap_calls rs ++ t) one
      ∙ sym (append_assoc (unmap_calls rs) (unmap_call r r.buffer) h))

-- The destructors of a prepared model ask the system to unmap each pool of the last request twice.
pub destroy_lem :
    (os : Os) (s : PreparedModel) (h : History)
    → destroy os s h
      ≡ unmap_calls s.model_info.request_pool_infos
        ++ (unmap_calls s.model_info.request_pool_infos ++ h)
unfolding destroy deinitialize unmap_runtime_mem_pools
destroy_lem os s h =
    let rs = s.model_info.request_pool_infos in
    unmap_copies_lem os rs (unmap_copies os rs h)
    ∙ ap (λ t. unmap_calls rs ++ t) (unmap_copies_lem os rs h)
