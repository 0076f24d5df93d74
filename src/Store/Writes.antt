-- ===== src/Store/Writes.antt =====
-- The invariant of `MemoryStore` (internal/store) over sequences of writes.
use k3_control_plane.Base.{String, List, [], ◌∷◌}
use k3_control_plane.Api.{Time, Node, Service, ServiceStatus, Job, JobStatus, Assignment}
use k3_control_plane.Api.Phases.{Phase}
use k3_control_plane.Store
use k3_control_plane.Store.{MemoryStore, new_memory_store, delete_owned, apply_status, is_owned_by}
use k3_control_plane.Store.Keyed.{
  IsKeyed, upsert_node-IsKeyed, touch_node-IsKeyed, upsert_service-IsKeyed,
  update_service_status-IsKeyed, delete_service-IsKeyed, upsert_job-IsKeyed,
  update_job_status-IsKeyed, delete_job-IsKeyed, save_assignment-IsKeyed, delete_assignment-IsKeyed,
  update_assignment_status-IsKeyed,
}

-- The methods of the store that write.
pub data Write : Type 0 where
  upsert_node : Node → Write
  touch_node : String → Time → Write
  upsert_service : Service → Write
  update_service_status : String → ServiceStatus → Write
  delete_service : String → Write
  upsert_job : Job → Write
  update_job_status : String → JobStatus → Write
  delete_job : String → Write
  save_assignment : Assignment → Write
  delete_assignment : String → Write
  update_assignment_status : String → Phase → String → Time → Write

unfoldable pub write : MemoryStore → Write → MemoryStore
write s (upsert_node node) = Store.upsert_node s node
write s (touch_node id now) = (Store.touch_node s id now).0
write s (upsert_service service) = Store.upsert_service s service
write s (update_service_status name status) = (Store.update_service_status s name status).0
write s (delete_service name) = (Store.delete_service s name).0
write s (upsert_job job) = Store.upsert_job s job
write s (update_job_status name status) = (Store.update_job_status s name status).0
write s (delete_job name) = (Store.delete_job s name).0
write s (save_assignment assignment) = Store.save_assignment s assignment
write s (delete_assignment id) = (Store.delete_assignment s id).0
write s (update_assignment_status id phase message now) =
    (Store.update_assignment_status s id phase message now).0

unfoldable pub write_all : MemoryStore → List Write → MemoryStore
unfolding write
write_all s [] = s
write_all s (w ∷ ws) = write_all (write s w) ws

write-IsKeyed : (s : MemoryStore) (w : Write) → IsKeyed s → IsKeyed (write s w)
unfolding write
write-IsKeyed s (upsert_node n) h = upsert_node-IsKeyed s n h
write-IsKeyed s (touch_node id now) h = touch_node-IsKeyed s id now h
write-IsKeyed s (upsert_service v) h = upsert_service-IsKeyed s v h
write-IsKeyed s (update_service_status name st) h = update_service_status-IsKeyed s name st h
write-IsKeyed s (delete_service name) h = delete_service-IsKeyed s name h
write-IsKeyed s (upsert_job j) h = upsert_job-IsKeyed s j h
write-IsKeyed s (update_job_status name st) h = update_job_status-IsKeyed s name st h
write-IsKeyed s (delete_job name) h = delete_job-IsKeyed s name h
write-IsKeyed s (save_assignment a) h = save_assignment-IsKeyed s a h
write-IsKeyed s (delete_assignment id) h = delete_assignment-IsKeyed s id h
write-IsKeyed s (update_assignment_status id phase message now) h =
    update_assignment_status-IsKeyed s id phase message now h

-- From a store in which each key stands once and is the key of its object, every sequence of
-- writes leads to such a store.
pub write_all-IsKeyed : (s : MemoryStore) (ws : List Write) → IsKeyed s → IsKeyed (write_all s ws)
unfolding write_all
write_all-IsKeyed s [] h = h
write_all-IsKeyed s (w ∷ ws) h = write_all-IsKeyed (write s w) ws (write-IsKeyed s w h)
