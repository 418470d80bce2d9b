-- ===== src/Server/Races.antt =====
-- What the receiver of src/socket/server/TcpServerSocket.cpp is told of two events that come before
-- the pool has run the task of the first: a task names the store, and not the event.
use eventplus.Prelude.{
  ℕ, ◌≡◌, refl, true, false, List, [], ◌∷◌, ◌++◌, none, some, ok, err, dangling, ◌>>=◌, Returns,
  Returns->>=, append_assoc,
}
use eventplus.Common.Details.{
  Ptr, Poller, EventStore, HandlerClass, io_worker, incoming_data, closed_connection,
}
use eventplus.Common.Os.{Os}
use eventplus.Common.Handler.{BaseSocketHandler, HandlerLaws}
use eventplus.ThreadPool.{IoTask, enqueue_task}
use eventplus.NetworkEvent.Polling.{process_event, is_hangup, dispatch, handle_event}
use eventplus.IoWorker.{queue_io_event}
use eventplus.Server.State.{Server, Delivery, lookup, write, deref}
use eventplus.Server.Connections.{
  Uninit, queue_event, deliver, handle_call_back_event, disown_client, unwatch, remove_socket,
}
use eventplus.Server.System.{mark_incoming, own_handler, call_dispatcher, callbacks}
use eventplus.Server.Total.{IsWorking, write-IsWorking, deref-live, Unwatched, unwatch-Unwatched}
use eventplus.Server.Registry.{update_same, delete_self}

abbrev pub task_for : {W : Type 0} → Server W → Ptr → IoTask
task_for s p = record {
  task_execution_func = some s.io_worker.task_function;
  event_store_pointer = some p;
}

abbrev pub tasks_of : {W : Type 0} → Server W → List IoTask
tasks_of s = s.io_worker.thread_pool.tasks

pub handle_call_back_event-dead :
    {W : Type 0} (p : Ptr) (s : Server W)
    → s.cell p ≡ none
    → handle_call_back_event (some p) s ≡ err dangling
unfolding handle_call_back_event deref
handle_call_back_event-dead p s e = rw (e, handle_call_back_event, deref)

-- In a working server, with handlers that keep their laws: when the connection of a client that the
-- map knows is gone, `removeSocket` queues a task for its store and then deletes
-- the store. A thread of the pool that gets to the task after `removeSocket` has returned reads the
-- deleted store: the receiver is not told, and the behaviour is undefined.
pub remove_socket-dangles :
    {W : Type 0} (os : Os W) (table : HandlerClass → BaseSocketHandler W)
    → ((c : HandlerClass) → HandlerLaws (table c))
    → (p : Ptr) (st : EventStore) (s : Server W) → IsWorking s
    → s.cell p ≡ some st
    → lookup st.socket_id s.client_event_stores ≡ some p
    → Returns
        (λ s'.
          (tasks_of s' ≡ tasks_of s ++ task_for s p ∷ [])
          × (handle_call_back_event (some p) s' ≡ err dangling))
        (remove_socket os table (some p) s)
unfolding remove_socket disown_client queue_event queue_io_event enqueue_task
remove_socket-dangles os table laws p st s v live known =
    let closing = record st { event_type = closed_connection } in
    let s0 = write p closing s in
    rw (deref-live os table laws p st s live) (
      Returns->>= (Unwatched os table laws s0) _ (unwatch os table p closing s0) _
        (unwatch-Unwatched os table laws p closing s0 closing.socket_event_handler refl
          (write-IsWorking os table laws p st closing s v live (refl, refl, refl))
          (update_same s.cell p _))
        λ s1 (v1, m, q).
          (rw q refl, handle_call_back_event-dead p _ (rw (m, known) (delete_self s1.cell p))))

-- The store that `p` points to.
mark_incoming-live :
    {W : Type 0} (p : Ptr) (st : EventStore) (s : Server W)
    → s.cell p ≡ some st
    → mark_incoming p s ≡ ok (write p (record st { event_type = incoming_data }) s)
unfolding mark_incoming deref
mark_incoming-live p st s live = rw (live, mark_incoming, deref) refl

handle_call_back_event-incoming :
    {W : Type 0} (p : Ptr) (st : EventStore) (s : Server W)
    → s.cell p ≡ some st
    → st.event_type ≡ incoming_data
    → s.event_receiver ≡ true
    → handle_call_back_event (some p) s
      ≡ ok (record s {
        deliveries = s.deliveries ++ record { kind = incoming_data; store = p } ∷ [];
      })
unfolding handle_call_back_event deref deliver
handle_call_back_event-incoming p st s live kind receiver =
    rw (live, handle_call_back_event, deref, kind, deliver, receiver) refl

-- An event without a hang-up comes to a polling thread that hands events to the pool, for a live
-- store, while a receiver is set. If a task for the store, such as that of its new connection, has
-- not run yet, then that task and the one now queued both tell the receiver of data:
-- `newConnectionEvent` is not called.
pub process_event-conflates :
    {W : Type 0} (os : Os W) (table : HandlerClass → BaseSocketHandler W) (uninit : Uninit)
    (who : Poller) (events : ℕ) (p : Ptr) (st : EventStore) (s : Server W)
    → s.cell p ≡ some st
    → is_hangup events ≡ false
    → (own_handler who s).continue_polling ≡ true
    → (own_handler who s).event_dispatcher ≡ some io_worker
    → s.event_receiver ≡ true
    → let told : Delivery = record { kind = incoming_data; store = p } in
      Returns
        (λ s'.
          (tasks_of s' ≡ tasks_of s ++ task_for s p ∷ [])
          × Returns
              (λ s''. s''.deliveries ≡ s.deliveries ++ told ∷ told ∷ [])
              (handle_call_back_event (some p) s' >>= handle_call_back_event (some p)))
        (process_event (callbacks os table uninit who) (record { events = events; ptr = some p }) s)
unfolding process_event handle_event dispatch call_dispatcher queue_event queue_io_event
    enqueue_task
process_event-conflates os table uninit who events p st s live stays on to_pool receiver =
    let new = record st { event_type = incoming_data } in
    let told : Delivery = record { kind = incoming_data; store = p } in
    let s1 = queue_event p (write p new s) in
    let s2 = record s1 { deliveries = s.deliveries ++ told ∷ [] } in
    let here : s1.cell p ≡ some new = update_same s.cell p _ in
    rw (stays, on, to_pool, mark_incoming-live p st s live)
      (
        refl,
        rw
            (
              handle_call_back_event-incoming p new s1 here refl receiver,
              handle_call_back_event-incoming p new s2 here refl receiver,
            )
            (append_assoc s.deliveries (told ∷ []) (told ∷ [])),
      )
