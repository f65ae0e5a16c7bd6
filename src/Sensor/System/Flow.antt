-- ===== src/Sensor/System/Flow.antt =====
-- The records of a state in the order in which they will leave: those that were dispatched, the packs,
-- the aggregator, and the bulks that were not collected.
use mathlib.Core.List.{Sublist, nil-sublist}
use mathlib.Core.List.Sublist
use linux_sensors.Base.{
  list_laws, ◌≡◌, List, [], ◌∷◌, ◌++◌, Option, none, some, refl, append_assoc, append-nil, ap, sym,
  subst, ◌∙◌,
}
use linux_sensors.Queue.{MessageQueue, receive_bulk}
use linux_sensors.Queue.Order.{receive_bulk-items}
use linux_sensors.Sensor.Reader.{EventsBulk, Reader, read_bulks, read_buffer_size, bulk_capacity}
use linux_sensors.Sensor.System.{
  Pack, BulkMessage, PackMessage, WorkerPhase, worker_waiting, working, packing, SenderPhase,
  sender_waiting, sending, System, Step, read_round, pointers, worker_next, sender_next,
  reader_round,
}
use linux_sensors.Sensor.System.Invariant.{
  somes, collected, records_of, joined, joined-append, records_of-append,
}
use linux_sensors.Sensor.System.Steps.{send_bulk-pointers}

module _ {ℓ} {A : Type ℓ} where
  pub somes-append : (ms ns : List (Option A)) → somes (ms ++ ns) ≡ somes ms ++ somes ns
  somes-append [] ns = refl
  somes-append (none ∷ ms) ns = somes-append ms ns
  somes-append (some x ∷ ms) ns = ap (λ t. x ∷ t) (somes-append ms ns)

  pub somes-pointers : (xs : List A) → somes (pointers xs) ≡ xs
  somes-pointers [] = refl
  somes-pointers (x ∷ xs) = ap (λ t. x ∷ t) (somes-pointers xs)

  pub somes-end : (ms : List (Option A)) → somes (ms ++ none ∷ []) ≡ somes ms
  somes-end ms = somes-append ms (none ∷ []) ∙ append-nil (somes ms)

-- What a thread took from its queue and has not dealt with.
abbrev pub held_bulks : WorkerPhase → List BulkMessage
held_bulks (working ms) = ms
held_bulks (packing ms) = ms
held_bulks _ = []

abbrev pub held_packs : SenderPhase → List PackMessage
held_packs (sending ms) = ms
held_packs _ = []

pub held_bulks-next : (ms : List BulkMessage) → held_bulks (worker_next ms) ≡ ms
unfolding worker_next
held_bulks-next [] = refl
held_bulks-next (m ∷ ms) = refl

pub held_packs-next : (ms : List PackMessage) → held_packs (sender_next ms) ≡ ms
unfolding sender_next
held_packs-next [] = refl
held_packs-next (m ∷ ms) = refl

abbrev pub packs_of : System → List Pack
packs_of s = somes (held_packs s.sender) ++ somes s.result_queue.queue.items

abbrev pub bulks_of : System → List EventsBulk
bulks_of s = somes (held_bulks s.worker) ++ somes s.stream_queue.queue.items

-- The records in the order in which they will leave.
abbrev pub Flow : List Pack → List Pack → Pack → List EventsBulk → Pack
Flow dispatched packs items bulks =
    joined dispatched ++ (joined packs ++ (items ++ records_of bulks))

abbrev pub flow : System → Pack
flow s = Flow s.dispatched (packs_of s) s.aggregator.items (bulks_of s)

abbrev pub added : {s t : System} → Step s t → List EventsBulk
added (read_round r e) = (read_bulks read_buffer_size bulk_capacity r).0
added _ = []

pub Flow-more :
    (dispatched packs : List Pack) (items : Pack) (bulks new : List EventsBulk)
    → Flow dispatched packs items (bulks ++ new)
      ≡ Flow dispatched packs items bulks ++ records_of new
Flow-more dispatched packs items bulks new = simp (records_of-append, append_assoc)

pub Flow-collect :
    (dispatched packs : List Pack) (items : Pack) (bulk : EventsBulk) (bulks : List EventsBulk)
    → Flow dispatched packs (items ++ collected bulk) bulks
      ≡ Flow dispatched packs items (bulk ∷ bulks)
Flow-collect dispatched packs items bulk bulks = simp append_assoc

pub Flow-pack :
    (dispatched packs : List Pack) (items : Pack) (bulks : List EventsBulk)
    → Flow dispatched (packs ++ items ∷ []) [] bulks ≡ Flow dispatched packs items bulks
Flow-pack dispatched packs items bulks = simp (joined-append, list_laws)

pub Flow-dispatch :
    (dispatched : List Pack) (pack : Pack) (packs : List Pack) (items : Pack)
    (bulks : List EventsBulk)
    → Flow (dispatched ++ pack ∷ []) packs items bulks ≡ Flow dispatched (pack ∷ packs) items bulks
Flow-dispatch dispatched pack packs items bulks = simp (joined-append, list_laws)

-- Packs, or bulks, that are dropped at the front.
pub Flow-drop :
    (dispatched gone packs : List Pack) (items : Pack) (lost bulks : List EventsBulk)
    → Sublist
        (Flow dispatched packs items bulks)
        (Flow dispatched (gone ++ packs) items (lost ++ bulks))
Flow-drop dispatched gone packs items lost bulks =
    Sublist.append (Sublist.refl (joined dispatched)) (
      Sublist.append
        (subst (Sublist (joined packs)) (sym (joined-append gone packs))
          (Sublist.append (nil-sublist (joined gone)) (Sublist.refl (joined packs))))
        (Sublist.append (Sublist.refl items) (
          subst (Sublist (records_of bulks)) (sym (records_of-append lost bulks))
            (Sublist.append (nil-sublist (records_of lost)) (Sublist.refl (records_of bulks))))))

module _ (s : System) where
  -- A step that loses nothing.
  pub none_lost : (new : Pack) (t : Pack) → t ≡ flow s ++ new → Sublist t (flow s ++ new)
  none_lost new t e = subst (λ x. Sublist x (flow s ++ new)) (sym e) (Sublist.refl (flow s ++ new))

  pub none_new : (t : Pack) → t ≡ flow s → Sublist t (flow s ++ [])
  none_new t e = none_lost [] t (e ∙ sym (append-nil (flow s)))

  pub some_lost : (t : Pack) → Sublist t (flow s) → Sublist t (flow s ++ [])
  some_lost t h = subst (Sublist t) (sym (append-nil (flow s))) h

  pub round_flow :
      (r : Reader)
      → flow (reader_round r s)
        ≡ flow s ++ records_of (read_bulks read_buffer_size bulk_capacity r).0
  unfolding reader_round
  round_flow r =
      let new = (read_bulks read_buffer_size bulk_capacity r).0 in
      ap
        (λ q.
          Flow s.dispatched (packs_of s) s.aggregator.items
            (somes (held_bulks s.worker) ++ somes q))
        (send_bulk-pointers new s.stream_queue)
      ∙ ap
          (λ b.
            Flow s.dispatched (packs_of s) s.aggregator.items (somes (held_bulks s.worker) ++ b))
          (somes-append s.stream_queue.queue.items (pointers new)
            ∙ ap (λ t. somes s.stream_queue.queue.items ++ t) (somes-pointers new))
      ∙ ap (Flow s.dispatched (packs_of s) s.aggregator.items)
          (sym (append_assoc (somes (held_bulks s.worker)) (somes s.stream_queue.queue.items) new))
      ∙ Flow-more s.dispatched (packs_of s) s.aggregator.items (bulks_of s) new

  pub take_bulks_flow :
      (ms : List BulkMessage) (rest : MessageQueue BulkMessage)
      → s.worker ≡ worker_waiting
      → receive_bulk bulk_capacity s.stream_queue ≡ some (ms, rest)
      → somes (held_bulks (worker_next ms)) ++ somes rest.queue.items ≡ bulks_of s
  take_bulks_flow ms rest e got =
      ap (λ h. somes h ++ somes rest.queue.items) (held_bulks-next ms)
      ∙ sym (somes-append ms rest.queue.items)
      ∙ ap somes (receive_bulk-items bulk_capacity s.stream_queue ms rest got)
      ∙ ap (λ w. somes (held_bulks w) ++ somes s.stream_queue.queue.items) (sym e)

  pub take_packs_flow :
      (ms : List PackMessage) (rest : MessageQueue PackMessage)
      → s.sender ≡ sender_waiting
      → receive_bulk bulk_capacity s.result_queue ≡ some (ms, rest)
      → somes (held_packs (sender_next ms)) ++ somes rest.queue.items ≡ packs_of s
  take_packs_flow ms rest e got =
      ap (λ h. somes h ++ somes rest.queue.items) (held_packs-next ms)
      ∙ sym (somes-append ms rest.queue.items)
      ∙ ap somes (receive_bulk-items bulk_capacity s.result_queue ms rest got)
      ∙ ap (λ w. somes (held_packs w) ++ somes s.result_queue.queue.items) (sym e)

  -- A pack joins the result queue.
  pub send_pack_flow :
      (pack : Pack)
      → somes (held_packs s.sender) ++ somes (s.result_queue.queue.items ++ some pack ∷ [])
        ≡ packs_of s ++ pack ∷ []
  send_pack_flow pack =
      ap (λ t. somes (held_packs s.sender) ++ t)
        (somes-append s.result_queue.queue.items (some pack ∷ []))
      ∙ sym (
          append_assoc (somes (held_packs s.sender)) (somes s.result_queue.queue.items) (pack ∷ []))
