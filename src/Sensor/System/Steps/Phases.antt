-- ===== src/Sensor/System/Steps/Phases.antt =====
-- Lemmas on the phases, the messages and the records that the steps share.
use mathlib.Core.List.{Perm, perm_append_comm}
use mathlib.Core.List.Perm
use linux_sensors.Base.{
  sym, subst, ◌∙◌, list_laws, suc, ◌≡◌, List, [], ◌∷◌, ◌++◌, Bool, true, false, ok, refl,
  append_assoc, ap, length,
}
use linux_sensors.Queue.{MessageQueue, send_bulk}
use linux_sensors.Queue.Order.{send_bulk-items}
use linux_sensors.Sensor.Reader.{EventsBulk, Reader}
use linux_sensors.Sensor.System.{
  Pack, BulkMessage, ReaderPhase, reading, ending, read_done, WorkerPhase, worker_waiting, working,
  packing, flushing, telling_workers, telling_sender, work_done, System, collect_bulk, pointers,
  worker_next, reader_phase,
}
use linux_sensors.Sensor.System.Invariant.{
  collected, records_of, joined, reader_over, worker_over, Drained, Held, Inv, joined-append,
  records_of-append,
}

pub length-pointers : (xs : List EventsBulk) → length (pointers xs) ≡ length xs
length-pointers [] = refl
length-pointers (x ∷ xs) = ap suc (length-pointers xs)

pub send_bulk-pointers :
    (new : List EventsBulk) (q : MessageQueue BulkMessage)
    → (send_bulk (pointers new) (length new) q).queue.items ≡ q.queue.items ++ pointers new
send_bulk-pointers new q = rw (← length-pointers new) (send_bulk-items (pointers new) q)

pub reader_over-done : (reader : ReaderPhase) → reader_over reader ≡ true → reader ≡ read_done
reader_over-done read_done h = refl
reader_over-done (reading r) h = cc
reader_over-done (ending r) h = cc

pub worker_over-done : (worker : WorkerPhase) → worker_over worker ≡ true → worker ≡ work_done
worker_over-done work_done h = refl
worker_over-done worker_waiting h = cc
worker_over-done (working ms) h = cc
worker_over-done (packing ms) h = cc
worker_over-done flushing h = cc
worker_over-done telling_workers h = cc
worker_over-done telling_sender h = cc

pub collected_lem :
    (bulk : EventsBulk) (records : Pack) → collect_bulk bulk ≡ ok records → collected bulk ≡ records
unfolding collected
collected_lem bulk records done = rw (done, collected) refl

-- The records of a bulk move from the bulks that are left to the aggregator.
pub regroup : (x i r t : Pack) → x ++ (i ++ r) ++ t ≡ x ++ i ++ (r ++ t)
regroup x i r t = simp append_assoc

pub reader_phase-over : (ended : Bool) (r : Reader) → reader_over (reader_phase ended r) ≡ false
unfolding reader_phase
reader_phase-over true r = refl
reader_phase-over false r = refl

pub worker_next-over : (ms : List BulkMessage) → worker_over (worker_next ms) ≡ false
unfolding worker_next
worker_next-over [] = refl
worker_next-over (m ∷ ms) = refl

pub Drained-next : (ms : List BulkMessage) (items : Pack) → Drained (worker_next ms) items
unfolding worker_next
Drained-next [] items = tt
Drained-next (m ∷ ms) items = tt

module _ {bulks : List EventsBulk} {lost : Pack} {s : System} (inv : Inv bulks lost s) where
  -- A pack leaves the aggregator.
  pub pack_total :
      (packs : List Pack) (items : Pack)
      → joined s.dispatched ++ joined (packs ++ items ∷ []) ++ [] ++ records_of inv.left
        ≡ joined s.dispatched ++ joined packs ++ items ++ records_of inv.left
  pack_total packs items = simp (joined-append, list_laws)

  -- A pack is dispatched.
  pub dispatch_total :
      (pack : Pack) (packs : List Pack)
      → joined (s.dispatched ++ pack ∷ [])
          ++ joined packs
          ++ s.aggregator.items
          ++ records_of inv.left
        ≡ joined s.dispatched ++ joined (pack ∷ packs) ++ s.aggregator.items ++ records_of inv.left
  dispatch_total pack packs = simp (joined-append, list_laws)

  -- The records that are kept stay the same.
  pub same_held :
      {kept : Pack}
      → kept ≡ joined s.dispatched ++ joined inv.packs ++ s.aggregator.items ++ records_of inv.left
      → Held s.failed bulks lost kept
  same_held same = subst (Held s.failed bulks lost) (sym same) inv.held

pub perm_turn : (x y z : Pack) → Perm (x ++ y ++ z) (x ++ z ++ y)
perm_turn x y z = subst (Perm (x ++ y ++ z)) (sym (append_assoc x z y)) (
    subst (λ t. Perm t (x ++ (z ++ y))) (sym (append_assoc x y z))
      (Perm.append_left x (perm_append_comm y z)))

-- The records of new bulks come behind the others.
pub read_held :
    {failed : Bool} {bulks : List EventsBulk} {lost kept : Pack} (new : List EventsBulk)
    → Held failed bulks lost kept
    → Held failed (bulks ++ new) lost (kept ++ records_of new)
read_held {failed} {bulks} {lost} {kept} new h = record {
  total =
      λ sound. ap (λ t. t ++ records_of new) (h.total sound) ∙ sym (records_of-append bulks new);
  parts = subst (Perm (kept ++ records_of new ++ lost)) (sym (records_of-append bulks new)) (
      Perm.trans (perm_turn kept (records_of new) lost)
        (Perm.append_right (records_of new) h.parts));
}
