-- ===== src/Sensor/System/Spares.antt =====
-- What a throw of `dispatch` drops: the messages that `_send_stream` dequeued with the pack.
use mathlib.Core.List.{Perm, perm_append_comm}
use mathlib.Core.List.Perm
use linux_sensors.Base.{
  ◌≡◌, List, [], ◌∷◌, ◌++◌, Bool, true, false, none, some, refl, sym, ap, append_assoc, subst, ◌∙◌,
  All, arith,
}
use linux_sensors.Trace.{SysParamsRecord}
use linux_sensors.Sensor.Aggregator.{DataAggregator}
use linux_sensors.Sensor.Reader.{EventsBulk}
use linux_sensors.Sensor.System.{
  Pack, BulkMessage, PackMessage, sender_waiting, sending, System, pointers, Step, read_round,
  read_end, take_bulks, collect_one, pack_records, meet_end, flush, tell_workers, tell_sender,
  take_packs, dispatch_pack, dispatch_throws, finish, Reach, here, next, reader_round, reader_end,
  worker_collect, worker_pack, flushed, worker_flush, worker_tell_workers, worker_tell_sender,
  sender_dispatch, sender_finish,
}
use linux_sensors.Sensor.System.Invariant.{
  somes, joined, joined-append, records_of, Held, sentinel, worker_over, ResultIs, Inv,
  pointers_head,
}

abbrev pub IsPack : PackMessage → Type 0
IsPack (some pack) = Unit
IsPack none = ⊥

-- A throw spares the closing nullptr, if it was not dequeued with the pack.
abbrev pub Spares : {s t : System} → Step s t → Type 0
Spares (dispatch_throws pack left e) = All IsPack left
Spares _ = Unit

-- So did each throw so far.
abbrev pub SparesEnd : {s t : System} → Reach s t → Type 0
SparesEnd here = Unit
SparesEnd (next r st) = SparesEnd r × Spares st

-- The records of the packs that a throw drops, with those of the pack itself.
unfoldable pub lost_after : {s t : System} → Pack → Step s t → Pack
lost_after lost (dispatch_throws pack left e) = lost ++ joined (somes (some pack ∷ left))
lost_after lost _ = lost

unfoldable pub lost_in : {s t : System} → Reach s t → Pack
lost_in here = []
lost_in (next r st) = lost_after (lost_in r) st

-- A step that is no throw.
abbrev pub Returns : {s t : System} → Step s t → Type 0
Returns (dispatch_throws pack left e) = ⊥
Returns _ = Unit

abbrev pub AllReturn : {s t : System} → Reach s t → Type 0
AllReturn here = Unit
AllReturn (next r st) = AllReturn r × Returns st

worker_pack-failed : (left : List BulkMessage) (s : System) → (worker_pack left s).failed ≡ s.failed
unfolding worker_pack
worker_pack-failed left s = ground arith

flushed-failed :
    (items : Pack) (agg : DataAggregator SysParamsRecord) (s : System)
    → (flushed items agg s).failed ≡ s.failed
unfolding flushed
flushed-failed [] agg s = refl
flushed-failed (r ∷ rs) agg s = refl

Returns-failed : {s t : System} (st : Step s t) → Returns st → t.failed ≡ s.failed
unfolding reader_round reader_end worker_collect worker_flush worker_tell_workers worker_tell_sender
    sender_dispatch sender_finish
Returns-failed (read_round r e) h = refl
Returns-failed (read_end r e) h = refl
Returns-failed (take_bulks ms rest e got) h = refl
Returns-failed (collect_one bulk left records e done) h = refl
Returns-failed {s} (pack_records left e) h = worker_pack-failed left s
Returns-failed (meet_end left e) h = refl
Returns-failed {s} (flush e) h = flushed-failed s.aggregator.items _ s
Returns-failed (tell_workers e) h = refl
Returns-failed (tell_sender clock e) h = refl
Returns-failed (take_packs ms rest e got) h = refl
Returns-failed (dispatch_pack pack left e) h = refl
Returns-failed (dispatch_throws pack left e) h = absurd h
Returns-failed (finish clock left e) h = refl

-- A throw is recorded.
sound-Returns : {s t : System} (st : Step s t) → t.failed ≡ false → Returns st
sound-Returns (read_round r e) h = tt
sound-Returns (read_end r e) h = tt
sound-Returns (take_bulks ms rest e got) h = tt
sound-Returns (collect_one bulk left records e done) h = tt
sound-Returns (pack_records left e) h = tt
sound-Returns (meet_end left e) h = tt
sound-Returns (flush e) h = tt
sound-Returns (tell_workers e) h = tt
sound-Returns (tell_sender clock e) h = tt
sound-Returns (take_packs ms rest e got) h = tt
sound-Returns (dispatch_pack pack left e) h = tt
sound-Returns (dispatch_throws pack left e) h = cc
sound-Returns (finish clock left e) h = tt

pub Returns-Spares : {s t : System} (st : Step s t) → Returns st → Spares st
Returns-Spares (read_round r e) h = tt
Returns-Spares (read_end r e) h = tt
Returns-Spares (take_bulks ms rest e got) h = tt
Returns-Spares (collect_one bulk left records e done) h = tt
Returns-Spares (pack_records left e) h = tt
Returns-Spares (meet_end left e) h = tt
Returns-Spares (flush e) h = tt
Returns-Spares (tell_workers e) h = tt
Returns-Spares (tell_sender clock e) h = tt
Returns-Spares (take_packs ms rest e got) h = tt
Returns-Spares (dispatch_pack pack left e) h = tt
Returns-Spares (dispatch_throws pack left e) h = absurd h
Returns-Spares (finish clock left e) h = tt

-- Without a throw nothing was dropped.
pub sound-SparesEnd : {s t : System} (r : Reach s t) → t.failed ≡ false → SparesEnd r
sound-SparesEnd here h = tt
sound-SparesEnd (next r st) h =
    let k = sound-Returns st h in
    (sound-SparesEnd r (sym (Returns-failed st k) ∙ h), Returns-Spares st k)

-- Behind packs that are dropped, the queue holds pointers and the nullptr.
spared_queue :
    (ms queue : List PackMessage) (packs : List Pack) (over : Bool)
    → All IsPack ms
    → ms ++ queue ≡ pointers packs ++ sentinel over
    → (rest : List Pack) × (packs ≡ somes ms ++ rest) × (queue ≡ pointers rest ++ sentinel over)
spared_queue [] queue packs over spared h = (packs, refl, h)
spared_queue (none ∷ ms) queue packs over (bad, spared) h = absurd bad
spared_queue (some p ∷ ms) queue packs over (_, spared) h =
    let (behind, cut, more) = pointers_head packs over p (ms ++ queue) h in
    let (rest, same, more') = spared_queue ms queue behind over spared more in
    (rest, cut ∙ ap (λ t. p ∷ t) same, more')

-- The records of packs that were under way are lost.
drop_held :
    {bulks : List EventsBulk} {failed : Bool} (lost front gone items back : Pack) (rest : List Pack)
    → Held failed bulks lost (front ++ (gone ++ joined rest) ++ items ++ back)
    → Perm ((front ++ joined rest ++ items ++ back) ++ (lost ++ gone)) (records_of bulks)
drop_held {bulks} lost front gone items back rest h =
    let others = joined rest ++ items ++ back ++ lost in
    let before : front ++ (others ++ gone)
        ≡ (front ++ joined rest ++ items ++ back) ++ (lost ++ gone) =
      simp append_assoc in
    let after : front ++ (gone ++ joined rest) ++ items ++ back ++ lost
        ≡ front ++ (gone ++ others) =
      simp append_assoc in
    Perm.trans
      (subst (λ t. Perm t (front ++ (gone ++ others))) before
        (Perm.append_left front (perm_append_comm others gone)))
      (subst (λ t. Perm t (records_of bulks)) after h.parts)

module _ {bulks : List EventsBulk} {lost : Pack} {s : System} (inv : Inv bulks lost s) where
  pub dispatch_throws-Inv :
      (pack : Pack) (ms : List PackMessage)
      → s.sender ≡ sending (some pack ∷ ms)
      → All IsPack ms
      → Inv bulks
          (lost ++ joined (somes (some pack ∷ ms)))
          (record s { sender = sender_waiting; failed = true })
  dispatch_throws-Inv pack ms e spared =
      let result' =
        subst (λ w. ResultIs s.worker w s.result_queue.queue.items inv.packs) e inv.result in
      let (rest, cut, more) =
        spared_queue (some pack ∷ ms) s.result_queue.queue.items inv.packs (worker_over s.worker)
          (tt, spared) result' in
      record {
        left = inv.left;
        suffix = inv.suffix;
        packs = rest;
        stream = inv.stream;
        result = more;
        drained = inv.drained;
        held = record {
          total = λ sound. cc;
          parts =
              drop_held lost (joined s.dispatched) (joined (somes (some pack ∷ ms)))
                s.aggregator.items (records_of inv.left) rest
                (subst
                  (λ p.
                    Held s.failed bulks lost
                      (joined s.dispatched ++ p ++ s.aggregator.items ++ records_of inv.left))
                  (ap joined cut ∙ joined-append (somes (some pack ∷ ms)) rest) inv.held);
        };
        over = λ f. cc (e, inv.over f);
      }
