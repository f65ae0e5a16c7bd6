-- ===== src/Stream/Interface/Chunks.antt =====
-- The streams for which only the records count, and not how they are cut into packs.
use linux_sensors.Base.{
  ◌≡◌, List, [], ◌∷◌, ◌++◌, Bytes, refl, sym, ap, ◌∙◌, append-nil, append_assoc,
}
use linux_sensors.Os.{printed}
use linux_sensors.Trace.{SysParamsRecord}
use linux_sensors.Stream.{
  Format, console_dispatch, file_dispatch, file_text, dummy_dispatch, params_text,
}
use linux_sensors.Stream.Aggregate.{Traces, memory_dispatch}
use linux_sensors.Stream.Interface.{
  SensorStream, memory_stream, file_stream, console_stream, dumy_stream,
}

-- To dispatch two packs is to dispatch their records in one.
pub record IsChunked {ℓ} {S : Type ℓ} (stream : SensorStream S) : Type ℓ where
  pub empty_pack : (s : S) → stream.dispatch [] s ≡ s
  pub two_packs :
      (xs ys : List SysParamsRecord) (s : S)
      → stream.dispatch (xs ++ ys) s ≡ stream.dispatch ys (stream.dispatch xs s)

memory_dispatch-append :
    (xs ys : List SysParamsRecord) (s : Traces)
    → memory_dispatch (xs ++ ys) s ≡ memory_dispatch ys (memory_dispatch xs s)
unfolding memory_dispatch
memory_dispatch-append [] ys s = refl
memory_dispatch-append (x ∷ xs) ys s = memory_dispatch-append xs ys _

pub memory_stream-IsChunked : IsChunked memory_stream
memory_stream-IsChunked = record {
  empty_pack = λ s. unfold memory_dispatch in refl;
  two_packs = memory_dispatch-append;
}

module _ (format : Format) where
  file_text_out :
      (xs : List SysParamsRecord) (json : Bytes)
      → file_text format xs json ≡ json ++ file_text format xs []
  unfolding file_text
  file_text_out [] json = sym (append-nil json)
  file_text_out (x ∷ xs) json =
      let line = params_text format x ++ b'\n' ∷ [] in
      file_text_out xs ((json ++ params_text format x) ++ b'\n' ∷ [])
      ∙ ap (λ t. t ++ file_text format xs [])
          (append_assoc json (params_text format x) (b'\n' ∷ []))
      ∙ append_assoc json line (file_text format xs [])
      ∙ ap (λ t. json ++ t) (sym (file_text_out xs line))

  file_text-append :
      (xs ys : List SysParamsRecord) (json : Bytes)
      → file_text format (xs ++ ys) json ≡ file_text format ys (file_text format xs json)
  unfolding file_text
  file_text-append [] ys json = refl
  file_text-append (x ∷ xs) ys json = file_text-append xs ys _

  pub file_stream-IsChunked : IsChunked (file_stream format)
  file_stream-IsChunked = record {
    empty_pack = λ s. unfold file_dispatch file_text in append-nil s;
    two_packs = λ xs ys s.
        unfold file_dispatch in
        (ap (λ t. s ++ t) (file_text-append xs ys [] ∙ file_text_out ys (file_text format xs []))
          ∙ sym (append_assoc s (file_text format xs []) (file_text format ys [])));
  }

  console_dispatch-append :
      (xs ys : List SysParamsRecord)
      → console_dispatch format (xs ++ ys)
        ≡ console_dispatch format xs ++ console_dispatch format ys
  unfolding console_dispatch
  console_dispatch-append [] ys = refl
  console_dispatch-append (x ∷ xs) ys =
      ap (λ t. printed (params_text format x) ∷ printed (b'\n' ∷ []) ∷ t)
        (console_dispatch-append xs ys)

  pub console_stream-IsChunked : IsChunked (console_stream format)
  console_stream-IsChunked = record {
    empty_pack = λ s. unfold console_dispatch in append-nil s;
    two_packs = λ xs ys s.
        ap (λ t. s ++ t) (console_dispatch-append xs ys)
        ∙ sym (append_assoc s (console_dispatch format xs) (console_dispatch format ys));
  }

dummy_dispatch_nothing : (xs : List SysParamsRecord) → dummy_dispatch xs ≡ []
unfolding dummy_dispatch
dummy_dispatch_nothing [] = refl
dummy_dispatch_nothing (x ∷ xs) = dummy_dispatch_nothing xs

pub dumy_stream-IsChunked : IsChunked dumy_stream
dumy_stream-IsChunked = record {
  empty_pack = λ s. unfold dummy_dispatch in append-nil s;
  two_packs = λ xs ys s.
      rw (dummy_dispatch_nothing (xs ++ ys), dummy_dispatch_nothing xs, dummy_dispatch_nothing ys)
        (sym (append-nil (s ++ [])));
}
