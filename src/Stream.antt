-- ===== src/Stream.antt =====
-- include/stream: where the sensor hands its packs. The formatter of include/utils/format.h is the
-- argument `format`; a file, a console or a socket receives bytes.
pub mod Aggregate
pub mod Packet
pub mod Interface
use linux_sensors.Base.{ℕ, ◌+◌, List, [], ◌∷◌, ◌++◌, Bytes, codes}
use linux_sensors.Base.Int.{ℤ}
use linux_sensors.Trace.{SysRecord, SysParamsRecord}
use linux_sensors.Os.{Effect, printed, wrote}

-- An argument of `fmt::format`.
pub data FormatArg : Type 0 where
  text : Bytes → FormatArg
  number : ℤ → FormatArg

abbrev pub Format : Type 0
Format = Bytes → List FormatArg → Bytes

module _ (format : Format) where
  -- `SysRecord::to_string`
  unfoldable pub record_text : SysRecord → Bytes
  record_text r = format (codes "'{0}','{1}'") (number r.pid ∷ number r.syscall ∷ [])

  -- `SysParamsRecord::to_string`
  unfoldable pub params_text : SysParamsRecord → Bytes
  params_text r =
      format (codes "'{0}','{1}','{2}','{3}'")
        (text r.name ∷ number r.base.pid ∷ number r.base.syscall ∷ text r.arg ∷ [])

  -- `console_stream::dispatch`
  unfoldable pub console_dispatch : List SysParamsRecord → List Effect
  unfolding params_text
  console_dispatch [] = []
  console_dispatch (r ∷ records) =
      printed (params_text r) ∷ printed (b'\n' ∷ []) ∷ console_dispatch records

  -- The loop of `file_stream::dispatch`, which appends to `json`.
  unfoldable pub file_text : List SysParamsRecord → Bytes → Bytes
  unfolding params_text
  file_text [] json = json
  file_text (r ∷ records) json = file_text records ((json ++ params_text r) ++ b'\n' ∷ [])

  -- `file_stream::dispatch`: the file's content after it.
  unfoldable pub file_dispatch : List SysParamsRecord → Bytes → Bytes
  unfolding file_text
  file_dispatch records file = file ++ file_text records []

-- `dumy_stream::dispatch`, whose loop has no body.
unfoldable pub dummy_dispatch : List SysParamsRecord → List Effect
dummy_dispatch [] = []
dummy_dispatch (r ∷ records) = dummy_dispatch records
