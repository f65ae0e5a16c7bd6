-- ===== src/Sensor/Aggregator.antt =====
-- include/sensor/data_aggregator.h: records collected up to a limit.
use linux_sensors.Base.{
  ℕ, List, [], ◌∷◌, ◌++◌, Bool, true, false, leb, length, if◌then◌else◌, ◌≡◌, sym, ◌∙◌, append-nil,
  append_assoc,
}

-- `__limit` and `*__data`.
pub record DataAggregator {ℓ} (T : Type ℓ) : Type ℓ where
  pub limit : ℕ
  pub items : List T

module _ {ℓ} {T : Type ℓ} where
  unfoldable pub new_aggregator : ℕ → DataAggregator T
  new_aggregator pack_size = record { limit = pack_size; items = [] }

  unfoldable pub append : T → DataAggregator T → DataAggregator T
  append item agg = record agg { items = agg.items ++ item ∷ [] }

  -- `append` for each record that a bulk yields.
  unfoldable pub append_all : List T → DataAggregator T → DataAggregator T
  unfolding append
  append_all [] agg = agg
  append_all (item ∷ items) agg = append_all items (append item agg)

  unfoldable pub ready : DataAggregator T → Bool
  ready agg = if leb agg.limit (length agg.items) then true else false

  -- The pack so far, and the aggregator with a new one.
  unfoldable pub make_new_pack : DataAggregator T → List T × DataAggregator T
  make_new_pack agg = (agg.items, record agg { items = [] })

  pub append_all-items :
      (items : List T) (agg : DataAggregator T) → (append_all items agg).items ≡ agg.items ++ items
  unfolding append_all append
  append_all-items [] agg = sym (append-nil agg.items)
  append_all-items (item ∷ items) agg =
      append_all-items items (append item agg) ∙ append_assoc agg.items (item ∷ []) items
